-- ===== src/CString/Number.antt =====
-- lib/string.c: `strtol`. A `long` is its bit pattern below 2 ^ 64.
pub mod Laws
use mit_jos_cse.Prelude.{
  ℕ, zero, suc, ◌+◌, ◌-◌, ◌*◌, ◌%◌, ◌^◌, Option, none, some, Bool, true, false, ◌&&◌, ◌||◌, leb,
  ◌==◌, if◌then◌else◌, Memory,
}

is_blank : ℕ → Bool
is_blank c = c == b' ' || c == b'\t'

skip_blanks : ℕ → Memory → ℕ → Option ℕ
unfolding is_blank
skip_blanks zero m s = none
skip_blanks (suc fuel) m s =
    let rest = skip_blanks fuel m (s + 1) in if is_blank (m s) then rest else some s

-- The address behind an optional sign, and whether it is a minus.
skip_sign : Memory → ℕ → ℕ × Bool
skip_sign m s =
    if m s == b'+' then (s + 1, false) else if m s == b'-' then (s + 1, true) else (s, false)

-- The address behind a base prefix, and the base.
skip_prefix : Memory → ℕ → ℕ → ℕ × ℕ
skip_prefix m s base =
    if (base == 0 || base == 16) && (m s == b'0' && m (s + 1) == b'x')
    then (s + 2, 16)
    else if base == 0 && m s == b'0'
    then (s + 1, 8)
    else if base == 0
    then (s, 10)
    else (s, base)

-- The value of a digit or letter. A byte from 128 on is a negative `char`, and no digit either way.
abbrev pub digit : ℕ → Option ℕ
digit c =
    if leb b'0' c && leb c b'9'
    then some (c - b'0')
    else if leb b'a' c && leb c b'z'
    then some (c - b'a' + 10)
    else if leb b'A' c && leb c b'Z'
    then some (c - b'A' + 10)
    else none

digits : ℕ → Memory → ℕ → ℕ → ℕ → Option (ℕ × ℕ)
digits zero m s base val = none
digits (suc fuel) m s base val = elim (digit (m s)) [
  | none ↦ some (val, s)
  | some dig ↦
      let rest = digits fuel m (s + 1) base ((val * base + dig) % 2 ^ 64) in
      if leb base dig then some (val, s) else rest
]

-- The result is the number and the address that `*endptr` takes.
unfoldable pub strtol : ℕ → Memory → ℕ → ℕ → Option (ℕ × ℕ)
unfolding skip_blanks skip_sign skip_prefix digits
strtol fuel m s base = elim (skip_blanks fuel m s) [
  | none ↦ none
  | some s' ↦
      let (s'', neg) = skip_sign m s' in
      let (t, base') = skip_prefix m s'' base in
      elim (digits fuel m t base' 0) [
        | none ↦ none
        | some (val, end) ↦ some (if neg then (2 ^ 64 - val) % 2 ^ 64 else val, end)
      ]
]
