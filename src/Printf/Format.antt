-- ===== src/Printf/Format.antt =====
-- lib/printfmt.c: `vprintfmt` and what it calls. `fmt` and the texts of `%s` are addresses in a
-- memory that `putch` does not write to; a variable argument is its 64-bit slot, and a call that
-- runs out of arguments is a fault, `none`, like one that runs out of fuel.
pub mod Parse
use mit_jos_cse.Prelude.{
  ℕ, zero, suc, ◌+◌, ◌-◌, ◌*◌, ◌%◌, ◌^◌, List, [], ◌∷◌, Option, none, some, Bool, true, false, not,
  ◌&&◌, ◌||◌, leb, ltb, ◌==◌, if◌then◌else◌, get_or, codes, Memory, ℤ, pos, negsuc, pos_part, ◌-ℤ◌,
  ltb_ℤ,
}
use mit_jos_cse.CString.Scan.{strnlen}
use mit_jos_cse.Printf.Number.{repeat}

-- A literal of the program, as a memory that holds it at address 0.
abbrev pub literal : List ℕ → Memory
literal t a = get_or t a 0

-- The `int` or `long long` that a bit pattern stands for, and back.
abbrev pub int_of : ℕ → ℤ
int_of w = if ltb w (2 ^ 31) then pos w else negsuc (2 ^ 32 - w - 1)

abbrev pub pattern64 : ℤ → ℕ
pattern64 (pos n) = n % 2 ^ 64
pattern64 (negsuc n) = 2 ^ 64 - 1 - n % 2 ^ 64

-- A `char` as the `int` that it is passed as.
abbrev pub int_char : ℕ → ℕ
int_char c = if ltb c 128 then c else 2 ^ 32 - 256 + c

-- The argument that `va_arg` reads, and those behind it.
abbrev pub va_arg : List ℕ → Option (ℕ × List ℕ)
va_arg [] = none
va_arg (slot ∷ rest) = some (slot, rest)

unfoldable pub getuint : List ℕ → ℕ → Option (ℕ × List ℕ)
getuint args lflag = elim (va_arg args) [
  | none ↦ none
  | some (x, rest) ↦ some (if leb 2 lflag then x else if lflag == 0 then x % 2 ^ 32 else x, rest)
]

-- The result is the pattern of a `long long`.
unfoldable pub getint : List ℕ → ℕ → Option (ℕ × List ℕ)
getint args lflag = elim (va_arg args) [
  | none ↦ none
  | some (x, rest) ↦
      some
        (if leb 2 lflag then x else if lflag == 0 then pattern64 (int_of (x % 2 ^ 32)) else x, rest)
]

-- What an escape sequence sets. `lflag` counts and is not read again.
pub record Flags : Type 0 where
  pub padc : ℕ
  pub width : ℤ
  pub precision : ℤ
  pub lflag : ℕ
  pub altflag : Bool

abbrev pub no_flags : Flags
no_flags = record {
  padc = b' ';
  width = negsuc 0;
  precision = negsuc 0;
  lflag = 0;
  altflag = false;
}

-- `process_precision`, for a number just read
abbrev pub process_precision : Flags → ℤ → Flags
process_precision p n =
    if ltb_ℤ p.width (pos 0)
    then record p { width = n; precision = negsuc 0 }
    else record p { precision = n }

-- The loop of the width field, behind its first digit.
unfoldable pub read_number : ℕ → Memory → ℕ → ℕ → Option (ℕ × ℕ)
read_number zero m fmt n = none
read_number (suc fuel) m fmt n =
    let c = m fmt in
    let rest = read_number fuel m (fmt + 1) (n * 10 + c - b'0') in
    if ltb c b'0' || ltb b'9' c then some (n, fmt) else rest

-- What one round of `reswitch` does with the character `ch`: go on, take it for a conversion, or
-- fault.
pub data Round : Type 0 where
  again : ℕ → List ℕ → Flags → Round
  conversion fault : Round

unfoldable pub reswitch_round : ℕ → Memory → ℕ → ℕ → List ℕ → Flags → Round
unfolding read_number
reswitch_round fuel m ch fmt args p =
    if ch == b'-'
    then again fmt args (record p { padc = b'-' })
    else if ch == b'0'
    then again fmt args (record p { padc = b'0' })
    else if leb b'1' ch && leb ch b'9'
    then (elim (read_number fuel m fmt (ch - b'0')) [
      | none ↦ fault
      | some (n, fmt') ↦ again fmt' args (process_precision p (pos n))
    ])
    else if ch == b'*'
    then (elim (va_arg args) [
      | none ↦ fault
      | some (x, args') ↦ again fmt args' (process_precision p (int_of (x % 2 ^ 32)))
    ])
    else if ch == b'.'
    then again fmt args (if ltb_ℤ p.width (pos 0) then record p { width = pos 0 } else p)
    else if ch == b'#'
    then again fmt args (record p { altflag = true })
    else if ch == b'l'
    then again fmt args (record p { lflag = p.lflag + 1 })
    else conversion

-- From behind the `%` to the conversion character: that, the address behind it, the arguments that
-- are left, and the flags.
unfoldable pub reswitch : ℕ → Memory → ℕ → List ℕ → Flags → Option (ℕ × ℕ × List ℕ × Flags)
unfolding reswitch_round
reswitch zero m fmt args p = none
reswitch (suc fuel) m fmt args p = elim (reswitch_round fuel m (m fmt) (fmt + 1) args p) [
  | again fmt' args' p' ↦ reswitch fuel m fmt' args' p'
  | conversion ↦ some (m fmt, fmt + 1, args, p)
  | fault ↦ none
]

-- `error_string`; the places with no entry are null.
unfoldable pub error_string : ℕ → Option (List ℕ)
error_string e =
    if e == 1
    then some (codes "unspecified error")
    else if e == 2
    then some (codes "bad environment")
    else if e == 3
    then some (codes "invalid parameter")
    else if e == 4
    then some (codes "out of memory")
    else if e == 5
    then some (codes "out of environments")
    else if e == 6
    then some (codes "segmentation fault")
    else none

abbrev pub max_error : ℕ
max_error = 8

-- `fmt--; fmt[-1] != '%'`: the address behind the last `%` before `fmt`.
unfoldable pub rewind : Memory → ℕ → ℕ
rewind m zero = 0
rewind m (suc a) = let before = rewind m a in if m a == b'%' then suc a else before

module _ {ℓ} {S : Type ℓ} (putch : ℕ → S → S) where
  -- The loop over the text of `%s`; it returns the width that is left.
  unfoldable pub put_chars : ℕ → Memory → ℕ → ℤ → ℤ → Bool → S → Option (ℤ × S)
  put_chars zero m p precision width alt s = none
  put_chars (suc fuel) m p precision width alt s =
      let ch = m p in
      let unbounded = ltb_ℤ precision (pos 0) in
      let precision' = if unbounded then precision else precision -ℤ pos 1 in
      let shown = if alt && (ltb ch b' ' || ltb b'~' ch) then b'?' else int_char ch in
      let rest = put_chars fuel m (p + 1) precision' (width -ℤ pos 1) alt (putch shown s) in
      if ch == 0 || (not unbounded && ltb_ℤ precision' (pos 0)) then some (width, s) else rest

  -- `%s`: padding on the left, the text, and padding on the right
  unfoldable pub put_string : ℕ → Memory → ℕ → Flags → S → Option S
  unfolding put_chars
  put_string fuel m p f s =
      let len = int_of (strnlen m p (pattern64 f.precision)) in
      let left = ltb_ℤ (pos 0) f.width && not (f.padc == b'-') in
      let room = f.width -ℤ len in
      let width = if left then (if ltb_ℤ (pos 0) room then pos 0 else room) else f.width in
      let s' = if left then repeat putch (pos_part room) f.padc s else s in
      elim (put_chars fuel m p f.precision width f.altflag s') [
        | none ↦ none
        | some (width', s'') ↦ some (repeat putch (pos_part width') b' ' s'')
      ]
