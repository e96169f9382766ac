-- ===== src/CString/Search.antt =====
-- lib/string.c: `strstr`.
use mit_jos_cse.Prelude.{
  ℕ, zero, suc, ◌+◌, ◌^◌, ◌<◌, ◌≡◌, refl, List, [], ◌∷◌, Option, none, some, Bool, true, false,
  arith, ◌==◌, if◌then◌else◌, length, Memory, IsStr, ℤ, pos, negsuc,
}
use mit_jos_cse.CString.Compare.{strncmp}
use mit_jos_cse.CString.Scan.{strlen, strlen_lem}

abbrev is_zero : ℤ → Bool
is_zero (pos n) = n == 0
is_zero (negsuc n) = false

-- The two `do` loops of `strstr` as one: a round ends either loop's test. `c` is the first
-- character of the text that is looked for, `str` and `len` are its rest.
strstr_from : ℕ → Memory → ℕ → ℕ → ℕ → ℕ → Option (Option ℕ)
strstr_from zero m c str len at = none
strstr_from (suc fuel) m c str len at =
    let rest = strstr_from fuel m c str len (at + 1) in
    if m at == 0
    then some none
    else if m at == c
    then if is_zero (strncmp m (at + 1) str len) then some (some at) else rest
    else rest

unfoldable pub strstr : ℕ → Memory → ℕ → ℕ → Option (Option ℕ)
unfolding strstr_from
strstr fuel m at str = if m str == 0 then some (some at) else elim (strlen fuel m (str + 1)) [
  | none ↦ none
  | some len ↦ strstr_from fuel m (m str) (str + 1) len at
]

abbrev pub is_prefix : List ℕ → List ℕ → Bool
is_prefix [] t = true
is_prefix (x ∷ p) [] = false
is_prefix (x ∷ p) (y ∷ t) = if y == x then is_prefix p t else false

-- The first index at which the list `p` stands in the list `t`.
abbrev pub find_sub : List ℕ → List ℕ → Option ℕ
find_sub p [] = if is_prefix p [] then some 0 else none
find_sub p (y ∷ t) =
    if is_prefix p (y ∷ t)
    then some 0
    else elim (find_sub p t) [ none ↦ none | some i ↦ some (suc i) ]

abbrev pub place : ℕ → Option ℕ → Option ℕ
place at none = none
place at (some i) = some (at + i)

strncmp-is_prefix :
    (m : Memory) (at q : ℕ) (t p : List ℕ)
    → IsStr m at t
    → IsStr m q p
    → is_zero (strncmp m at q (length p)) ≡ is_prefix p t
unfolding strncmp
strncmp-is_prefix m at q t [] ht hp = refl
strncmp-is_prefix m at q [] (x ∷ p) ht hp = ground arith
strncmp-is_prefix m at q (y ∷ t) (x ∷ p) ht hp =
    ground (arith, strncmp-is_prefix m (at + 1) (q + 1) t p ht.2 hp.2)

strstr_from-find_sub :
    (fuel : ℕ) (m : Memory) (c q at : ℕ) (t p : List ℕ)
    → IsStr m at t
    → IsStr m q p
    → length t < fuel
    → strstr_from fuel m c q (length p) at ≡ some (place at (find_sub (c ∷ p) t))
unfolding strstr_from
strstr_from-find_sub zero m c q at t p ht hp f = absurd (omega arith)
strstr_from-find_sub (suc fuel) m c q at [] p ht hp f = ground arith
strstr_from-find_sub (suc fuel) m c q at (y ∷ t) p ht hp f = ground (
  arith,
  strncmp-is_prefix m (at + 1) q t p ht.2 hp,
  strstr_from-find_sub fuel m c q (at + 1) t p ht.2 hp,
)

-- On two C strings, the second shorter than 2 ^ 31, `strstr` returns the address of the first
-- occurrence of the second in the first, or the null pointer if there is none.
pub strstr_lem :
    (fuel : ℕ) (m : Memory) (at str : ℕ) (t p : List ℕ)
    → IsStr m at t
    → IsStr m str p
    → length t + length p < fuel
    → length p < 2 ^ 31
    → strstr fuel m at str ≡ some (place at (find_sub p t))
unfolding strstr
strstr_lem fuel m at str [] [] ht hp f b = ground arith
strstr_lem fuel m at str (y ∷ t) [] ht hp f b = ground arith
strstr_lem fuel m at str t (c ∷ p) ht hp f b = ground (
  arith,
  strlen_lem fuel m (str + 1) p hp.2,
  strstr_from-find_sub fuel m c (str + 1) at t p ht hp.2,
)
