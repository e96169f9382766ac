-- ===== src/CString/Number/Laws.antt =====
-- What `strtol` reads: blanks, a sign, a base prefix and digits.
use mit_jos_cse.Prelude.{
  leb, ◌&&◌, ◌||◌, Bool, ap, true, false, if◌then◌else◌, IsStr-rest, ℕ, zero, suc, ◌+◌, ◌-◌, ◌*◌,
  ◌%◌, ◌^◌, ◌≤◌, ◌<◌, ◌≡◌, ◌≢◌, List, [], ◌∷◌, ◌++◌, none, some, ◌⊎◌, inl, inr, Bool-cases, arith,
  length, Memory, IsStr, codes, All,
}
use mit_jos_cse.CString.Number.{skip_blanks, skip_sign, skip_prefix, digit, digits, strtol}

pub data Sign : Type 0 where
  unsigned plus minus : Sign

abbrev pub sign_text : Sign → List ℕ
sign_text unsigned = []
sign_text plus = b'+' ∷ []
sign_text minus = b'-' ∷ []

-- What stands before the digits, with the argument `base` that it goes with.
pub data Prefix : Type 0 where
  exact : ℕ → Prefix
  hex hex_any octal_any decimal_any : Prefix

abbrev pub base_arg : Prefix → ℕ
base_arg (exact b) = b
base_arg hex = 16
base_arg _ = 0

abbrev pub base_of : Prefix → ℕ
base_of (exact b) = b
base_of hex = 16
base_of hex_any = 16
base_of octal_any = 8
base_of decimal_any = 10

abbrev pub prefix_text : Prefix → List ℕ
prefix_text hex = codes "0x"
prefix_text hex_any = codes "0x"
prefix_text octal_any = codes "0"
prefix_text _ = []

abbrev IsNoX : List ℕ → Type 0
IsNoX [] = Unit
IsNoX (c ∷ l) = c ≢ b'x'

-- The first digit `c` and the text `l` behind it do not read as another prefix.
abbrev pub Fits : Prefix → ℕ → List ℕ → Type 0
Fits (exact b) c l = (b ≢ 0) × ((b ≢ 16) ⊎ ((c ≢ b'0') ⊎ IsNoX l))
Fits decimal_any c l = c ≢ b'0'
Fits _ c l = Unit

abbrev pub IsBlank : ℕ → Type 0
IsBlank c = (c ≡ b' ') ⊎ (c ≡ b'\t')

-- A digit, or a letter of either case.
abbrev pub is_figure : ℕ → Bool
is_figure c = (leb 48 c && leb c 57) || (leb 65 c && leb c 90) || (leb 97 c && leb c 122)

-- Its value: 0 to 9 from the code 48 on, and 10 to 35 from 65 and from 97 on.
abbrev pub digit_value : ℕ → ℕ
digit_value c = if leb c 57 then c - 48 else if leb c 90 then c - 65 + 10 else c - 97 + 10

abbrev pub IsDigit : ℕ → ℕ → Type 0
IsDigit base c = (is_figure c ≡ true) × (digit_value c < base)

-- The text does not go on with a digit.
abbrev pub Stops : ℕ → List ℕ → Type 0
Stops base [] = Unit
Stops base (c ∷ l) = (is_figure c ≡ false) ⊎ (base ≤ digit_value c)

digit-figure : (c : ℕ) → is_figure c ≡ true → digit c ≡ some (digit_value c)
digit-figure c h = ground (arith, h)

digit-other : (c : ℕ) → is_figure c ≡ false → digit c ≡ none
digit-other c h = ground (arith, h)

-- The number that digits spell behind `n`.
abbrev pub value : ℕ → ℕ → List ℕ → ℕ
value base n [] = n
value base n (c ∷ l) = value base (n * base + digit_value c) l

abbrev pub signed : Sign → ℕ → ℕ
signed minus v = (2 ^ 64 - v) % 2 ^ 64
signed _ v = v

-- The first character of a text, if there is one.
abbrev First : (ℕ → Type 0) → List ℕ → Type 0
First P [] = Unit
First P (c ∷ l) = P c

abbrev IsPlain : ℕ → Type 0
IsPlain c = (c ≢ b' ') × (c ≢ b'\t')

abbrev IsUnsigned : ℕ → Type 0
IsUnsigned c = (c ≢ b'+') × (c ≢ b'-')

skip_blanks_lem :
    (fuel : ℕ) (m : Memory) (s : ℕ) (w l : List ℕ)
    → All IsBlank w
    → First IsPlain l
    → IsStr m s (w ++ l)
    → length w < fuel
    → skip_blanks fuel m s ≡ some (s + length w)
unfolding skip_blanks
skip_blanks_lem zero m s w l b n h f = absurd (omega arith)
skip_blanks_lem (suc fuel) m s [] [] b n h f = ground arith
skip_blanks_lem (suc fuel) m s [] (c ∷ l) b n h f = ground arith
skip_blanks_lem (suc fuel) m s (x ∷ w) l b n h f =
    ground (arith, skip_blanks_lem fuel m (s + 1) w l b.1 n h.2)

le-value : (base : ℕ) (l : List ℕ) (n : ℕ) → 0 < base → n ≤ value base n l
le-value base [] n h = omega arith
le-value base (c ∷ l) n h = grind (arith, le-value base l (n * base + digit_value c) h)

digits_lem :
    (fuel : ℕ) (m : Memory) (s base n : ℕ) (l rest : List ℕ)
    → All (IsDigit base) l
    → Stops base rest
    → IsStr m s (l ++ rest)
    → 0 < base
    → length l < fuel
    → value base n l < 2 ^ 63
    → digits fuel m s base n ≡ some (value base n l, s + length l)
unfolding digits
digits_lem zero m s base n l rest d e h p f b = absurd (omega arith)
digits_lem (suc fuel) m s base n [] [] d e h p f b = ground arith
digits_lem (suc fuel) m s base n [] (c ∷ rest) d (inl e) h p f b = ground (arith, digit-other c e)
digits_lem (suc fuel) m s base n [] (c ∷ rest) d (inr e) h p f b = elim (Bool-cases (is_figure c)) [
  | inl y ↦ ground (arith, digit-figure c y)
  | inr y ↦ ground (arith, digit-other c y)
]
digits_lem (suc fuel) m s base n (c ∷ l) rest d e h p f b = ground (
  arith,
  digit-figure c d.0.0,
  le-value base l (n * base + digit_value c) p,
  digits_lem fuel m (s + 1) base (n * base + digit_value c) l rest d.1 e h.2 p,
)

abbrev is_minus : Sign → Bool
is_minus minus = true
is_minus _ = false

skip_sign_lem :
    (m : Memory) (s : ℕ) (sg : Sign) (l : List ℕ)
    → First IsUnsigned l
    → IsStr m s (sign_text sg ++ l)
    → skip_sign m s ≡ (s + length (sign_text sg), is_minus sg)
unfolding skip_sign
skip_sign_lem m s unsigned [] n h = ground arith
skip_sign_lem m s unsigned (c ∷ l) n h = ground arith
skip_sign_lem m s plus l n h = ground arith
skip_sign_lem m s minus l n h = ground arith

skip_prefix_lem :
    (m : Memory) (s c : ℕ) (px : Prefix) (l : List ℕ)
    → Fits px c l
    → digit c ≡ some (digit_value c)
    → digit_value c < base_of px
    → IsStr m s (prefix_text px ++ c ∷ l)
    → skip_prefix m s (base_arg px) ≡ (s + length (prefix_text px), base_of px)
unfolding skip_prefix
skip_prefix_lem m s c (exact b) [] n d v h = ground arith
skip_prefix_lem m s c (exact b) (x ∷ l) n d v h = ground arith
skip_prefix_lem m s c hex l n d v h = ground arith
skip_prefix_lem m s c hex_any l n d v h = ground arith
skip_prefix_lem m s c octal_any l n d v h = ground arith
skip_prefix_lem m s c decimal_any l n d v h = ground arith

-- No digit is a blank or a sign.
digit_plain :
    (c : ℕ) → digit c ≡ some (digit_value c) → (c ≢ b' ') × (c ≢ b'\t') × (c ≢ b'+') × (c ≢ b'-')
digit_plain c d = ground arith

First-prefix :
    (px : Prefix) (c : ℕ) (l : List ℕ)
    → digit c ≡ some (digit_value c)
    → First (λ x. IsPlain x × IsUnsigned x) (prefix_text px ++ c ∷ l)
First-prefix (exact b) c l d = ground arith
First-prefix hex c l d = omega arith
First-prefix hex_any c l d = omega arith
First-prefix octal_any c l d = omega arith
First-prefix decimal_any c l d = ground arith

First-sign :
    (sg : Sign) (l : List ℕ)
    → First (λ x. IsPlain x × IsUnsigned x) l
    → First IsPlain (sign_text sg ++ l) × First IsUnsigned l
First-sign unsigned [] h = (tt, tt)
First-sign unsigned (c ∷ l) h = (h.0, h.1)
First-sign plus [] h = omega arith
First-sign plus (c ∷ l) h = omega arith
First-sign minus [] h = omega arith
First-sign minus (c ∷ l) h = omega arith

signed_lem :
    (sg : Sign) (neg : Bool) (v : ℕ)
    → neg ≡ is_minus sg
    → (if neg then (2 ^ 64 - v) % 2 ^ 64 else v) ≡ signed sg v
signed_lem unsigned neg v e = rw e
signed_lem plus neg v e = rw e
signed_lem minus neg v e = rw e

-- Where a string holds blanks, an optional sign, the prefix that goes with the argument `base`, and
-- at least one digit in the base that this selects, up to a character that is no such digit,
-- `strtol` returns the number that the digits spell, negated for a minus, if that number is below
-- 2 ^ 63, and the address behind the last digit.
pub strtol_lem :
    (fuel : ℕ) (m : Memory) (s : ℕ) (sg : Sign) (px : Prefix) (w : List ℕ) (c : ℕ)
    (ds rest : List ℕ)
    → IsStr m s (w ++ (sign_text sg ++ (prefix_text px ++ ((c ∷ ds) ++ rest))))
    → All IsBlank w
    → Fits px c (ds ++ rest)
    → All (IsDigit (base_of px)) (c ∷ ds)
    → Stops (base_of px) rest
    → value (base_of px) 0 (c ∷ ds) < 2 ^ 63
    → length w + length ds + 1 < fuel
    → strtol fuel m s (base_arg px)
      ≡ some (
        signed sg (value (base_of px) 0 (c ∷ ds)),
        s + length w + length (sign_text sg) + length (prefix_text px) + suc (length ds),
      )
unfolding strtol
strtol_lem fuel m s sg px w c ds rest h b fits d e v f =
    let first = digit-figure c d.0.0 in
    let after_prefix = (c ∷ ds) ++ rest in
    let after_sign = prefix_text px ++ after_prefix in
    let after_blanks = sign_text sg ++ after_sign in
    let heads = First-sign sg after_sign (First-prefix px c (ds ++ rest) first) in
    let s1 = s + length w in
    let s2 = s1 + length (sign_text sg) in
    let s3 = s2 + length (prefix_text px) in
    let h1 = IsStr-rest m s w after_blanks h in
    let h2 = IsStr-rest m s1 (sign_text sg) after_sign h1 in
    let h3 = IsStr-rest m s2 (prefix_text px) after_prefix h2 in
    rw
      (
        skip_blanks_lem fuel m s w after_blanks b heads.0 h (omega arith),
        skip_sign_lem m s1 sg after_sign heads.1 h1,
        skip_prefix_lem m s2 c px (ds ++ rest) fits first d.0.1 h2,
        digits_lem fuel m s3 (base_of px) 0 (c ∷ ds) rest d e h3 (omega arith) (omega arith) v,
        strtol,
      )
      (ap (λ x. some (x, s3 + suc (length ds)))
        (signed_lem sg (skip_sign m s1).1 (value (base_of px) 0 (c ∷ ds))
          (ap (λ x. x.1) (skip_sign_lem m s1 sg after_sign heads.1 h1))))
