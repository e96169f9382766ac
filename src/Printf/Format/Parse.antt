-- ===== src/Printf/Format/Parse.antt =====
-- How `vprintfmt` reads an escape sequence: an optional 0, an optional width, and a conversion.
use mit_jos_cse.Prelude.{
  ℕ, zero, suc, ◌+◌, ◌-◌, ◌*◌, ◌≤◌, ◌<◌, ◌≡◌, refl, ap, ◌∙◌, List, [], ◌∷◌, ◌++◌, some, Bool, true,
  false, ◌||◌, arith, leb, ltb, ◌==◌, length, All, Memory, IsStr, IsStr-rest, ℤ, pos, negsuc,
}
use mit_jos_cse.Printf.Format.{
  Flags, no_flags, process_precision, read_number, again, conversion, reswitch_round, reswitch,
}

-- The conversions, and their characters.
pub data Conversion : Type 0 where
  decimal unsigned octal hexadecimal pointer character text percent : Conversion

abbrev pub conversion_char : Conversion → ℕ
conversion_char decimal = b'd'
conversion_char unsigned = b'u'
conversion_char octal = b'o'
conversion_char hexadecimal = b'x'
conversion_char pointer = b'p'
conversion_char character = b'c'
conversion_char text = b's'
conversion_char percent = b'%'

-- The flag 0 and the width, as they are written.
pub data Width : Type 0 where
  no_width : Width
  width : ℕ → List ℕ → Width

abbrev pub zero_text : Bool → List ℕ
zero_text true = b'0' ∷ []
zero_text false = []

abbrev pub width_text : Width → List ℕ
width_text no_width = []
width_text (width d ds) = d ∷ ds

abbrev pub IsDecimal : ℕ → Type 0
IsDecimal c = (b'0' ≤ c) × (c ≤ b'9')

-- A width begins with a digit from 1 to 9.
abbrev pub IsWidth : Width → Type 0
IsWidth no_width = Unit
IsWidth (width d ds) = (b'1' ≤ d) × (d ≤ b'9') × All IsDecimal ds

abbrev pub decimal_value : ℕ → List ℕ → ℕ
decimal_value n [] = n
decimal_value n (c ∷ ds) = decimal_value (n * 10 + c - b'0') ds

abbrev pub width_value : Width → ℤ
width_value no_width = negsuc 0
width_value (width d ds) = pos (decimal_value (d - b'0') ds)

abbrev pub pad_char : Bool → ℕ
pad_char true = b'0'
pad_char false = b' '

-- What the escape sequence sets.
abbrev pub flags_of : Bool → Width → Flags
flags_of z w = record no_flags { padc = pad_char z; width = width_value w }

conversion_round :
    (fuel : ℕ) (m : Memory) (k : Conversion) (fmt : ℕ) (args : List ℕ) (p : Flags)
    → reswitch_round fuel m (conversion_char k) fmt args p ≡ conversion
unfolding reswitch_round
conversion_round fuel m decimal fmt args p = refl
conversion_round fuel m unsigned fmt args p = refl
conversion_round fuel m octal fmt args p = refl
conversion_round fuel m hexadecimal fmt args p = refl
conversion_round fuel m pointer fmt args p = refl
conversion_round fuel m character fmt args p = refl
conversion_round fuel m text fmt args p = refl
conversion_round fuel m percent fmt args p = refl

reswitch_end :
    (fuel : ℕ) (m : Memory) (k : Conversion) (fmt : ℕ) (args : List ℕ) (p : Flags)
    → m fmt ≡ conversion_char k
    → reswitch (suc fuel) m fmt args p ≡ some (conversion_char k, fmt + 1, args, p)
unfolding reswitch
reswitch_end fuel m k fmt args p e =
    rw (e, conversion_round fuel m k (fmt + 1) args p, reswitch)
      (ap (λ c. some (c, fmt + 1, args, p)) e)

no_digit : (k : Conversion) → (ltb (conversion_char k) b'0' || ltb b'9' (conversion_char k)) ≡ true
no_digit decimal = refl
no_digit unsigned = refl
no_digit octal = refl
no_digit hexadecimal = refl
no_digit pointer = refl
no_digit character = refl
no_digit text = refl
no_digit percent = refl

read_number_lem :
    (fuel : ℕ) (m : Memory) (fmt n : ℕ) (k : Conversion) (ds l : List ℕ)
    → All IsDecimal ds
    → IsStr m fmt (ds ++ conversion_char k ∷ l)
    → length ds < fuel
    → read_number fuel m fmt n ≡ some (decimal_value n ds, fmt + length ds)
unfolding read_number
read_number_lem zero m fmt n k ds l d h f = absurd (omega arith)
read_number_lem (suc fuel) m fmt n k [] l d h f = ground (arith, no_digit k)
read_number_lem (suc fuel) m fmt n k (c ∷ ds) l d h f =
    ground (arith, read_number_lem fuel m (fmt + 1) (n * 10 + c - b'0') k ds l d.1 h.2)

reswitch_step :
    (fuel : ℕ) (m : Memory) (fmt fmt' : ℕ) (args : List ℕ) (p p' : Flags)
    → reswitch_round fuel m (m fmt) (fmt + 1) args p ≡ again fmt' args p'
    → reswitch (suc fuel) m fmt args p ≡ reswitch fuel m fmt' args p'
unfolding reswitch
reswitch_step fuel m fmt fmt' args p p' e = rw (e, reswitch)

zero_round :
    (fuel : ℕ) (m : Memory) (fmt : ℕ) (args : List ℕ) (p : Flags)
    → reswitch_round fuel m b'0' fmt args p ≡ again fmt args (record p { padc = b'0' })
unfolding reswitch_round
zero_round fuel m fmt args p = refl

width_round :
    (fuel : ℕ) (m : Memory) (d fmt fmt' n : ℕ) (args : List ℕ) (p : Flags)
    → b'1' ≤ d
    → d ≤ b'9'
    → read_number fuel m fmt (d - b'0') ≡ some (n, fmt')
    → reswitch_round fuel m d fmt args p ≡ again fmt' args (process_precision p (pos n))
unfolding reswitch_round
width_round fuel m d fmt fmt' n args p h i e =
    let minus : (d == b'-') ≡ false = ground arith in
    let nought : (d == b'0') ≡ false = ground arith in
    let low : leb b'1' d ≡ true = ground arith in
    let high : leb d b'9' ≡ true = ground arith in rw (minus, nought, low, high, e)

-- A width, and then the conversion.
reswitch_width :
    (fuel : ℕ) (m : Memory) (fmt : ℕ) (args : List ℕ) (z : Bool) (w : Width) (k : Conversion)
    (l : List ℕ)
    → IsWidth w
    → IsStr m fmt (width_text w ++ conversion_char k ∷ l)
    → length (width_text w) + 1 < fuel
    → reswitch fuel m fmt args (flags_of z no_width)
      ≡ some (conversion_char k, fmt + length (width_text w) + 1, args, flags_of z w)
reswitch_width zero m fmt args z w k l d h f = absurd (omega arith)
reswitch_width (suc fuel) m fmt args z no_width k l d h f =
    reswitch_end fuel m k fmt args (flags_of z no_width) h.0
    ∙ ap (λ a. some (conversion_char k, a, args, flags_of z no_width)) (omega arith)
reswitch_width (suc zero) m fmt args z (width d ds) k l (low, high, digits) h f =
    absurd (omega arith)
reswitch_width (suc (suc fuel)) m fmt args z (width d ds) k l (low, high, digits) h f =
    let behind = fmt + 1 + length ds in
    let number : read_number (suc fuel) m (fmt + 1) (d - b'0')
        ≡ some (decimal_value (d - b'0') ds, behind) =
      read_number_lem (suc fuel) m (fmt + 1) (d - b'0') k ds l digits h.2 (omega arith) in
    let round : reswitch_round (suc fuel) m (m fmt) (fmt + 1) args (flags_of z no_width)
        ≡ again behind args (flags_of z (width d ds)) =
      rw h.0 (
        width_round (suc fuel) m d (fmt + 1) behind (decimal_value (d - b'0') ds) args
          (flags_of z no_width) low high number) in
    reswitch_step (suc fuel) m fmt behind args (flags_of z no_width) (flags_of z (width d ds)) round
    ∙ reswitch_end fuel m k behind args (flags_of z (width d ds))
        (IsStr-rest m (fmt + 1) ds (conversion_char k ∷ l) h.2).0
    ∙ ap (λ a. some (conversion_char k, a, args, flags_of z (width d ds))) (omega arith)

-- How long an escape sequence is, without its `%`.
abbrev pub escape_size : Bool → Width → ℕ
escape_size z w = length (zero_text z) + length (width_text w) + 1

-- Behind a `%`, an optional 0, an optional width and a conversion are read as what they are.
pub reswitch_lem :
    (fuel : ℕ) (m : Memory) (fmt : ℕ) (args : List ℕ) (z : Bool) (w : Width) (k : Conversion)
    (l : List ℕ)
    → IsWidth w
    → IsStr m fmt (zero_text z ++ (width_text w ++ conversion_char k ∷ l))
    → escape_size z w < fuel
    → reswitch fuel m fmt args no_flags
      ≡ some (conversion_char k, fmt + escape_size z w, args, flags_of z w)
reswitch_lem zero m fmt args z w k l d h f = absurd (omega arith)
reswitch_lem (suc fuel) m fmt args false w k l d h f =
    reswitch_width (suc fuel) m fmt args false w k l d h (omega arith)
    ∙ ap (λ a. some (conversion_char k, a, args, flags_of false w)) (omega arith)
reswitch_lem (suc fuel) m fmt args true w k l d h f =
    reswitch_step fuel m fmt (fmt + 1) args no_flags (flags_of true no_width)
      (rw h.0 (zero_round fuel m (fmt + 1) args no_flags))
    ∙ reswitch_width fuel m (fmt + 1) args true w k l d h.2 (omega arith)
    ∙ ap (λ a. some (conversion_char k, a, args, flags_of true w)) (omega arith)
