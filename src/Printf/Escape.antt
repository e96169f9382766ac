-- ===== src/Printf/Escape.antt =====
-- lib/printfmt.c: what the conversions of `vprintfmt` print, and the arguments that they take.
use mit_jos_cse.Prelude.{
  ℕ, suc, ◌-◌, ◌%◌, ◌^◌, ◌<◌, ◌≡◌, ◌≢◌, refl, ap, List, [], ◌∷◌, leb, if◌then◌else◌, length, Memory,
  IsStr, ℤ,
}
use mit_jos_cse.Printf.Number.{numeral, padded}
use mit_jos_cse.Printf.Format.{int_char}
use mit_jos_cse.Printf.Format.Parse.{
  Conversion, decimal, unsigned, octal, hexadecimal, pointer, character, text, percent,
}

-- The text as it is handed to `putch`.
abbrev pub shown_chars : List ℕ → List ℕ
shown_chars [] = []
shown_chars (c ∷ t) = int_char c ∷ shown_chars t

pub length-shown_chars : (t : List ℕ) → length (shown_chars t) ≡ length t
length-shown_chars [] = refl
length-shown_chars (c ∷ t) = ap suc (length-shown_chars t)

-- A 64-bit pattern in decimal: the sign, and then the magnitude, filled up.
abbrev pub decimal_text : ℤ → ℕ → ℕ → List ℕ
decimal_text width padc x =
    if leb (2 ^ 63) x
    then b'-' ∷ padded width padc (numeral 64 10 ((2 ^ 64 - x) % 2 ^ 64))
    else padded width padc (numeral 64 10 x)

-- What a conversion prints for the slot `x` of its argument, which for `%s` is the address of `t`.
abbrev pub conversion_text : Conversion → ℤ → ℕ → ℕ → List ℕ → List ℕ
conversion_text decimal width padc x t = decimal_text width padc x
conversion_text unsigned width padc x t = padded width padc (numeral 64 10 x)
conversion_text octal width padc x t = padded width padc (numeral 64 8 x)
conversion_text hexadecimal width padc x t = padded width padc (numeral 64 16 x)
conversion_text pointer width padc x t = b'0' ∷ b'x' ∷ padded width padc (numeral 64 16 x)
conversion_text character width padc x t = x % 2 ^ 32 ∷ []
conversion_text text width padc x t = padded width padc (shown_chars t)
conversion_text percent width padc x t = b'%' ∷ []

-- The argument of a conversion is a 64-bit slot; that of `%s` is not null, and the address of a
-- string of a length that an `int` holds.
abbrev pub IsArg : Memory → Conversion → ℕ → List ℕ → Type 0
IsArg m decimal x t = x < 2 ^ 64
IsArg m unsigned x t = x < 2 ^ 64
IsArg m octal x t = x < 2 ^ 64
IsArg m hexadecimal x t = x < 2 ^ 64
IsArg m pointer x t = x < 2 ^ 64
IsArg m character x t = x < 2 ^ 64
IsArg m text x t = (x ≢ 0) × IsStr m x t × (length t < 2 ^ 31)
IsArg m percent x t = Unit

-- The slots that a conversion takes.
abbrev pub slots_of : Conversion → ℕ → List ℕ → List ℕ
slots_of percent x args = args
slots_of k x args = x ∷ args
