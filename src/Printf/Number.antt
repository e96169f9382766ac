-- ===== src/Printf/Number.antt =====
-- lib/printfmt.c: `printnum`. The callback `putch` is a function on the state that `putdat` stands
-- for; it is given an `int` as its bit pattern below 2 ^ 32.
pub mod Numeral
use native.Mathlib.Nat.{pow-suc, mod-eq_of_lt, div-lt_iff_lt-mul, div-add-mod', mod-lt, le_trans}
use native.Mathlib.Decide.{dec_le}
use mit_jos_cse.Prelude.{
  ℕ, zero, suc, ◌+◌, ◌-◌, ◌*◌, ◌/◌, ◌%◌, ◌^◌, ◌≤◌, ◌<◌, ◌≡◌, ◌≢◌, refl, sym, ap, ◌∙◌, List, [], ◌∷◌,
  ◌++◌, Option, none, some, Bool, true, false, arith, leb, ltb, ◌==◌, if◌then◌else◌, length, get_or,
  replicate, codes, All, ℤ, pos, pos_part, ◌-ℤ◌, -ℤ_parts, passes, passes_at, append-nil,
  append_assoc, length-append,
}
use mit_jos_cse.CString.Number.{digit}
use mit_jos_cse.CString.Number.Laws.{digit_value, IsDigit, value}

-- "0123456789abcdef"[d], with the terminator for 16 and no index above
unfoldable pub digit_char : ℕ → ℕ
digit_char d = get_or (codes "0123456789abcdef") d 0

module _ {ℓ} {S : Type ℓ} (putch : ℕ → S → S) where
  -- `n` calls of `putch(c)`
  abbrev pub repeat : ℕ → ℕ → S → S
  repeat zero c s = s
  repeat (suc n) c s = repeat n c (putch c s)

  -- A call of `putch` for each character of a text.
  abbrev pub emit : List ℕ → S → S
  emit [] s = s
  emit (c ∷ t) s = emit t (putch c s)

  -- The recursion divides `num` by the base until it is below; fuel 64 serves every 64-bit number.
  -- `while (--width > 0)` makes `width - 1` rounds, if that is positive.
  unfoldable pub printnum : ℕ → ℕ → ℕ → ℤ → ℕ → S → Option S
  unfolding digit_char
  printnum zero num base width padc s = none
  printnum (suc fuel) num base width padc s =
      let more = printnum fuel (num / base) base (width -ℤ pos 1) padc s in
      let padded = repeat (pos_part (width -ℤ pos 1)) padc s in
      elim (if leb base num then more else some padded) [
        | none ↦ none
        | some s' ↦ some (putch (digit_char (num % base)) s')
      ]

  pub emit-append : (t u : List ℕ) (s : S) → emit (t ++ u) s ≡ emit u (emit t s)
  emit-append [] u s = refl
  emit-append (c ∷ t) u s = emit-append t u (putch c s)

  pub repeat-emit : (n c : ℕ) (s : S) → repeat n c s ≡ emit (replicate n c) s
  repeat-emit zero c s = refl
  repeat-emit (suc n) c s = repeat-emit n c (putch c s)

-- The character of a digit: 0 to 9 from the code 48 on, and 10 to 15 from 97 on.
abbrev pub figure : ℕ → ℕ
figure d = if ltb d 10 then d + 48 else d - 10 + 97

is_figured : ℕ → Bool
is_figured d = digit_char d == figure d

figure_table : passes is_figured 16 ≡ true
unfolding passes is_figured digit_char
figure_table = refl

digit_char-figure : (d : ℕ) → d < 16 → digit_char d ≡ figure d
unfolding is_figured
digit_char-figure d h = ground (arith, passes_at is_figured 16 d h figure_table)

-- The digits of a number in a base, the highest first.
unfoldable pub numeral : ℕ → ℕ → ℕ → List ℕ
numeral zero base n = []
numeral (suc fuel) base n =
    let front = numeral fuel base (n / base) in
    if leb base n then front ++ (figure (n % base) ∷ []) else figure n ∷ []

numeral_more :
    (fuel base n : ℕ)
    → base ≤ n
    → numeral (suc fuel) base n ≡ numeral fuel base (n / base) ++ (figure (n % base) ∷ [])
unfolding numeral
numeral_more fuel base n h = let above : leb base n ≡ true = ground arith in rw above

numeral_leaf : (fuel base n : ℕ) → n < base → numeral (suc fuel) base n ≡ figure n ∷ []
unfolding numeral
numeral_leaf fuel base n h = let above : leb base n ≡ false = ground arith in rw above

-- How many characters are missing to a width.
abbrev pub missing : ℤ → List ℕ → ℕ
missing width t = pos_part (width -ℤ pos (length t))

-- A text filled up on the left.
abbrev pub padded : ℤ → ℕ → List ℕ → List ℕ
padded width padc t = replicate (missing width t) padc ++ t

missing-snoc :
    (width : ℤ) (c : ℕ) (t : List ℕ) → missing (width -ℤ pos 1) t ≡ missing width (t ++ (c ∷ []))
unfolding ◌-ℤ◌
missing-snoc width c t = ground (arith, length-append t (c ∷ []))

padded-snoc :
    (width : ℤ) (padc c : ℕ) (t : List ℕ)
    → padded (width -ℤ pos 1) padc t ++ (c ∷ []) ≡ padded width padc (t ++ (c ∷ []))
padded-snoc width padc c t =
    let fewer : missing (width -ℤ pos 1) t ≡ missing width (t ++ (c ∷ [])) =
      missing-snoc width c t in
    append_assoc (replicate (missing (width -ℤ pos 1) t) padc) t (c ∷ [])
    ∙ ap (λ k. replicate k padc ++ (t ++ (c ∷ []))) fewer

-- A quotient by a base from two on.
div_small : (num base bound : ℕ) → 1 < base → num < 2 * bound → num / base < bound
div_small num base bound b h =
    (div-lt_iff_lt-mul {x = num} {y = bound} (omega arith)).1 (grind arith)

module _ {ℓ} {S : Type ℓ} (putch : ℕ → S → S) where
  -- The digit that the last call of `putch` prints goes behind what was printed before it.
  printnum_last :
      (width : ℤ) (padc c : ℕ) (t : List ℕ) (s : S)
      → putch c (emit putch (padded (width -ℤ pos 1) padc t) s)
        ≡ emit putch (padded width padc (t ++ (c ∷ []))) s
  printnum_last width padc c t s =
      sym (emit-append putch (padded (width -ℤ pos 1) padc t) (c ∷ []) s)
      ∙ ap (λ u. emit putch u s) (padded-snoc width padc c t)

  printnum_leaf :
      (fuel num base : ℕ) (width : ℤ) (padc : ℕ) (s : S)
      → base ≤ 16
      → num < base
      → printnum putch (suc fuel) num base width padc s
        ≡ some (emit putch (padded width padc (numeral (suc fuel) base num)) s)
  unfolding printnum
  printnum_leaf fuel num base width padc s l h =
      let above : leb base num ≡ false = ground arith in
      let here : num % base ≡ num = mod-eq_of_lt h in
      let n = pos_part (width -ℤ pos 1) in
      rw (numeral_leaf fuel base num h, above, here, printnum)
        (ap (λ u. some (putch (digit_char num) u)) (repeat-emit putch n padc s)
          ∙ ap (λ c. some (putch c (emit putch (replicate n padc) s)))
              (digit_char-figure num (omega (arith, l, h)))
          ∙ ap some (sym (emit-append putch (replicate n padc) (figure num ∷ []) s)))

  printnum_more :
      (fuel num base : ℕ) (width : ℤ) (padc : ℕ) (s s' : S)
      → base ≤ num
      → printnum putch fuel (num / base) base (width -ℤ pos 1) padc s ≡ some s'
      → printnum putch (suc fuel) num base width padc s ≡ some (putch (digit_char (num % base)) s')
  unfolding printnum
  printnum_more fuel num base width padc s s' h e =
      let above : leb base num ≡ true = ground arith in rw (above, e, printnum)

  -- For a base from two on and a number below 2 ^ fuel, `printnum` calls `putch` for the characters
  -- of the numeral, filled up with `padc` on the left to the width, and for nothing else.
  pub printnum-numeral :
      (fuel num base : ℕ) (width : ℤ) (padc : ℕ) (s : S)
      → 1 < base
      → base ≤ 16
      → num < 2 ^ suc fuel
      → printnum putch (suc fuel) num base width padc s
        ≡ some (emit putch (padded width padc (numeral (suc fuel) base num)) s)
  printnum-numeral zero num base width padc s b l n =
      printnum_leaf 0 num base width padc s l (omega arith)
  printnum-numeral (suc fuel) num base width padc s b l n = elim (dec_le base num) [
    | yes more ↦
        let front = numeral (suc fuel) base (num / base) in
        let small : num / base < 2 ^ suc fuel =
          div_small num base (2 ^ suc fuel) b (omega (arith, pow-suc 2 (suc fuel))) in
        printnum_more (suc fuel) num base width padc s
          (emit putch (padded (width -ℤ pos 1) padc front) s) more
          (printnum-numeral fuel (num / base) base (width -ℤ pos 1) padc s b l small)
        ∙ ap (λ c. some (putch c (emit putch (padded (width -ℤ pos 1) padc front) s)))
            (digit_char-figure (num % base) (le_trans (mod-lt num (omega arith)) l))
        ∙ ap some (printnum_last width padc (figure (num % base)) front s)
        ∙ ap (λ t. some (emit putch (padded width padc t) s))
            (sym (numeral_more (suc fuel) base num more))
    | no less ↦ printnum_leaf (suc fuel) num base width padc s l (omega arith)
  ]
