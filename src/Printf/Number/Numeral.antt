-- ===== src/Printf/Number/Numeral.antt =====
-- What `printnum` prints is a numeral: its digits spell the number, and none is a leading zero.
use native.Mathlib.Nat.{pow-suc, mod-lt, div-add-mod', le-div_iff_mul-le, le_trans}
use native.Mathlib.Decide.{dec_le}
use mit_jos_cse.Prelude.{
  ℕ, zero, suc, ◌+◌, ◌*◌, ◌/◌, ◌%◌, ◌^◌, ◌≤◌, ◌<◌, ◌≡◌, ◌≢◌, refl, List, [], ◌∷◌, ◌++◌, some, true,
  arith, ◌⊎◌, inl, inr, All, ℤ,
}
use mit_jos_cse.CString.Number.Laws.{is_figure, digit_value, IsDigit, value}
use mit_jos_cse.Printf.Number.{
  figure, numeral, numeral_more, numeral_leaf, div_small, printnum, emit, padded, printnum-numeral,
}

figure-Digit : (d : ℕ) → d < 16 → (is_figure (figure d) ≡ true) × (digit_value (figure d) ≡ d)
figure-Digit d h = (ground (arith, h), ground (arith, h))

digit_value-figure : (d : ℕ) → d < 16 → digit_value (figure d) ≡ d
digit_value-figure d h = (figure-Digit d h).1

IsDigit-figure : (base d : ℕ) → base ≤ 16 → d < base → IsDigit base (figure d)
IsDigit-figure base d b h =
    let (digit, same) = figure-Digit d (omega arith) in (digit, omega (arith, same))

All-snoc {ℓ} : (P : ℕ → Type ℓ) (t : List ℕ) (c : ℕ) → All P t → P c → All P (t ++ (c ∷ []))
All-snoc P [] c h p = (p, tt)
All-snoc P (x ∷ t) c h p = (h.0, All-snoc P t c h.1 p)

value-snoc :
    (base n c : ℕ) (t : List ℕ)
    → value base n (t ++ (c ∷ [])) ≡ value base n t * base + digit_value c
value-snoc base n c [] = refl
value-snoc base n c (x ∷ t) = value-snoc base (n * base + digit_value x) c t

numeral-IsDigit :
    (fuel base n : ℕ) → 1 < base → base ≤ 16 → All (IsDigit base) (numeral fuel base n)
numeral-IsDigit zero base n p b = unfold numeral in tt
numeral-IsDigit (suc fuel) base n p b = elim (dec_le base n) [
  | yes more ↦ rw (numeral_more fuel base n more) (
      All-snoc (IsDigit base) (numeral fuel base (n / base)) (figure (n % base))
        (numeral-IsDigit fuel base (n / base) p b)
        (IsDigit-figure base (n % base) b (mod-lt n (omega arith))))
  | no less ↦
      rw (numeral_leaf fuel base n (omega arith)) (IsDigit-figure base n b (omega arith), tt)
]

value_leaf : (fuel base n : ℕ) → base ≤ 16 → n < base → value base 0 (numeral (suc fuel) base n) ≡ n
value_leaf fuel base n b h =
    rw (numeral_leaf fuel base n h) (omega (arith, digit_value-figure n (omega arith)))

value-numeral :
    (fuel base n : ℕ)
    → 1 < base
    → base ≤ 16
    → n < 2 ^ suc fuel
    → value base 0 (numeral (suc fuel) base n) ≡ n
value-numeral zero base n p b h = value_leaf 0 base n b (omega arith)
value-numeral (suc fuel) base n p b h = elim (dec_le base n) [
  | yes more ↦
      let small : n / base < 2 ^ suc fuel =
        div_small n base (2 ^ suc fuel) p (omega (arith, pow-suc 2 (suc fuel))) in
      rw
        (
          numeral_more (suc fuel) base n more,
          value-snoc base 0 (figure (n % base)) (numeral (suc fuel) base (n / base)),
          value-numeral fuel base (n / base) p b small,
          digit_value-figure (n % base) (le_trans (mod-lt n (omega arith)) b),
        )
        (div-add-mod' n base)
  | no less ↦ value_leaf (suc fuel) base n b (omega arith)
]

-- The first character of a text is not the digit 0.
abbrev pub NoZero : List ℕ → Type 0
NoZero [] = ⊥
NoZero (c ∷ t) = c ≢ b'0'

NoZero-append : (t u : List ℕ) → NoZero t → NoZero (t ++ u)
NoZero-append [] u h = absurd h
NoZero-append (c ∷ t) u h = h

figure-ne-zero : (d : ℕ) → 0 < d → d < 16 → figure d ≢ b'0'
figure-ne-zero d p h e =
    let zero_value : digit_value (figure d) ≡ 0 = rw e in
    absurd (omega (arith, digit_value-figure d h))

numeral-NoZero :
    (fuel base n : ℕ)
    → 1 < base
    → base ≤ 16
    → n < 2 ^ suc fuel
    → 0 < n
    → NoZero (numeral (suc fuel) base n)
numeral-NoZero zero base n p b h pos_n =
    rw (numeral_leaf 0 base n (omega arith)) (figure-ne-zero n pos_n (omega arith))
numeral-NoZero (suc fuel) base n p b h pos_n = elim (dec_le base n) [
  | yes more ↦
      let small : n / base < 2 ^ suc fuel =
        div_small n base (2 ^ suc fuel) p (omega (arith, pow-suc 2 (suc fuel))) in
      let pos_front : 0 < n / base =
        (le-div_iff_mul-le {x = 1} {y = n} (omega arith)).1 (omega arith) in
      rw (numeral_more (suc fuel) base n more) (
        NoZero-append (numeral (suc fuel) base (n / base)) (figure (n % base) ∷ [])
          (numeral-NoZero fuel base (n / base) p b small pos_front))
  | no less ↦
      rw (numeral_leaf (suc fuel) base n (omega arith)) (figure-ne-zero n pos_n (omega arith))
]

-- For a base from 2 to 16 and a number below 2 ^ 64, `printnum` ends, and calls `putch` exactly for
-- the characters of a text filled up with `padc` on the left to the width: digits of the base that
-- spell the number, the highest first, with no leading zero unless the number is 0.
pub printnum_lem {ℓ} :
    {S : Type ℓ} (putch : ℕ → S → S) (num base : ℕ) (width : ℤ) (padc : ℕ) (s : S)
    → 1 < base
    → base ≤ 16
    → num < 2 ^ 64
    → (t : List ℕ) × (printnum putch 64 num base width padc s
        ≡ some (emit putch (padded width padc t) s))
      × (value base 0 t ≡ num)
      × All (IsDigit base) t
      × ((num ≡ 0) ⊎ NoZero t)
printnum_lem putch num base width padc s p b h = (
  numeral 64 base num,
  printnum-numeral putch 63 num base width padc s p b h,
  value-numeral 63 base num p b h,
  numeral-IsDigit 64 base num p b,
  elim (dec_le num 0) [
    | yes z ↦ inl (omega arith)
    | no nz ↦ inr (numeral-NoZero 63 base num p b h (omega arith))
  ],
)
