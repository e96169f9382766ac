-- ===== src/Mmu/Round.antt =====
-- inc/types.h: `MIN`, `MAX`, `ROUNDDOWN` and `ROUNDUP`, at 64-bit operands.
use native.Mathlib.Nat.{div-add-mod', mod-lt, mul-mod_left}
use mit_jos_cse.Prelude.{
  ℕ, ◌+◌, ◌-◌, ◌*◌, ◌/◌, ◌%◌, ◌^◌, ◌≤◌, ◌<◌, ◌≡◌, leb, if◌then◌else◌, arith, ap, ◌∙◌,
}

unfoldable pub min_of : ℕ → ℕ → ℕ
min_of a b = if leb a b then a else b

unfoldable pub max_of : ℕ → ℕ → ℕ
max_of a b = if leb b a then a else b

unfoldable pub round_down : ℕ → ℕ → ℕ
round_down a n = a - a % n

unfoldable pub round_up : ℕ → ℕ → ℕ
unfolding round_down
round_up a n = round_down ((a + n + 2 ^ 64 - 1) % 2 ^ 64) n

pub round_down-mul : (a n : ℕ) → round_down a n ≡ a / n * n
unfolding round_down
round_down-mul a n = omega (arith, div-add-mod' a n)

-- For a step that is not 0, `round_down a n` is the multiple of `n` that is at most `a`, with less
-- than `n` between the two.
pub round_down_lem :
    (a n : ℕ) → 0 < n → (round_down a n % n ≡ 0) × (round_down a n ≤ a) × (a < round_down a n + n)
round_down_lem a n h = (
  ap (λ t. t % n) (round_down-mul a n) ∙ mul-mod_left (a / n) n,
  omega (arith, round_down-mul a n, div-add-mod' a n),
  omega (arith, round_down-mul a n, div-add-mod' a n, mod-lt a h),
)

-- For a step that is not 0, and where their sum does not wrap, `round_up a n` is the multiple of `n`
-- that is at least `a`, with less than `n` between the two.
pub round_up_lem :
    (a n : ℕ)
    → 0 < n
    → a + n < 2 ^ 64
    → (round_up a n % n ≡ 0) × (a ≤ round_up a n) × (round_up a n < a + n)
unfolding round_up
round_up_lem a n h b =
    let sum : (a + n + 2 ^ 64 - 1) % 2 ^ 64 ≡ a + n - 1 = omega arith in
    let down = round_down_lem (a + n - 1) n h in
    rw (sum, round_up) (down.0, omega (arith, down.2), omega (arith, down.1))
