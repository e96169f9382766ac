-- ===== src/Prelude/Bits.antt =====
-- `&` with a low mask and `|` of fields that do not meet, as arithmetic.
-- The native operations stand for a recursion on binary digits; its fuel is dropped first.
use Prim.Native.Nat.{
  ℕ, zero, suc, ◌+◌, ◌-◌, ◌*◌, ◌/◌, ◌%◌, ◌^◌, ◌≤◌, ◌<◌, min, max, digits, bit_and, bit_or,
  bit_and-bitwise, bit_or-bitwise,
}
use mathlib.Core.Path.{◌≡◌, refl, sym, ap, ◌∙◌}
use mathlib.Core.Bool.{Bool, true, ◌&&◌}
use native.Mathlib.Nat.{pow-suc, one-le-pow, div-add-mod', div-div-eq-div-mul}
use native.Mathlib.Omega.{arith}

-- A table of `n` values: the test passes at each of them.
unfoldable pub passes : (ℕ → Bool) → ℕ → Bool
passes test zero = true
passes test (suc k) = test k && passes test k

pub passes_at : (test : ℕ → Bool) (k v : ℕ) → v < k → passes test k ≡ true → test v ≡ true
unfolding passes
passes_at test zero v small table = absurd (omega arith)
passes_at test (suc k) v small table = ground (arith, passes_at test k v)

-- Fuel past the first number makes no difference.
digits_enough :
    (z : ℕ → ℕ) (f : ℕ → ℕ → ℕ) (k j x y : ℕ) → x ≤ k → x ≤ j → digits z f k x y ≡ digits z f j x y
digits_enough z f zero zero x y hk hj = refl
digits_enough z f k j zero y hk hj = both k j
  where
    both : (k j : ℕ) → digits z f k 0 y ≡ digits z f j 0 y
    both zero zero = refl
    both zero (suc j) = refl
    both (suc k) zero = refl
    both (suc k) (suc j) = refl
digits_enough z f zero (suc j) (suc x) y hk hj = absurd (omega arith)
digits_enough z f (suc k) zero (suc x) y hk hj = absurd (omega arith)
digits_enough z f (suc k) (suc j) (suc x) y hk hj =
    ap (λ t. t * 2 + f (suc x % 2) (y % 2))
      (digits_enough z f k j (suc x / 2) (y / 2) (omega arith) (omega arith))

-- The lowest digit of a conjunction, and of a disjunction.
pub bit_and_digit : (x y : ℕ) → bit_and x y ≡ bit_and (x / 2) (y / 2) * 2 + min (x % 2) (y % 2)
bit_and_digit zero y = omega (arith, bit_and-bitwise 0 y, bit_and-bitwise 0 (y / 2))
bit_and_digit (suc x) y = omega (
  arith,
  bit_and-bitwise (suc x) y,
  bit_and-bitwise (suc x / 2) (y / 2),
  digits_enough (λ _. 0) min x (suc x / 2) (suc x / 2) (y / 2) (omega arith) (omega arith),
)

pub bit_or_digit : (x y : ℕ) → bit_or x y ≡ bit_or (x / 2) (y / 2) * 2 + max (x % 2) (y % 2)
bit_or_digit zero y = omega (arith, bit_or-bitwise 0 y, bit_or-bitwise 0 (y / 2))
bit_or_digit (suc x) y = omega (
  arith,
  bit_or-bitwise (suc x) y,
  bit_or-bitwise (suc x / 2) (y / 2),
  digits_enough (λ t. t) max x (suc x / 2) (suc x / 2) (y / 2) (omega arith) (omega arith),
)

zeros : (k x : ℕ) → x ≤ k → (bit_and x 0 ≡ 0) × (bit_or x 0 ≡ x)
zeros k zero h = (refl, refl)
zeros zero (suc x) h = absurd (omega arith)
zeros (suc k) (suc x) h =
    omega
      (arith, bit_and_digit (suc x) 0, bit_or_digit (suc x) 0, zeros k (suc x / 2) (omega arith))

pub bit_and-zero : (x : ℕ) → bit_and x 0 ≡ 0
bit_and-zero x = (zeros x x (omega arith)).0

pub bit_or-zero : (x : ℕ) → bit_or x 0 ≡ x
bit_or-zero x = (zeros x x (omega arith)).1

twice_pow : (k x : ℕ) → x * 2 ^ suc k ≡ 2 * (x * 2 ^ k)
twice_pow k x = omega (arith, ap (λ (t : ℕ). x * t) (pow-suc 2 k))

mask_sum : (k hi lo : ℕ) → lo < 2 ^ k → bit_and (hi * 2 ^ k + lo) (2 ^ k - 1) ≡ lo
mask_sum zero hi lo h = omega (arith, bit_and-zero (hi * 2 ^ 0 + lo))
mask_sum (suc k) hi lo h = ground (
  arith,
  pow-suc 2 k,
  one-le-pow k 2,
  twice_pow k hi,
  bit_and_digit (hi * 2 ^ suc k + lo) (2 ^ suc k - 1),
  mask_sum k hi (lo / 2),
)

-- A mask of `k` ones keeps the remainder.
pub bit_and_mask : (k x : ℕ) → bit_and x (2 ^ k - 1) ≡ x % 2 ^ k
bit_and_mask k x =
    ground (arith, one-le-pow k 2, mask_sum k (x / 2 ^ k) (x % 2 ^ k), div-add-mod' x (2 ^ k))

-- `(hi << k) | lo` is a sum, if `lo` has `k` bits.
pub bit_or_shift : (k hi lo : ℕ) → lo < 2 ^ k → bit_or (hi * 2 ^ k) lo ≡ hi * 2 ^ k + lo
bit_or_shift zero hi lo h = ground (arith, bit_or-zero hi)
bit_or_shift (suc k) hi lo h = ground (
  arith,
  pow-suc 2 k,
  twice_pow k hi,
  bit_or_digit (hi * 2 ^ suc k) lo,
  bit_or_shift k hi (lo / 2),
)

-- `x | y` is a sum, if `x` has nothing in the `k` lowest bits and `y` nothing above them.
pub bit_or_add : (k x y : ℕ) → x % 2 ^ k ≡ 0 → y < 2 ^ k → bit_or x y ≡ x + y
bit_or_add k x y h b =
    let whole : x / 2 ^ k * 2 ^ k ≡ x = omega (arith, h, div-add-mod' x (2 ^ k)) in
    ap (λ t. bit_or t y) (sym whole) ∙ bit_or_shift k (x / 2 ^ k) y b ∙ ap (λ t. t + y) whole

pow-suc' : (k : ℕ) → 2 ^ suc k ≡ 2 * 2 ^ k
pow-suc' k = omega (arith, pow-suc 2 k)

-- A mask of `j` ones above `k` zeros keeps the field and clears what lies below it.
pub bit_and_field : (k j x : ℕ) → bit_and x ((2 ^ j - 1) * 2 ^ k) ≡ x / 2 ^ k % 2 ^ j * 2 ^ k
bit_and_field zero j x = ground (arith, bit_and_mask j x)
bit_and_field (suc k) j x =
    let field = x / 2 / 2 ^ k % 2 ^ j in
    let low : bit_and x ((2 ^ j - 1) * 2 ^ suc k)
        ≡ bit_and (x / 2) ((2 ^ j - 1) * 2 ^ suc k / 2) * 2
          + min (x % 2) ((2 ^ j - 1) * 2 ^ suc k % 2) =
      bit_and_digit x ((2 ^ j - 1) * 2 ^ suc k) in
    let even : (2 ^ j - 1) * 2 ^ suc k ≡ 2 * ((2 ^ j - 1) * 2 ^ k) = twice_pow k (2 ^ j - 1) in
    let half : (2 ^ j - 1) * 2 ^ suc k / 2 ≡ (2 ^ j - 1) * 2 ^ k = omega (arith, even) in
    let rest : bit_and (x / 2) ((2 ^ j - 1) * 2 ^ suc k / 2) ≡ field * 2 ^ k =
      ap (bit_and (x / 2)) half ∙ bit_and_field k j (x / 2) in
    let shifted : x / 2 ^ suc k ≡ x / 2 / 2 ^ k =
      ap (λ t. x / t) (pow-suc' k) ∙ sym (div-div-eq-div-mul x 2 (2 ^ k)) in
    rw shifted (omega (arith, low, rest, even, twice_pow k field))
