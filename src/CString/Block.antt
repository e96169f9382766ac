-- ===== src/CString/Block.antt =====
-- lib/string.c: `memset`, `memmove` and `memcpy`, in the version that `ASM` selects.
-- `rep stos` and `rep movs` are the processor's: a round stores, or moves, one unit of 1 or 4
-- bytes, and the addresses go up (`cld`) or down (`std`) by that unit.
use Prim.Native.Nat.{bit_and, bit_or}
use mit_jos_cse.Prelude.{
  ℕ, zero, suc, ◌+◌, ◌-◌, ◌*◌, ◌/◌, ◌%◌, ◌^◌, ◌≤◌, ◌≡◌, refl, sym, ap, ◌∙◌, ◌⊎◌, List, [], ◌∷◌,
  arith, ltb, ◌&&◌, ◌==◌, if◌then◌else◌, replicate, Memory, store, bytes, blit, length-bytes,
  bytes-blit-Outside, blit-append, bytes-append, blit_comm, bit_and_mask, bit_or_shift, subst,
}

-- `rep stosb`: store the low byte of `%al`, `n` times.
rep_stosb : Memory → ℕ → ℕ → ℕ → Memory
rep_stosb m d a zero = m
rep_stosb m d a (suc n) = rep_stosb (store m d (a % 2 ^ 8)) (d + 1) a n

-- The bytes of a 32-bit word, the lowest first.
abbrev word_bytes : ℕ → List ℕ
word_bytes w = w % 2 ^ 8 ∷ w / 2 ^ 8 % 2 ^ 8 ∷ w / 2 ^ 16 % 2 ^ 8 ∷ w / 2 ^ 24 % 2 ^ 8 ∷ []

-- `rep stosl`: store the 32 bits of `%eax`, `n` times.
rep_stosl : Memory → ℕ → ℕ → ℕ → Memory
rep_stosl m d a zero = m
rep_stosl m d a (suc n) = rep_stosl (blit m d (word_bytes a)) (d + 4) a n

-- `c &= 0xFF; c = (c<<24)|(c<<16)|(c<<8)|c`, as 32 bits
spread : ℕ → ℕ
spread c =
    let b = bit_and c 0xff in
    bit_or (bit_or (bit_or (b * 2 ^ 24 % 2 ^ 32) (b * 2 ^ 16)) (b * 2 ^ 8)) b

unfoldable pub memset : Memory → ℕ → ℕ → ℕ → Memory
unfolding rep_stosb rep_stosl spread
memset m v c n =
    if n == 0
    then m
    else if v % 4 == 0 && n % 4 == 0
    then rep_stosl m v (spread c) (n / 4)
    else rep_stosb m v c n

-- `cld; rep movs`: `n` units of `w` bytes, each read whole and then written.
rep_movs_up : ℕ → Memory → ℕ → ℕ → ℕ → Memory
rep_movs_up w m d s zero = m
rep_movs_up w m d s (suc n) = rep_movs_up w (blit m d (bytes m s w)) (d + w) (s + w) n

-- `std; rep movs` with `%rdi = d - w`, `%rsi = s - w`: the units below `d` and `s`, going down.
rep_movs_down : ℕ → Memory → ℕ → ℕ → ℕ → Memory
rep_movs_down w m d s zero = m
rep_movs_down w m d s (suc n) =
    rep_movs_down w (blit m (d - w) (bytes m (s - w) w)) (d - w) (s - w) n

unfoldable pub memmove : Memory → ℕ → ℕ → ℕ → Memory
unfolding rep_movs_up rep_movs_down
memmove m dst src n =
    if ltb src dst && ltb dst (src + n)
    then (let s = src + n in
        let d = dst + n in
        if s % 4 == 0 && d % 4 == 0 && n % 4 == 0
        then rep_movs_down 4 m d s (n / 4)
        else rep_movs_down 1 m d s n)
    else if src % 4 == 0 && dst % 4 == 0 && n % 4 == 0
    then rep_movs_up 4 m dst src (n / 4)
    else rep_movs_up 1 m dst src n

unfoldable pub memcpy : Memory → ℕ → ℕ → ℕ → Memory
unfolding memmove
memcpy m dst src n = memmove m dst src n

-- Two blocks that follow one another are one.
blit_two :
    (m : Memory) (d s n k : ℕ)
    → blit (blit m d (bytes m s n)) (d + n) (bytes m (s + n) k) ≡ blit m d (bytes m s (n + k))
blit_two m d s n k =
    ap (λ e. blit (blit m d (bytes m s n)) (d + e) (bytes m (s + n) k)) (sym (length-bytes m s n))
    ∙ sym (blit-append m d (bytes m s n) (bytes m (s + n) k))
    ∙ ap (blit m d) (sym (bytes-append m s n k))

suc-times : (n w : ℕ) → w + n * w ≡ suc n * w
suc-times n w = omega arith

times-suc : (n w : ℕ) → n * w + w ≡ suc n * w
times-suc n w = omega arith

rep_movs_up-blit :
    (w : ℕ) (m : Memory) (d s n : ℕ)
    → (d ≤ s) ⊎ (s + n * w ≤ d)
    → rep_movs_up w m d s n ≡ blit m d (bytes m s (n * w))
unfolding rep_movs_up
rep_movs_up-blit w m d s zero o = let none : 0 * w ≡ 0 = omega arith in rw none
rep_movs_up-blit w m d s (suc n) o =
    rep_movs_up-blit w (blit m d (bytes m s w)) (d + w) (s + w) n (omega arith)
    ∙ ap (blit (blit m d (bytes m s w)) (d + w))
        (bytes-blit-Outside m (s + w) (n * w) d (bytes m s w) (omega (arith, length-bytes m s w)))
    ∙ blit_two m d s w (n * w)
    ∙ ap (λ e. blit m d (bytes m s e)) (suc-times n w)

rep_movs_down-blit :
    (w : ℕ) (m : Memory) (d s n : ℕ)
    → s ≤ d
    → rep_movs_down w m (d + n * w) (s + n * w) n ≡ blit m d (bytes m s (n * w))
unfolding rep_movs_down
rep_movs_down-blit w m d s zero o = let none : 0 * w ≡ 0 = omega arith in rw none
rep_movs_down-blit w m d s (suc n) o =
    let below_d : d + suc n * w - w ≡ d + n * w = omega arith in
    let below_s : s + suc n * w - w ≡ s + n * w = omega arith in
    let high = bytes m (s + n * w) w in
    let m' = blit m (d + n * w) high in
    rw (below_d, below_s)
      (rep_movs_down-blit w m' d s n o
        ∙ ap (blit m' d) (bytes-blit-Outside m s (n * w) (d + n * w) high (omega arith))
        ∙ blit_comm m (d + n * w) d high (bytes m s (n * w))
            (omega (arith, length-bytes m s (n * w)))
        ∙ blit_two m d s (n * w) w
        ∙ ap (λ e. blit m d (bytes m s e)) (times-suc n w))

up_units :
    (w k n : ℕ) (m : Memory) (d s : ℕ)
    → k * w ≡ n
    → (d ≤ s) ⊎ (s + n ≤ d)
    → rep_movs_up w m d s k ≡ blit m d (bytes m s n)
up_units w k n m d s e o =
    rep_movs_up-blit w m d s k (omega arith) ∙ ap (λ x. blit m d (bytes m s x)) e

down_units :
    (w k n : ℕ) (m : Memory) (d s : ℕ)
    → k * w ≡ n
    → s ≤ d
    → rep_movs_down w m (d + n) (s + n) k ≡ blit m d (bytes m s n)
down_units w k n m d s e o =
    subst (λ x. rep_movs_down w m (d + x) (s + x) k ≡ blit m d (bytes m s x)) e
      (rep_movs_down-blit w m d s k o)

-- `memmove` puts the bytes that stood at `src` at `dst`, also where the two blocks overlap, and
-- changes nothing else.
pub memmove_lem : (m : Memory) (dst src n : ℕ) → memmove m dst src n ≡ blit m dst (bytes m src n)
unfolding memmove
memmove_lem m dst src n = ground (
  arith,
  down_units 4 (n / 4) n m dst src,
  down_units 1 n n m dst src,
  up_units 4 (n / 4) n m dst src,
  up_units 1 n n m dst src,
)

rep_stosb-blit : (m : Memory) (d a n : ℕ) → rep_stosb m d a n ≡ blit m d (replicate n (a % 2 ^ 8))
unfolding rep_stosb
rep_stosb-blit m d a zero = refl
rep_stosb-blit m d a (suc n) = rep_stosb-blit (store m d (a % 2 ^ 8)) (d + 1) a n

spread_sum : (c : ℕ) → spread c ≡ c % 2 ^ 8 * (2 ^ 24 + 2 ^ 16 + 2 ^ 8 + 1)
unfolding spread
spread_sum c =
    let b = c % 2 ^ 8 in
    ground (
      arith,
      bit_and_mask 8 c,
      bit_or_shift 24 b (b * 2 ^ 16),
      bit_or_shift 16 (b * 2 ^ 8 + b) (b * 2 ^ 8),
      bit_or_shift 8 (b * 2 ^ 16 + b * 2 ^ 8 + b) b,
    )

-- Every byte of the word that `memset` stores is the low byte of `c`.
word_bytes-spread : (c : ℕ) → word_bytes (spread c) ≡ replicate 4 (c % 2 ^ 8)
word_bytes-spread c = ground (arith, spread_sum c)

four_more :
    (m : Memory) (d n b : ℕ)
    → blit (blit m d (replicate 4 b)) (d + 4) (replicate (4 * n) b)
      ≡ blit m d (replicate (4 * suc n) b)
four_more m d n b =
    let count : 4 * suc n ≡ suc (suc (suc (suc (4 * n)))) = omega arith in
    let next : d + 4 ≡ d + 1 + 1 + 1 + 1 = omega arith in rw (count, next)

rep_stosl-blit :
    (m : Memory) (d c n : ℕ) → rep_stosl m d (spread c) n ≡ blit m d (replicate (4 * n) (c % 2 ^ 8))
unfolding rep_stosl
rep_stosl-blit m d c zero = refl
rep_stosl-blit m d c (suc n) =
    let b = c % 2 ^ 8 in
    rep_stosl-blit (blit m d (word_bytes (spread c))) (d + 4) c n
    ∙ ap (λ e. blit (blit m d e) (d + 4) (replicate (4 * n) b)) (word_bytes-spread c)
    ∙ four_more m d n b

-- `memset` puts `n` copies of the low byte of `c` at `v`, by words where address and count are
-- multiples of 4 and by bytes elsewhere, and changes nothing else.
pub memset_lem : (m : Memory) (v c n : ℕ) → memset m v c n ≡ blit m v (replicate n (c % 2 ^ 8))
unfolding memset
memset_lem m v c n =
    let words : n % 4 ≡ 0 → 4 * (n / 4) ≡ n = λ e. omega arith in
    ground (
      arith,
      words,
      rep_stosl-blit m v c (n / 4),
      rep_stosb-blit m v c n,
      ap (λ e. blit m v (replicate e (c % 2 ^ 8))) {x = 4 * (n / 4)} {y = n},
    )
