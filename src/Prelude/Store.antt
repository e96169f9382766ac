-- ===== src/Prelude/Store.antt =====
-- Byte memory as a function of the address, and blocks of bytes in it.
-- An address is a number: a block never runs over the end of the address space.
use Prim.Native.Nat.{ℕ, zero, suc, ◌+◌, ◌≤◌, ◌<◌}
use mathlib.Core.Path.{◌≡◌, refl, sym, ap, ap₂, fun_ext, subst, ◌∙◌}
use mathlib.Core.Logic.{◌≢◌, ◌⊎◌}
use mathlib.Core.List.{List, [], ◌∷◌, ◌++◌}
use native.Mathlib.Nat.{add-zero, zero-add}
use native.Mathlib.Omega.{arith}
use mit_jos_cse.Prelude.Tests.{◌==◌, if◌then◌else◌}
use mit_jos_cse.Prelude.Lists.{length}

abbrev pub Memory : Type 0
Memory = ℕ → ℕ

-- `*a = v`, for a byte `v`
abbrev pub store : Memory → ℕ → ℕ → Memory
store m a v b = if b == a then v else m b

-- the `n` bytes from address `s` on
abbrev pub bytes : Memory → ℕ → ℕ → List ℕ
bytes m s zero = []
bytes m s (suc n) = m s ∷ bytes m (s + 1) n

-- the memory with the bytes of a list put at `d`
abbrev pub blit : Memory → ℕ → List ℕ → Memory
blit m d [] = m
blit m d (c ∷ l) = blit (store m d c) (d + 1) l

-- At `s` stands a C string whose characters are the list's.
abbrev pub IsStr : Memory → ℕ → List ℕ → Type 0
IsStr m s [] = m s ≡ 0
IsStr m s (c ∷ l) = (m s ≡ c) × (c ≢ 0) × IsStr m (s + 1) l

-- The address lies outside the `n` bytes from `d` on.
abbrev pub Outside : ℕ → ℕ → ℕ → Type 0
Outside d n a = (a < d) ⊎ (d + n ≤ a)

pub store_comm :
    (m : Memory) (a b v w : ℕ) → a ≢ b → store (store m a v) b w ≡ store (store m b w) a v
store_comm m a b v w h = fun_ext λ x. ground arith

-- Outside the block nothing changes.
pub blit-Outside : (m : Memory) (d a : ℕ) (l : List ℕ) → Outside d (length l) a → blit m d l a ≡ m a
blit-Outside m d a [] h = refl
blit-Outside m d a (c ∷ l) h = ground (arith, blit-Outside (store m d c) (d + 1) a l)

-- Inside it stand the list's bytes.
pub bytes-blit : (m : Memory) (d : ℕ) (l : List ℕ) → bytes (blit m d l) d (length l) ≡ l
bytes-blit m d [] = refl
bytes-blit m d (c ∷ l) =
    ap₂ ◌∷◌ (ground (arith, blit-Outside (store m d c) (d + 1) d l))
      (bytes-blit (store m d c) (d + 1) l)

pub length-bytes : (m : Memory) (s n : ℕ) → length (bytes m s n) ≡ n
length-bytes m s zero = refl
length-bytes m s (suc n) = ap suc (length-bytes m (s + 1) n)

-- Two memories that agree on a block hold the same bytes there.
pub bytes_ext :
    (m m' : Memory) (s n : ℕ)
    → ((a : ℕ) → s ≤ a → a < s + n → m a ≡ m' a)
    → bytes m s n ≡ bytes m' s n
bytes_ext m m' s zero h = refl
bytes_ext m m' s (suc n) h =
    ap₂ ◌∷◌ (h s (omega arith) (omega arith))
      (bytes_ext m m' (s + 1) n (λ a p q. h a (omega arith) (omega arith)))

pub bytes-blit-Outside :
    (m : Memory) (s n d : ℕ) (l : List ℕ)
    → (s + n ≤ d) ⊎ (d + length l ≤ s)
    → bytes (blit m d l) s n ≡ bytes m s n
bytes-blit-Outside m s n d l h =
    bytes_ext (blit m d l) m s n (λ a p q. blit-Outside m d a l (omega arith))

pub blit-append :
    (m : Memory) (d : ℕ) (l k : List ℕ) → blit m d (l ++ k) ≡ blit (blit m d l) (d + length l) k
blit-append m d [] k = ap (λ e. blit m e k) (omega arith)
blit-append m d (c ∷ l) k =
    blit-append (store m d c) (d + 1) l k
    ∙ ap (λ e. blit (blit (store m d c) (d + 1) l) e k) (omega arith)

pub bytes-append : (m : Memory) (s n k : ℕ) → bytes m s (n + k) ≡ bytes m s n ++ bytes m (s + n) k
bytes-append m s zero k = ap₂ (bytes m) (sym (add-zero s)) (zero-add k)
bytes-append m s (suc n) k =
    let shift : s + 1 + n ≡ s + suc n = omega arith in
    let more : suc n + k ≡ suc (n + k) = omega arith in
    ap (bytes m s) more
    ∙ ap (λ e. m s ∷ e) (bytes-append m (s + 1) n k)
    ∙ ap (λ e. m s ∷ (bytes m (s + 1) n ++ bytes m e k)) shift

pub blit-store :
    (m : Memory) (a v d : ℕ) (l : List ℕ)
    → Outside d (length l) a
    → blit (store m a v) d l ≡ store (blit m d l) a v
blit-store m a v d [] h = refl
blit-store m a v d (c ∷ l) h =
    ap (λ e. blit e (d + 1) l) (store_comm m a d v c (omega arith))
    ∙ blit-store (store m d c) a v (d + 1) l (omega arith)

-- Blocks that do not meet may be put in either order.
pub blit_comm :
    (m : Memory) (d e : ℕ) (l k : List ℕ)
    → (d + length l ≤ e) ⊎ (e + length k ≤ d)
    → blit (blit m d l) e k ≡ blit (blit m e k) d l
blit_comm m d e [] k h = refl
blit_comm m d e (c ∷ l) k h =
    blit_comm (store m d c) (d + 1) e l k (omega arith)
    ∙ ap (λ x. blit x (d + 1) l) (blit-store m d c e k (omega arith))

pub IsStr-bytes : (m : Memory) (s : ℕ) (l : List ℕ) → IsStr m s l → bytes m s (length l) ≡ l
IsStr-bytes m s [] h = refl
IsStr-bytes m s (c ∷ l) h = ap₂ ◌∷◌ h.0 (IsStr-bytes m (s + 1) l h.2)

pub IsStr-end : (m : Memory) (s : ℕ) (l : List ℕ) → IsStr m s l → m (s + length l) ≡ 0
IsStr-end m s [] h = ap m (omega arith) ∙ h
IsStr-end m s (c ∷ l) h = ap m (omega arith) ∙ IsStr-end m (s + 1) l h.2

-- A string is its bytes and the terminator, none of the bytes being 0.
pub IsStr-ext :
    (m m' : Memory) (s : ℕ) (l : List ℕ)
    → ((a : ℕ) → s ≤ a → a < s + suc (length l) → m a ≡ m' a)
    → IsStr m s l
    → IsStr m' s l
IsStr-ext m m' s [] h p = sym (h s (omega arith) (omega arith)) ∙ p
IsStr-ext m m' s (c ∷ l) h p = (
  sym (h s (omega arith) (omega arith)) ∙ p.0,
  p.1,
  IsStr-ext m m' (s + 1) l (λ a q r. h a (omega arith) (omega arith)) p.2,
)

pub IsStr-blit :
    (m k : Memory) (s d : ℕ) (l : List ℕ) → IsStr m s l → IsStr (blit k d (l ++ 0 ∷ [])) d l
IsStr-blit m k s d [] h = ground arith
IsStr-blit m k s d (c ∷ l) h = (
  ground (arith, blit-Outside (store k d c) (d + 1) d (l ++ 0 ∷ [])),
  h.1,
  IsStr-blit m (store k d c) (s + 1) (d + 1) l h.2,
)

pub IsStr-append :
    (m m' : Memory) (s : ℕ) (k l : List ℕ)
    → ((a : ℕ) → s ≤ a → a < s + length k → m a ≡ m' a)
    → IsStr m s k
    → IsStr m' (s + length k) l
    → IsStr m' s (k ++ l)
IsStr-append m m' s [] l h p q = subst (λ x. IsStr m' x l) (add-zero s) q
IsStr-append m m' s (c ∷ k) l h p q = (
  sym (h s (omega arith) (omega arith)) ∙ p.0,
  p.1,
  IsStr-append m m' (s + 1) k l (λ a x y. h a (omega arith) (omega arith)) p.2
      (subst (λ x. IsStr m' x l) (omega arith) q),
)

-- Behind the first part of a string stands the rest of it.
pub IsStr-rest : (m : Memory) (s : ℕ) (k l : List ℕ) → IsStr m s (k ++ l) → IsStr m (s + length k) l
IsStr-rest m s [] l h = subst (λ x. IsStr m x l) (sym (add-zero s)) h
IsStr-rest m s (c ∷ k) l h = subst (λ x. IsStr m x l) (omega arith) (IsStr-rest m (s + 1) k l h.2)
