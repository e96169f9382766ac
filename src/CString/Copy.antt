-- ===== src/CString/Copy.antt =====
-- lib/string.c: `strcpy`, `strcat`, `strncpy` and `strlcpy`. Each returns the memory that it
-- leaves; the pointer that the C function returns is the argument `dst`, save for `strlcpy`.
use Prim.Native.Nat.{min}
use mit_jos_cse.Prelude.{
  ℕ, zero, suc, ◌+◌, ◌-◌, ◌^◌, ◌≤◌, ◌<◌, ◌≡◌, refl, sym, List, [], ◌∷◌, ◌++◌, Option, none, some,
  ◌⊎◌, arith, ◌==◌, if◌then◌else◌, length, take, Memory, store, blit, IsStr, IsStr-ext, IsStr-blit,
  IsStr-append, blit-Outside,
}
use mit_jos_cse.CString.Scan.{strlen, strlen_lem}

unfoldable pub strcpy : ℕ → Memory → ℕ → ℕ → Option Memory
strcpy zero m dst src = none
strcpy (suc fuel) m dst src =
    let rest = strcpy fuel (store m dst (m src)) (dst + 1) (src + 1) in
    if m src == 0 then some (store m dst (m src)) else rest

unfoldable pub strcat : ℕ → Memory → ℕ → ℕ → Option Memory
strcat fuel m dst src = elim (strlen fuel m dst) [
  | none ↦ none
  | some len ↦ strcpy fuel m (dst + len) src
]

-- `size - i` rounds are left. The test reads `*src` after the store.
unfoldable pub strncpy : Memory → ℕ → ℕ → ℕ → Memory
strncpy m dst src zero = m
strncpy m dst src (suc size) =
    let m' = store m dst (m src) in strncpy m' (dst + 1) (if m' src == 0 then src else src + 1) size

-- The rounds of the `while` that `--size > 0` still allows; the address where it stops.
strlcpy_from : Memory → ℕ → ℕ → ℕ → Memory × ℕ
strlcpy_from m dst src zero = (m, dst)
strlcpy_from m dst src (suc room) =
    if m src == 0 then (m, dst) else strlcpy_from (store m dst (m src)) (dst + 1) (src + 1) room

unfoldable pub strlcpy : Memory → ℕ → ℕ → ℕ → Memory × ℕ
unfolding strlcpy_from
strlcpy m dst src zero = (m, 0)
strlcpy m dst src (suc size) =
    let (m', end) = strlcpy_from m dst src size in (store m' end 0, end - dst)

-- A byte stored at `dst` leaves the rest of the source alone, if the destination is not inside it.
IsStr-store :
    (m : Memory) (dst src v : ℕ) (l : List ℕ)
    → (dst < src) ⊎ (src + length l < dst)
    → IsStr m src l
    → IsStr (store m dst v) src l
IsStr-store m dst src v l h p = IsStr-ext m (store m dst v) src l (λ a q r. ground arith) p

strcpy-blit :
    (fuel : ℕ) (m : Memory) (dst src : ℕ) (l : List ℕ)
    → (dst ≤ src) ⊎ (src + length l < dst)
    → IsStr m src l
    → length l < fuel
    → strcpy fuel m dst src ≡ some (blit m dst (l ++ 0 ∷ []))
unfolding strcpy
strcpy-blit zero m dst src l o h f = absurd (omega arith)
strcpy-blit (suc fuel) m dst src [] o h f = ground arith
strcpy-blit (suc fuel) m dst src (c ∷ l) o h f = ground (
  arith,
  strcpy-blit fuel (store m dst c) (dst + 1) (src + 1) l (omega arith)
      (IsStr-store m dst (src + 1) c l (omega arith) h.2),
)

-- If the destination does not start inside the source string, `strcpy` puts the string with its
-- terminator at `dst` and changes nothing else.
pub strcpy_lem :
    (fuel : ℕ) (m : Memory) (dst src : ℕ) (l : List ℕ)
    → (dst ≤ src) ⊎ (src + length l < dst)
    → IsStr m src l
    → length l < fuel
    → (strcpy fuel m dst src ≡ some (blit m dst (l ++ 0 ∷ [])))
      × IsStr (blit m dst (l ++ 0 ∷ [])) dst l
strcpy_lem fuel m dst src l o h f = (strcpy-blit fuel m dst src l o h f, IsStr-blit m m src dst l h)

-- If `dst` holds `k` and `src` holds `l`, and the end of `k` does not stand inside `l`, `strcat`
-- puts `l` with its terminator at the end of `k`, so that `dst` holds `k` and then `l`.
pub strcat_lem :
    (fuel : ℕ) (m : Memory) (dst src : ℕ) (k l : List ℕ)
    → (dst + length k ≤ src) ⊎ (src + length l < dst + length k)
    → IsStr m dst k
    → IsStr m src l
    → length k + length l < fuel
    → length k < 2 ^ 31
    → let m' = blit m (dst + length k) (l ++ 0 ∷ []) in
      (strcat fuel m dst src ≡ some m') × IsStr m' dst (k ++ l)
unfolding strcat
strcat_lem fuel m dst src k l o hk hl f b =
    let end = dst + length k in
    let m' = blit m end (l ++ 0 ∷ []) in
    (
      rw (strlen_lem fuel m dst k hk (omega arith) b, strcat)
          (strcpy-blit fuel m end src l o hl (omega arith)),
      IsStr-append m m' dst k l (λ a p q. sym (blit-Outside m end a (l ++ 0 ∷ []) (omega arith))) hk
          (IsStr-blit m m src end l hl),
    )

-- The first `n` bytes of a string that goes on with zeros.
abbrev pub pad : ℕ → List ℕ → List ℕ
pad zero l = []
pad (suc n) [] = 0 ∷ pad n []
pad (suc n) (c ∷ l) = c ∷ pad n l

-- If the destination does not start inside the source string, `strncpy` writes exactly `size`
-- bytes at `dst`: the string, cut at `size` or filled up with zeros.
pub strncpy_lem :
    (m : Memory) (dst src size : ℕ) (l : List ℕ)
    → (dst ≤ src) ⊎ (src + length l < dst)
    → IsStr m src l
    → strncpy m dst src size ≡ blit m dst (pad size l)
unfolding strncpy
strncpy_lem m dst src zero l o h = refl
strncpy_lem m dst src (suc size) [] o h =
    ground (arith, strncpy_lem (store m dst 0) (dst + 1) src size [])
strncpy_lem m dst src (suc size) (c ∷ l) o h = ground (
  arith,
  strncpy_lem (store m dst c) (dst + 1) (src + 1) size l (omega arith)
      (IsStr-store m dst (src + 1) c l (omega arith) h.2),
)

strlcpy_from_lem :
    (m : Memory) (dst src room : ℕ) (l : List ℕ)
    → (dst ≤ src) ⊎ (src + length l < dst)
    → IsStr m src l
    → (store (strlcpy_from m dst src room).0 (strlcpy_from m dst src room).1 0
        ≡ blit m dst (take room l ++ 0 ∷ []))
      × ((strlcpy_from m dst src room).1 ≡ dst + min (length l) room)
unfolding strlcpy_from
strlcpy_from_lem m dst src zero l o h = (refl, omega arith)
strlcpy_from_lem m dst src (suc room) [] o h = ground arith
strlcpy_from_lem m dst src (suc room) (c ∷ l) o h = ground (
  arith,
  strlcpy_from_lem (store m dst c) (dst + 1) (src + 1) room l (omega arith)
      (IsStr-store m dst (src + 1) c l (omega arith) h.2),
)

-- If the destination does not start inside the source string, `strlcpy` with a size of at least
-- one puts the first `size - 1` characters and a terminator at `dst`, and returns how many
-- characters those are; with size 0 it writes nothing and returns 0.
pub strlcpy_lem :
    (m : Memory) (dst src size : ℕ) (l : List ℕ)
    → (dst ≤ src) ⊎ (src + length l < dst)
    → IsStr m src l
    → (strlcpy m dst src (suc size) ≡ (blit m dst (take size l ++ 0 ∷ []), min (length l) size))
      × (strlcpy m dst src 0 ≡ (m, 0))
unfolding strlcpy
strlcpy_lem m dst src size l o h = ground (arith, strlcpy_from_lem m dst src size l o h)
