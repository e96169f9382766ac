-- ===== src/CString/Scan.antt =====
-- lib/string.c: `strlen`, `strnlen`, `strchr`, `strfind` and `memfind`.
-- A loop that runs to a terminator takes fuel and returns `none` when it runs out; a loop with a
-- count recurs on the count. An `int` counter is its bit pattern below 2 ^ 32.
use Prim.Native.Nat.{min}
use mit_jos_cse.Prelude.{
  ℕ, zero, suc, ◌+◌, ◌%◌, ◌^◌, ◌≤◌, ◌<◌, ◌≡◌, ◌∙◌, List, [], ◌∷◌, Option, none, some, arith, Bool,
  true, false, ◌==◌, if◌then◌else◌, length, Memory, bytes, IsStr,
}

strlen_from : ℕ → Memory → ℕ → ℕ → Option ℕ
strlen_from zero m s n = none
strlen_from (suc fuel) m s n =
    let rest = strlen_from fuel m (s + 1) ((n + 1) % 2 ^ 32) in if m s == 0 then some n else rest

unfoldable pub strlen : ℕ → Memory → ℕ → Option ℕ
unfolding strlen_from
strlen fuel m s = strlen_from fuel m s 0

strnlen_from : Memory → ℕ → ℕ → ℕ → ℕ
strnlen_from m s zero n = n
strnlen_from m s (suc size) n =
    let rest = strnlen_from m (s + 1) size ((n + 1) % 2 ^ 32) in if m s == 0 then n else rest

unfoldable pub strnlen : Memory → ℕ → ℕ → ℕ
unfolding strnlen_from
strnlen m s size = strnlen_from m s size 0

-- The null pointer is address 0; the inner option is the pointer that may be null.
unfoldable pub strchr : ℕ → Memory → ℕ → ℕ → Option (Option ℕ)
strchr zero m s c = none
strchr (suc fuel) m s c =
    let rest = strchr fuel m (s + 1) c in
    if m s == 0 then some none else if m s == c then some (some s) else rest

unfoldable pub strfind : ℕ → Memory → ℕ → ℕ → Option ℕ
strfind zero m s c = none
strfind (suc fuel) m s c =
    let rest = strfind fuel m (s + 1) c in
    if m s == 0 then some s else if m s == c then some s else rest

-- `n` bytes are left before `ends`; `c` is cast to `unsigned char`.
unfoldable pub memfind : Memory → ℕ → ℕ → ℕ → ℕ
memfind m s c zero = s
memfind m s c (suc n) = let rest = memfind m (s + 1) c n in if m s == c % 2 ^ 8 then s else rest

strlen_from_lem :
    (fuel : ℕ) (m : Memory) (s n : ℕ) (l : List ℕ)
    → IsStr m s l
    → length l < fuel
    → n + length l < 2 ^ 31
    → strlen_from fuel m s n ≡ some (n + length l)
unfolding strlen_from
strlen_from_lem zero m s n l h f b = absurd (omega arith)
strlen_from_lem (suc fuel) m s n [] h f b = ground arith
strlen_from_lem (suc fuel) m s n (c ∷ l) h f b =
    ground (arith, strlen_from_lem fuel m (s + 1) ((n + 1) % 2 ^ 32) l h.2)

-- On a C string shorter than 2 ^ 31, with fuel for each character and the terminator, `strlen`
-- returns the number of its characters.
pub strlen_lem :
    (fuel : ℕ) (m : Memory) (s : ℕ) (l : List ℕ)
    → IsStr m s l
    → length l < fuel
    → length l < 2 ^ 31
    → strlen fuel m s ≡ some (length l)
unfolding strlen
strlen_lem fuel m s l h f b = ground (arith, strlen_from_lem fuel m s 0 l h f)

strnlen_from_lem :
    (m : Memory) (s size n : ℕ) (l : List ℕ)
    → IsStr m s l
    → n + size < 2 ^ 31
    → strnlen_from m s size n ≡ n + min (length l) size
unfolding strnlen_from
strnlen_from_lem m s zero n l h b = omega arith
strnlen_from_lem m s (suc size) n [] h b = ground arith
strnlen_from_lem m s (suc size) n (c ∷ l) h b =
    ground (arith, strnlen_from_lem m (s + 1) size ((n + 1) % 2 ^ 32) l h.2)

-- `strnlen` returns the length of the string or the limit, whichever is smaller.
pub strnlen_lem :
    (m : Memory) (s size : ℕ) (l : List ℕ)
    → IsStr m s l
    → size < 2 ^ 31
    → strnlen m s size ≡ min (length l) size
unfolding strnlen
strnlen_lem m s size l h b = ground (arith, strnlen_from_lem m s size 0 l h)

strnlen_from-short :
    (m : Memory) (s size n : ℕ) (l : List ℕ)
    → IsStr m s l
    → length l ≤ size
    → n + length l < 2 ^ 31
    → strnlen_from m s size n ≡ n + length l
unfolding strnlen_from
strnlen_from-short m s zero n [] h f b = omega arith
strnlen_from-short m s zero n (c ∷ l) h f b = absurd (omega arith)
strnlen_from-short m s (suc size) n [] h f b = ground arith
strnlen_from-short m s (suc size) n (c ∷ l) h f b =
    ground (arith, strnlen_from-short m (s + 1) size ((n + 1) % 2 ^ 32) l h.2)

-- A limit that the string does not reach does not count, however large it is.
pub strnlen-short :
    (m : Memory) (s size : ℕ) (l : List ℕ)
    → IsStr m s l
    → length l ≤ size
    → length l < 2 ^ 31
    → strnlen m s size ≡ length l
unfolding strnlen
strnlen-short m s size l h f b = strnlen_from-short m s size 0 l h f (omega arith) ∙ omega arith

-- The index of the first `c` in a list, or its length.
abbrev pub find_index : ℕ → List ℕ → ℕ
find_index c [] = 0
find_index c (x ∷ l) = if x == c then 0 else suc (find_index c l)

abbrev pub has : ℕ → List ℕ → Bool
has c [] = false
has c (x ∷ l) = if x == c then true else has c l

-- On a C string, `strchr` returns the address of the first occurrence of `c`, or the null pointer
-- if there is none, and `strfind` returns that address or the address of the terminator.
pub strchr-strfind :
    (fuel : ℕ) (m : Memory) (s c : ℕ) (l : List ℕ)
    → IsStr m s l
    → length l < fuel
    → (strchr fuel m s c ≡ some (if has c l then some (s + find_index c l) else none))
      × (strfind fuel m s c ≡ some (s + find_index c l))
unfolding strchr strfind
strchr-strfind zero m s c l h f = absurd (omega arith)
strchr-strfind (suc fuel) m s c [] h f = ground arith
strchr-strfind (suc fuel) m s c (x ∷ l) h f = ground (arith, strchr-strfind fuel m (s + 1) c l h.2)

-- `memfind` returns the address of the first byte of the block that equals `c` as an
-- `unsigned char`, or the address behind the block.
pub memfind_lem :
    (m : Memory) (s c n : ℕ) → memfind m s c n ≡ s + find_index (c % 2 ^ 8) (bytes m s n)
unfolding memfind
memfind_lem m s c zero = omega arith
memfind_lem m s c (suc n) = ground (arith, memfind_lem m (s + 1) c n)
