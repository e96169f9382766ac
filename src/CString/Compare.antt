-- ===== src/CString/Compare.antt =====
-- lib/string.c: `strcmp`, `strncmp` and `memcmp`.
use mit_jos_cse.Prelude.{
  ℕ, zero, suc, ◌+◌, ◌<◌, ◌≡◌, ◌≢◌, ◌&&◌, refl, ◌↔◌, ◌⊎◌, List, [], ◌∷◌, Option, none, some, not,
  arith, ◌==◌, if◌then◌else◌, length, take, Memory, bytes, IsStr, ℤ, pos, negsuc, sub_ℕ,
}

-- The result is the difference of two bytes, taken as an `int`.
unfoldable pub strcmp : ℕ → Memory → ℕ → ℕ → Option ℤ
strcmp zero m p q = none
strcmp (suc fuel) m p q =
    let rest = strcmp fuel m (p + 1) (q + 1) in
    if not (m p == 0) && m p == m q then rest else some (sub_ℕ (m p) (m q))

unfoldable pub strncmp : Memory → ℕ → ℕ → ℕ → ℤ
strncmp m p q zero = pos 0
strncmp m p q (suc n) =
    let rest = strncmp m (p + 1) (q + 1) n in
    if not (m p == 0) && m p == m q then rest else sub_ℕ (m p) (m q)

unfoldable pub memcmp : Memory → ℕ → ℕ → ℕ → ℤ
memcmp m s1 s2 zero = pos 0
memcmp m s1 s2 (suc n) = if m s1 == m s2 then memcmp m (s1 + 1) (s2 + 1) n else sub_ℕ (m s1) (m s2)

-- The difference at the first place where two lists differ, an end counting as 0.
abbrev pub first_diff : List ℕ → List ℕ → ℤ
first_diff [] [] = pos 0
first_diff [] (y ∷ k) = sub_ℕ 0 y
first_diff (x ∷ l) [] = sub_ℕ x 0
first_diff (x ∷ l) (y ∷ k) = if x == y then first_diff l k else sub_ℕ x y

-- The lexicographic order of lists.
abbrev pub LexLt : List ℕ → List ℕ → Type 0
LexLt [] [] = ⊥
LexLt [] (y ∷ k) = Unit
LexLt (x ∷ l) [] = ⊥
LexLt (x ∷ l) (y ∷ k) = (x < y) ⊎ ((x ≡ y) × LexLt l k)

abbrev pub IsNeg : ℤ → Type 0
IsNeg (pos n) = ⊥
IsNeg (negsuc n) = Unit

pub strcmp-first_diff :
    (fuel : ℕ) (m : Memory) (p q : ℕ) (l k : List ℕ)
    → IsStr m p l
    → IsStr m q k
    → length l < fuel
    → strcmp fuel m p q ≡ some (first_diff l k)
unfolding strcmp
strcmp-first_diff zero m p q l k hl hk f = absurd (omega arith)
strcmp-first_diff (suc fuel) m p q [] [] hl hk f = ground arith
strcmp-first_diff (suc fuel) m p q [] (y ∷ k) hl hk f = ground arith
strcmp-first_diff (suc fuel) m p q (x ∷ l) [] hl hk f = ground arith
strcmp-first_diff (suc fuel) m p q (x ∷ l) (y ∷ k) hl hk f =
    ground (arith, strcmp-first_diff fuel m (p + 1) (q + 1) l k hl.2 hk.2)

-- Where one list ends first, the other goes on with something else than 0.
abbrev Comparable : List ℕ → List ℕ → Type 0
Comparable [] [] = Unit
Comparable [] (y ∷ k) = y ≢ 0
Comparable (x ∷ l) [] = x ≢ 0
Comparable (x ∷ l) (y ∷ k) = Comparable l k

first_diff-zero : (l k : List ℕ) → Comparable l k → (first_diff l k ≡ pos 0) ↔ (l ≡ k)
first_diff-zero [] [] h = ground arith
first_diff-zero [] (y ∷ k) h = ground arith
first_diff-zero (x ∷ l) [] h = ground arith
first_diff-zero (x ∷ l) (y ∷ k) h = ground (arith, first_diff-zero l k h)

first_diff-IsNeg : (l k : List ℕ) → Comparable l k → IsNeg (first_diff l k) ↔ LexLt l k
first_diff-IsNeg [] [] h = ground arith
first_diff-IsNeg [] (y ∷ k) h = ground arith
first_diff-IsNeg (x ∷ l) [] h = ground arith
first_diff-IsNeg (x ∷ l) (y ∷ k) h = ground (arith, first_diff-IsNeg l k h)

IsStr-Comparable :
    (m : Memory) (p q : ℕ) (l k : List ℕ) → IsStr m p l → IsStr m q k → Comparable l k
IsStr-Comparable m p q [] [] hl hk = tt
IsStr-Comparable m p q [] (y ∷ k) hl hk = hk.1
IsStr-Comparable m p q (x ∷ l) [] hl hk = hl.1
IsStr-Comparable m p q (x ∷ l) (y ∷ k) hl hk = IsStr-Comparable m (p + 1) (q + 1) l k hl.2 hk.2

take-Comparable : (n : ℕ) (l k : List ℕ) → Comparable l k → Comparable (take n l) (take n k)
take-Comparable zero l k h = tt
take-Comparable (suc n) [] [] h = tt
take-Comparable (suc n) [] (y ∷ k) h = h
take-Comparable (suc n) (x ∷ l) [] h = h
take-Comparable (suc n) (x ∷ l) (y ∷ k) h = take-Comparable n l k h

bytes-Comparable : (m : Memory) (p q n : ℕ) → Comparable (bytes m p n) (bytes m q n)
bytes-Comparable m p q zero = tt
bytes-Comparable m p q (suc n) = bytes-Comparable m (p + 1) (q + 1) n

-- A result orders two lists: it is 0 if they are equal, and negative if the first is less.
abbrev pub Orders : ℤ → List ℕ → List ℕ → Type 0
Orders r l k = ((r ≡ pos 0) ↔ (l ≡ k)) × (IsNeg r ↔ LexLt l k)

first_diff-Orders : (l k : List ℕ) → Comparable l k → Orders (first_diff l k) l k
first_diff-Orders l k h = (first_diff-zero l k h, first_diff-IsNeg l k h)

-- On two C strings `strcmp` returns 0 exactly if they are equal, and a negative number exactly if
-- the first comes before the second in the lexicographic order of unsigned bytes.
pub strcmp_lem :
    (fuel : ℕ) (m : Memory) (p q : ℕ) (l k : List ℕ)
    → IsStr m p l
    → IsStr m q k
    → length l < fuel
    → (r : ℤ) × (strcmp fuel m p q ≡ some r) × Orders r l k
strcmp_lem fuel m p q l k hl hk f = (
  first_diff l k,
  strcmp-first_diff fuel m p q l k hl hk f,
  first_diff-Orders l k (IsStr-Comparable m p q l k hl hk),
)

strncmp-first_diff :
    (m : Memory) (p q n : ℕ) (l k : List ℕ)
    → IsStr m p l
    → IsStr m q k
    → strncmp m p q n ≡ first_diff (take n l) (take n k)
unfolding strncmp
strncmp-first_diff m p q zero l k hl hk = refl
strncmp-first_diff m p q (suc n) [] [] hl hk = ground arith
strncmp-first_diff m p q (suc n) [] (y ∷ k) hl hk = ground arith
strncmp-first_diff m p q (suc n) (x ∷ l) [] hl hk = ground arith
strncmp-first_diff m p q (suc n) (x ∷ l) (y ∷ k) hl hk =
    ground (arith, strncmp-first_diff m (p + 1) (q + 1) n l k hl.2 hk.2)

-- On two C strings `strncmp` orders their first `n` characters.
pub strncmp_lem :
    (m : Memory) (p q n : ℕ) (l k : List ℕ)
    → IsStr m p l
    → IsStr m q k
    → Orders (strncmp m p q n) (take n l) (take n k)
strncmp_lem m p q n l k hl hk = rw (strncmp-first_diff m p q n l k hl hk) (
    first_diff-Orders (take n l) (take n k)
      (take-Comparable n l k (IsStr-Comparable m p q l k hl hk)))

memcmp-first_diff :
    (m : Memory) (p q n : ℕ) → memcmp m p q n ≡ first_diff (bytes m p n) (bytes m q n)
unfolding memcmp
memcmp-first_diff m p q zero = refl
memcmp-first_diff m p q (suc n) = ground (arith, memcmp-first_diff m (p + 1) (q + 1) n)

-- `memcmp` orders the two blocks of `n` bytes, zero bytes included.
pub memcmp_lem : (m : Memory) (p q n : ℕ) → Orders (memcmp m p q n) (bytes m p n) (bytes m q n)
memcmp_lem m p q n =
    rw (memcmp-first_diff m p q n)
      (first_diff-Orders (bytes m p n) (bytes m q n) (bytes-Comparable m p q n))
