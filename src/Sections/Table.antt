-- ===== src/Sections/Table.antt =====
-- kern/elf_rw.c: section headers and their names in the memory.
use mit_jos_cse.Prelude.{
  ℕ, zero, suc, ◌+◌, ◌≤◌, ◌<◌, ◌≡◌, ◌↔◌, refl, sym, ◌∙◌, subst, List, [], ◌∷◌, length, Option, none,
  some, arith, Memory, IsStr, IsStr-ext, if◌then◌else◌, ℤ, pos, negsuc,
}
use mit_jos_cse.CString.Compare.{strcmp, strcmp_lem}
use mit_jos_cse.Monitor.Run.{same_text, same_text-is_zero}
use mit_jos_cse.Elf.{read_le, read_le_ext, sh_name, sh_addr, sh_offset, sh_size}
use mit_jos_cse.Sections.{section_named}

-- What a section header says.
pub record Header : Type 0 where
  pub name : List ℕ
  pub addr : ℕ
  pub offset : ℕ
  pub size : ℕ

-- The first of the entries whose text is the name.
abbrev pub kind : (ℕ → List ℕ) → List ℕ → List ℕ → Option ℕ
kind texts name [] = none
kind texts name (i ∷ is) = if same_text name (texts i) then some i else kind texts name is

-- The entries' literals have these texts, and stand below `top`.
abbrev pub AreTexts : ℕ → Memory → (ℕ → ℕ) → (ℕ → List ℕ) → List ℕ → Type 0
AreTexts top m names texts [] = Unit
AreTexts top m names texts (i ∷ is) =
    IsStr m (names i) (texts i) × (names i + length (texts i) < top) × AreTexts top m names texts is

-- The headers from `sh` on and their names stand below `top`.
abbrev pub AreHeaders : ℕ → Memory → ℕ → ℕ → List Header → Type 0
AreHeaders top m nametab sh [] = Unit
AreHeaders top m nametab sh (h ∷ hs) =
    (sh + 64 ≤ top)
    × IsStr m (nametab + sh_name m sh) h.name
    × (nametab + sh_name m sh + length h.name < top)
    × (sh_addr m sh ≡ h.addr)
    × (sh_offset m sh ≡ h.offset)
    × (sh_size m sh ≡ h.size)
    × AreHeaders top m nametab (sh + 64) hs

abbrev pub SameBelow : ℕ → Memory → Memory → Type 0
SameBelow top m m' = (x : ℕ) → x < top → m' x ≡ m x

pub IsStr-below :
    (top : ℕ) (m m' : Memory) (at : ℕ) (t : List ℕ)
    → SameBelow top m m'
    → at + length t < top
    → IsStr m at t
    → IsStr m' at t
IsStr-below top m m' at t same b h = IsStr-ext m m' at t (λ a p q. sym (same a (omega arith))) h

pub read_le-below :
    (top n : ℕ) (m m' : Memory) (a : ℕ)
    → SameBelow top m m'
    → a + n ≤ top
    → read_le n m' a ≡ read_le n m a
read_le-below top n m m' a same b = read_le_ext n m' m a a (λ i p. same (a + i) (omega arith))

pub AreTexts-below :
    (top : ℕ) (m m' : Memory) (names : ℕ → ℕ) (texts : ℕ → List ℕ) (is : List ℕ)
    → SameBelow top m m'
    → AreTexts top m names texts is
    → AreTexts top m' names texts is
AreTexts-below top m m' names texts [] same h = tt
AreTexts-below top m m' names texts (i ∷ is) same (s, b, h) = (
  IsStr-below top m m' (names i) (texts i) same b s,
  b,
  AreTexts-below top m m' names texts is same h,
)

pub AreHeaders-below :
    (top : ℕ) (m m' : Memory) (nametab sh : ℕ) (hs : List Header)
    → SameBelow top m m'
    → AreHeaders top m nametab sh hs
    → AreHeaders top m' nametab sh hs
AreHeaders-below top m m' nametab sh [] same h = tt
AreHeaders-below top m m' nametab sh (h ∷ hs) same (b, s, c, e1, e2, e3, rest) =
    let named : sh_name m' sh ≡ sh_name m sh =
      read_le-below top 4 m m' (sh + 0) same (omega arith) in
    (
      b,
      IsStr-below top m m' (nametab + sh_name m' sh) h.name same (omega (arith, named, c))
          (subst (λ x. IsStr m (nametab + x) h.name) (sym named) s),
      omega (arith, named, c),
      read_le-below top 8 m m' (sh + 16) same (omega arith) ∙ e1,
      read_le-below top 8 m m' (sh + 24) same (omega arith) ∙ e2,
      read_le-below top 8 m m' (sh + 32) same (omega arith) ∙ e3,
      AreHeaders-below top m m' nametab (sh + 64) hs same rest,
    )

section_named_step :
    (fuel : ℕ) (m : Memory) (names : ℕ → ℕ) (at i : ℕ) (is w : List ℕ) (texts : ℕ → List ℕ) (r : ℤ)
    → strcmp fuel m at (names i) ≡ some r
    → ((r ≡ pos 0) ↔ (w ≡ texts i))
    → section_named fuel m names at is ≡ some (kind texts w is)
    → section_named fuel m names at (i ∷ is) ≡ some (kind texts w (i ∷ is))
unfolding section_named
section_named_step fuel m names at i is w texts (pos zero) e h rest =
    rw (e, same_text-is_zero (pos zero) w (texts i) h, section_named) refl
section_named_step fuel m names at i is w texts (pos (suc n)) e h rest =
    rw (e, same_text-is_zero (pos (suc n)) w (texts i) h, section_named) rest
section_named_step fuel m names at i is w texts (negsuc n) e h rest =
    rw (e, same_text-is_zero (negsuc n) w (texts i) h, section_named) rest

pub section_named_lem :
    (fuel top : ℕ) (m : Memory) (names : ℕ → ℕ) (at : ℕ) (is w : List ℕ) (texts : ℕ → List ℕ)
    → IsStr m at w
    → AreTexts top m names texts is
    → length w < fuel
    → section_named fuel m names at is ≡ some (kind texts w is)
unfolding section_named
section_named_lem fuel top m names at [] w texts h n f = refl
section_named_lem fuel top m names at (i ∷ is) w texts h (s, b, n) f =
    let (r, found, orders) = strcmp_lem fuel m at (names i) w (texts i) h s f in
    section_named_step fuel m names at i is w texts r found orders.0
      (section_named_lem fuel top m names at is w texts h n f)

pub AreTexts-mono :
    (top top' : ℕ) (m : Memory) (names : ℕ → ℕ) (texts : ℕ → List ℕ) (is : List ℕ)
    → top ≤ top'
    → AreTexts top m names texts is
    → AreTexts top' m names texts is
AreTexts-mono top top' m names texts [] l h = tt
AreTexts-mono top top' m names texts (i ∷ is) l (s, b, h) =
    (s, omega arith, AreTexts-mono top top' m names texts is l h)
