-- ===== src/Sections/Image.antt =====
-- kern/elf_rw.c: section headers and names on the disk, and what stands in memory when they were
-- read.
use mit_jos_cse.Prelude.{
  ℕ, zero, suc, ◌+◌, ◌*◌, ◌≤◌, ◌<◌, ◌≡◌, sym, ap, ◌∙◌, subst, List, [], ◌∷◌, length, arith, Memory,
  bytes, IsStr, get_or,
}
use mit_jos_cse.Elf.{read_le, read_le_ext, sh_name, sh_addr, sh_offset, sh_size}
use mit_jos_cse.Sections.Table.{Header, AreHeaders}

-- The headers from `at` on, with names in the `size` bytes at `base`.
abbrev pub OnDisk : (ℕ → ℕ) → ℕ → ℕ → ℕ → List Header → Type 0
OnDisk image base size at [] = Unit
OnDisk image base size at (h ∷ hs) =
    IsStr image (base + sh_name image at) h.name
    × (sh_name image at + length h.name < size)
    × (sh_addr image at ≡ h.addr)
    × (sh_offset image at ≡ h.offset)
    × (sh_size image at ≡ h.size)
    × OnDisk image base size (at + 64) hs

-- `n` bytes of the disk from `b` on stand in the memory at `a`.
abbrev pub Copied : Memory → ℕ → (ℕ → ℕ) → ℕ → ℕ → Type 0
Copied m a image b n = (i : ℕ) → i < n → m (a + i) ≡ image (b + i)

get_or-bytes : (m : Memory) (a n i : ℕ) → i < n → get_or (bytes m a n) i 0 ≡ m (a + i)
get_or-bytes m a zero i h = absurd (omega arith)
get_or-bytes m a (suc n) zero h = ap m (omega arith)
get_or-bytes m a (suc n) (suc i) h = get_or-bytes m (a + 1) n i (omega arith) ∙ ap m (omega arith)

pub bytes-Copied :
    (m : Memory) (a : ℕ) (image : ℕ → ℕ) (b n : ℕ)
    → bytes m a n ≡ bytes image b n
    → Copied m a image b n
bytes-Copied m a image b n e i h =
    sym (get_or-bytes m a n i h) ∙ ap (λ l. get_or l i 0) e ∙ get_or-bytes image b n i h

pub read_le-Copied :
    (w : ℕ) (m : Memory) (a : ℕ) (image : ℕ → ℕ) (b n o : ℕ)
    → Copied m a image b n
    → o + w ≤ n
    → read_le w m (a + o) ≡ read_le w image (b + o)
read_le-Copied w m a image b n o same h =
    read_le_ext w m image (a + o) (b + o)
      (λ i p. ap m (omega arith) ∙ same (o + i) (omega arith) ∙ ap image (omega arith))

-- The same for a field of an entry of a table.
pub entry-Copied :
    (w : ℕ) (m : Memory) (a : ℕ) (image : ℕ → ℕ) (b n e o : ℕ)
    → Copied m a image b n
    → e + o + w ≤ n
    → read_le w m (a + e + o) ≡ read_le w image (b + e + o)
entry-Copied w m a image b n e o same h =
    ap (read_le w m) (omega arith)
    ∙ read_le-Copied w m a image b n (e + o) same h
    ∙ ap (read_le w image) (omega arith)

IsStr-Copied :
    (m : Memory) (a : ℕ) (image : ℕ → ℕ) (b n j : ℕ) (t : List ℕ)
    → Copied m a image b n
    → j + length t < n
    → IsStr image (b + j) t
    → IsStr m (a + j) t
IsStr-Copied m a image b n j [] same h s = same j (omega arith) ∙ s
IsStr-Copied m a image b n j (c ∷ t) same h (e, nz, s) = (
  same j (omega arith) ∙ e,
  nz,
  subst (λ x. IsStr m x t) (omega arith)
      (IsStr-Copied m a image b n (j + 1) t same (omega arith)
        (subst (λ x. IsStr image x t) (omega arith) s)),
)

pub AreHeaders-Copied :
    (m : Memory) (image : ℕ → ℕ) (nametab base size sh at top : ℕ) (hs : List Header)
    → Copied m sh image at (length hs * 64)
    → Copied m nametab image base size
    → sh + length hs * 64 ≤ top
    → nametab + size ≤ top
    → OnDisk image base size at hs
    → AreHeaders top m nametab sh hs
AreHeaders-Copied m image nametab base size sh at top [] c1 c2 b1 b2 d = tt
AreHeaders-Copied m image nametab base size sh at top (h ∷ hs) c1 c2 b1 b2 (s, l, e1, e2, e3, d) =
    let n = suc (length hs) * 64 in
    let named : sh_name m sh ≡ sh_name image at =
      read_le-Copied 4 m sh image at n 0 c1 (omega arith) in
    (
      omega arith,
      subst (λ x. IsStr m (nametab + x) h.name) (sym named)
          (IsStr-Copied m nametab image base size (sh_name image at) h.name c2 l s),
      omega (arith, named, l),
      read_le-Copied 8 m sh image at n 16 c1 (omega arith) ∙ e1,
      read_le-Copied 8 m sh image at n 24 c1 (omega arith) ∙ e2,
      read_le-Copied 8 m sh image at n 32 c1 (omega arith) ∙ e3,
      AreHeaders-Copied m image nametab base size (sh + 64) (at + 64) top hs
          (λ i p. ap m (omega arith) ∙ c1 (64 + i) (omega arith) ∙ ap image (omega arith)) c2
          (omega arith) b2 d,
    )
