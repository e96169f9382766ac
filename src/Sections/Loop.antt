-- ===== src/Sections/Loop.antt =====
-- kern/elf_rw.c: all headers, one after the other.
use mit_jos_cse.Prelude.{
  ℕ, suc, ◌+◌, ◌%◌, ◌≤◌, ◌<◌, ◌≡◌, refl, ◌∙◌, List, [], ◌∷◌, length, Option, some, Bool, true,
  false, arith, Memory, bytes_ext, ok,
}
use mit_jos_cse.Disk.{Ports, IsIde}
use mit_jos_cse.Elf.{sh_name}
use mit_jos_cse.Sections.{
  SectionInfo, Loading, compared, section_named, load_section, load_sections,
}
use mit_jos_cse.Sections.Headers.{is_read, moved, noted, Fits, IsHeld, load_section_lem}
use mit_jos_cse.Sections.Table.{
  Header, kind, AreTexts, AreHeaders, SameBelow, AreTexts-below, AreHeaders-below,
  section_named_lem,
}

module _ (texts : ℕ → List ℕ) where
  abbrev pub kind_of : Header → Option ℕ
  kind_of h = kind texts h.name compared

  -- How far the reading comes, and the table that the headers make.
  abbrev pub placed : ℕ → List Header → ℕ → SectionInfo → ℕ × SectionInfo
  placed kvbase [] k info = (k, info)
  placed kvbase (h ∷ hs) k info =
      placed kvbase hs (moved (is_read (kind_of h)) h k) (noted kvbase (kind_of h) h k info)

  abbrev pub AllFit : ℕ → ℕ → List Header → ℕ → Type 0
  AllFit kvbase fuel [] k = Unit
  AllFit kvbase fuel (h ∷ hs) k =
      Fits kvbase fuel (is_read (kind_of h)) h k
      × (length h.name < fuel)
      × AllFit kvbase fuel hs (moved (is_read (kind_of h)) h k)

  abbrev pub AllHeld : (ℕ → ℕ) → ℕ → Memory → List Header → ℕ → Type 0
  AllHeld image kvbase m [] k = Unit
  AllHeld image kvbase m (h ∷ hs) k =
      IsHeld image kvbase m (is_read (kind_of h)) h k
      × AllHeld image kvbase m hs (moved (is_read (kind_of h)) h k)

AreHeaders-mono :
    (top top' : ℕ) (m : Memory) (nametab sh : ℕ) (hs : List Header)
    → top ≤ top'
    → AreHeaders top m nametab sh hs
    → AreHeaders top' m nametab sh hs
AreHeaders-mono top top' m nametab sh [] l h = tt
AreHeaders-mono top top' m nametab sh (h ∷ hs) l (b, s, c, e1, e2, e3, rest) = (
  omega arith,
  s,
  omega arith,
  e1,
  e2,
  e3,
  AreHeaders-mono top top' m nametab (sh + 64) hs l rest,
)

-- What stands in the sectors of a section is not touched behind them.
IsHeld-below :
    (image : ℕ → ℕ) (kvbase : ℕ) (m m' : Memory) (b : Bool) (h : Header) (k : ℕ)
    → SameBelow (kvbase + moved b h k) m m'
    → IsHeld image kvbase m b h k
    → IsHeld image kvbase m' b h k
IsHeld-below image kvbase m m' true h k same held =
    bytes_ext m' m (kvbase + k + h.offset % 512) h.size (λ a p q. same a (ground (arith, p, q)))
    ∙ held
IsHeld-below image kvbase m m' false h k same held = tt

module _ (ports : Ports) (image : ℕ → ℕ) (latency : ℕ) (ide : IsIde ports image latency) (wait : ℕ)
    (patient : latency ≤ wait) where
  load_sections_step :
      (fuel : ℕ) (names : ℕ → ℕ) (kvbase nametab n sh : ℕ) (d : ports.Device) (m : Memory) (k : ℕ)
      (info : SectionInfo) (o : Option ℕ) (s : Loading ports wait)
      → k % 512 ≡ 0
      → section_named fuel m names (nametab + sh_name m sh) compared ≡ some o
      → load_section ports wait fuel kvbase sh o ((k, d, m), info) ≡ ok s
      → load_sections ports wait fuel names kvbase nametab (suc n) sh ((k, d, m), info)
        ≡ load_sections ports wait fuel names kvbase nametab n (sh + 64) s
  unfolding load_sections
  load_sections_step fuel names kvbase nametab n sh d m k info o s kb named one =
      rw (kb, named, one, load_sections) refl

  -- For headers and names in memory below `top`, where the reading begins, with the texts that the
  -- literals of the section names have, and for sections that fit the address space, the disk and
  -- the fuel: the loop over the headers ends. It has read the sections with the known names, other
  -- than .eh_frame, one behind the other, each from a sector's beginning, and the table has their
  -- addresses and sizes (for .eh_frame those of the header). Each section's bytes stand at its
  -- address, and what was below the place where the reading began is unchanged.
  pub load_sections_lem :
      (fuel : ℕ) (names : ℕ → ℕ) (texts : ℕ → List ℕ) (kvbase nametab sh top : ℕ) (hs : List Header)
      (d : ports.Device) (m : Memory) (k : ℕ) (info : SectionInfo)
      → kvbase % 512 ≡ 0
      → k % 512 ≡ 0
      → top ≤ kvbase + k
      → AreTexts top m names texts compared
      → AreHeaders top m nametab sh hs
      → AllFit texts kvbase fuel hs k
      → let (k', info') = placed texts kvbase hs k info in
        (d' : ports.Device) × (m' : Memory) × (load_sections ports wait fuel names kvbase nametab
            (length hs)
            sh
            ((k, d, m), info)
          ≡ ok ((k', d', m'), info'))
        × SameBelow (kvbase + k) m m'
        × AllHeld texts image kvbase m' hs k
  unfolding load_sections
  load_sections_lem fuel names texts kvbase nametab sh top [] d m k info b kb l t hd fit =
      (d, m, refl, (λ x p. refl), tt)
  load_sections_lem fuel names texts kvbase nametab sh top (h ∷ hs) d m k info b kb l t hd fit =
      let o = kind_of texts h in
      let named =
        section_named_lem fuel top m names (nametab + sh_name m sh) compared h.name texts hd.1 t
          fit.1 in
      let (d1, m1, one, same, held, kb1, far) =
        load_section_lem ports image latency ide wait patient fuel kvbase sh nametab o h hs d m k
          info b kb (AreHeaders-mono top (kvbase + k) m nametab sh (h ∷ hs) l hd) fit.0 in
      let k1 = moved (is_read o) h k in
      let below : SameBelow top m m1 = λ x p. same x (omega arith) in
      let (d2, m2, rest, same2, all) =
        load_sections_lem fuel names texts kvbase nametab (sh + 64) top hs d1 m1 k1
          (noted kvbase o h k info) b kb1 (omega arith)
          (AreTexts-below top m m1 names texts compared below t)
          (AreHeaders-below top m m1 nametab (sh + 64) hs below hd.6) fit.2 in
      (
        d2,
        m2,
        load_sections_step fuel names kvbase nametab (length hs) sh d m k info o
              ((k1, d1, m1), noted kvbase o h k info) kb named one
            ∙ rest,
        (λ x p. same2 x (omega arith) ∙ same x p),
        (IsHeld-below image kvbase m1 m2 (is_read o) h k same2 held, all),
      )
