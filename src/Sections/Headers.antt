-- ===== src/Sections/Headers.antt =====
-- kern/elf_rw.c: what the loop of `read_section_headers` does at one header.
use mit_jos_cse.Prelude.{
  ℕ, ◌+◌, ◌*◌, ◌%◌, ◌^◌, ◌≤◌, ◌<◌, ◌≡◌, inl, inr, refl, ◌∙◌, subst, List, ◌∷◌, Option, none, some,
  Bool, true, false, not, arith, Memory, bytes, ok, if◌then◌else◌, ◌==◌, Bool-cases,
}
use mit_jos_cse.Mmu.Round.{round_down}
use mit_jos_cse.Disk.{Ports, IsIde}
use mit_jos_cse.Elf.{sh_addr, sh_offset, sh_size}
use mit_jos_cse.Sections.{
  SectionInfo, record_section, debug_frame, readseg, load_section, offset_correct,
}
use mit_jos_cse.Sections.Read.{whole, sectors_read, readseg_loads}
use mit_jos_cse.Sections.Table.{Header, AreHeaders, SameBelow, read_le-below}

-- Whether the header's section is read from the disk.
abbrev pub is_read : Option ℕ → Bool
is_read none = false
is_read (some i) = not (i == debug_frame)

-- How far the reading has come behind the header.
abbrev pub moved : Bool → Header → ℕ → ℕ
moved true h k = k + sectors_read h.size h.offset * 512
moved false h k = k

-- The table behind the header.
abbrev pub noted : ℕ → Option ℕ → Header → ℕ → SectionInfo → SectionInfo
noted kvbase none h k info = info
noted kvbase (some i) h k info =
    record_section i (if i == debug_frame then h.addr else kvbase + k + h.offset % 512) h.size info

-- The section fits the address space and the disk, and fuel is given for its sectors.
abbrev pub Fits : ℕ → ℕ → Bool → Header → ℕ → Type 0
Fits kvbase fuel true h k =
    (kvbase + k + h.size + 1024 < 2 ^ 64)
    × (h.offset + h.size + 1024 < 2 ^ 37)
    × (whole h.size < fuel)
Fits kvbase fuel false h k = Unit

-- The section's bytes stand in the memory.
abbrev pub IsHeld : (ℕ → ℕ) → ℕ → Memory → Bool → Header → ℕ → Type 0
IsHeld image kvbase m true h k =
    bytes m (kvbase + k + h.offset % 512) h.size ≡ bytes image (512 + h.offset) h.size
IsHeld image kvbase m false h k = Unit

pub offset_correct_lem : (x : ℕ) → offset_correct x ≡ x % 512
unfolding round_down
offset_correct_lem x = omega arith

module _ (ports : Ports) (image : ℕ → ℕ) (latency : ℕ) (ide : IsIde ports image latency) (wait : ℕ)
    (patient : latency ≤ wait) where
  load_section_other :
      (fuel kvbase sh : ℕ) (d : ports.Device) (m : Memory) (k : ℕ) (info : SectionInfo)
      → load_section ports wait fuel kvbase sh none ((k, d, m), info) ≡ ok ((k, d, m), info)
  unfolding load_section
  load_section_other fuel kvbase sh d m k info = refl

  load_section_framed :
      (fuel kvbase sh i : ℕ) (d : ports.Device) (m : Memory) (k addr size : ℕ) (info : SectionInfo)
      → (i == debug_frame) ≡ true
      → sh_addr m sh ≡ addr
      → sh_size m sh ≡ size
      → load_section ports wait fuel kvbase sh (some i) ((k, d, m), info)
        ≡ ok ((k, d, m), record_section i addr size info)
  unfolding load_section
  load_section_framed fuel kvbase sh i d m k addr size info f e1 e2 =
      rw (f, e1, e2, load_section) refl

  load_section_read :
      (fuel kvbase sh i : ℕ) (d : ports.Device) (m : Memory) (k offset size : ℕ)
      (info : SectionInfo) (k' : ℕ) (d' : ports.Device) (m' : Memory)
      → (i == debug_frame) ≡ false
      → sh_offset m sh ≡ offset
      → sh_size m sh ≡ size
      → sh_offset m' sh ≡ offset
      → sh_size m' sh ≡ size
      → readseg ports wait fuel (kvbase + k) size offset (k, d, m) ≡ ok (k', d', m')
      → load_section ports wait fuel kvbase sh (some i) ((k, d, m), info)
        ≡ ok ((k', d', m'), record_section i (kvbase + k + offset_correct offset) size info)
  unfolding load_section
  load_section_read fuel kvbase sh i d m k offset size info k' d' m' f e1 e2 e3 e4 done =
      rw (f, e1, e2, done, e3, e4, load_section) refl

  -- One header.
  pub load_section_lem :
      (fuel kvbase sh nametab : ℕ) (o : Option ℕ) (h : Header) (hs : List Header) (d : ports.Device)
      (m : Memory) (k : ℕ) (info : SectionInfo)
      → kvbase % 512 ≡ 0
      → k % 512 ≡ 0
      → AreHeaders (kvbase + k) m nametab sh (h ∷ hs)
      → Fits kvbase fuel (is_read o) h k
      → (d' : ports.Device) × (m' : Memory) × (load_section ports wait fuel kvbase sh o
            ((k, d, m), info)
          ≡ ok ((moved (is_read o) h k, d', m'), noted kvbase o h k info))
        × SameBelow (kvbase + k) m m'
        × IsHeld image kvbase m' (is_read o) h k
        × (moved (is_read o) h k % 512 ≡ 0)
        × (k ≤ moved (is_read o) h k)
  load_section_lem fuel kvbase sh nametab none h hs d m k info b kb hd fit =
      (d, m, load_section_other fuel kvbase sh d m k info, (λ x p. refl), tt, kb, omega arith)
  load_section_lem fuel kvbase sh nametab (some i) h hs d m k info b kb
        (inside, s, c, e1, e2, e3, rest) fit =
      elim (Bool-cases (i == debug_frame)) [
        | inl f ↦
            let noted_it = load_section_framed fuel kvbase sh i d m k h.addr h.size info f e1 e3 in
            rw f (d, m, noted_it, (λ x p. refl), tt, kb, omega arith)
        | inr f ↦
            let fits : Fits kvbase fuel true h k =
              subst (λ x. Fits kvbase fuel (not x) h k) f fit in
            let (k', d', m', done, held, far, whole_sectors, same) =
              readseg_loads ports image latency ide wait patient fuel (kvbase + k) h.size h.offset k
                d m (omega arith) kb fits.0 (omega (arith, fits.0)) fits.1 fits.2 in
            let below : SameBelow (kvbase + k) m m' = λ x p. same x (omega arith) in
            let in_sector : offset_correct h.offset ≡ h.offset % 512 =
              offset_correct_lem h.offset in
            let read_it =
              load_section_read fuel kvbase sh i d m k h.offset h.size info k' d' m' f e2 e3
                (read_le-below (kvbase + k) 8 m m' (sh + 24) below (omega arith) ∙ e2)
                (read_le-below (kvbase + k) 8 m m' (sh + 32) below (omega arith) ∙ e3) done in
            rw f (
              d',
              m',
              read_it ∙ (λ j.
                  ok ((far j, d', m'), record_section i (kvbase + k + in_sector j) h.size info)),
              below,
              held,
              omega (arith, far, whole_sectors),
              omega arith,
            )
      ]
