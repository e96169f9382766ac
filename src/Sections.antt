-- ===== src/Sections.antt =====
-- kern/elf_rw.c: the kernel reads the debug sections of its own image from the disk. `Stop` says
-- how a run may end early: a failed assertion is a panic, and `fault` is a store behind the last
-- entry of `secthdr_ptr`. Addresses are 64 bits wide.
pub mod Read
pub mod Table
pub mod Image
pub mod Headers
pub mod Loop
pub mod Load
mod Tests
use Prim.Native.Nat.{bit_and}
use mit_jos_cse.Prelude.{
  ℕ, zero, suc, ◌+◌, ◌-◌, ◌*◌, ◌/◌, ◌%◌, ◌^◌, Option, none, some, List, [], ◌∷◌, leb, ltb, ◌==◌,
  if◌then◌else◌, Memory, ℤ, pos, negsuc, Stop, fault, unfinished, Run, ok, stopped, ◌>>=◌, ◌>>◌,
  assert, finished,
}
use mit_jos_cse.CString.Compare.{strcmp}
use mit_jos_cse.Mmu.Layout.{kernbase, ustabdata}
use mit_jos_cse.Mmu.Round.{round_down, round_up}
use mit_jos_cse.Disk.{Ports, sectsize}
use mit_jos_cse.Disk
use mit_jos_cse.Elf.{
  e_shoff, e_shentsize, e_shnum, e_shstrndx, secthdr_size, sh_name, sh_addr, sh_offset, sh_size,
}

-- The places in `section_info`.
abbrev pub debug_info : ℕ
debug_info = 0

abbrev pub debug_abbrev : ℕ
debug_abbrev = 1

abbrev pub debug_frame : ℕ
debug_frame = 2

abbrev pub debug_line : ℕ
debug_line = 3

abbrev pub debug_str : ℕ
debug_str = 4

abbrev pub ndebug_sect : ℕ
ndebug_sect = 5

-- `Dwarf_Section`
pub record Section : Type 0 where
  pub ds_name : ℕ
  pub ds_data : ℕ
  pub ds_addr : ℕ
  pub ds_size : ℕ

-- `section_info` by the index
abbrev pub SectionInfo : Type 0
SectionInfo = ℕ → Section

-- Where the literals ".debug_info" and so on stand, by their place in the table.
abbrev pub Names : Type 0
Names = ℕ → ℕ

-- `section_info` as it is initialised
unfoldable pub initial_info : Names → SectionInfo
initial_info names i = record { ds_name = names i; ds_data = 0; ds_addr = 0; ds_size = 0 }

-- The three assignments to an entry.
abbrev pub record_section : ℕ → ℕ → ℕ → SectionInfo → SectionInfo
record_section i at size info j =
    if j == i then record (info j) { ds_data = at; ds_addr = at; ds_size = size } else info j

abbrev pub kelfhdr : ℕ
kelfhdr = 0x10000 + kernbase

-- `OFFSET_CORRECT`
abbrev pub offset_correct : ℕ → ℕ
offset_correct x = x - round_down x sectsize

-- `for (i = 0; i < NDEBUG_SECT; i++)`, with `n` rounds left
unfoldable pub find_section_from : ℕ → Memory → SectionInfo → ℕ → ℕ → ℕ → Option (Option ℕ)
find_section_from fuel m info name zero i = some none
find_section_from fuel m info name (suc n) i = elim (strcmp fuel m (info i).ds_name name) [
  | none ↦ none
  | some (pos zero) ↦ some (some i)
  | some _ ↦ find_section_from fuel m info name n (i + 1)
]

-- The result is the entry's index, in place of a pointer to it.
unfoldable pub dwarf_find_section : ℕ → Memory → SectionInfo → ℕ → Option (Option ℕ)
unfolding find_section_from
dwarf_find_section fuel m info name = find_section_from fuel m info name ndebug_sect 0

-- The chain of `if (!strcmp(name, ...))`: the first of the entries whose literal is the name.
unfoldable pub section_named : ℕ → Memory → Names → ℕ → List ℕ → Option (Option ℕ)
section_named fuel m names name [] = some none
section_named fuel m names name (i ∷ is) = elim (strcmp fuel m name (names i)) [
  | none ↦ none
  | some (pos zero) ↦ some (some i)
  | some _ ↦ section_named fuel m names name is
]

-- The order in which the chains compare.
abbrev pub compared : List ℕ
compared = debug_info ∷ debug_abbrev ∷ debug_line ∷ debug_frame ∷ debug_str ∷ []

-- What `find_debug_sections` does at a header, with `debug_address`.
unfoldable pub note_section : Memory → ℕ → Option ℕ → SectionInfo × ℕ → SectionInfo × ℕ
note_section m sh none (info, at) = (info, at)
note_section m sh (some i) (info, at) = (
  record_section i (if i == debug_frame then sh_addr m sh else at) (sh_size m sh) info,
  (at + sh_size m sh) % 2 ^ 64,
)

-- `for (; sh < esh; sh++)`, with `n` headers left
unfoldable pub note_sections :
    ℕ → Memory → Names → ℕ → ℕ → ℕ → SectionInfo × ℕ → Option (SectionInfo × ℕ)
unfolding section_named note_section
note_sections fuel m names strtab zero sh s = some s
note_sections fuel m names strtab (suc n) sh s =
    elim (section_named fuel m names (strtab + sh_name m sh) compared) [
      | none ↦ none
      | some i ↦ note_sections fuel m names strtab n (sh + secthdr_size) (note_section m sh i s)
    ]

unfoldable pub find_debug_sections : ℕ → Memory → Names → ℕ → SectionInfo → Option SectionInfo
unfolding note_sections
find_debug_sections fuel m names elf info =
    let sh = elf + e_shoff m elf in
    let shstr_tab = sh + e_shstrndx m elf * secthdr_size in
    elim (note_sections fuel m names (elf + sh_offset m shstr_tab) (e_shnum m elf) sh
      (info, ustabdata)) [ none ↦ none | some (info', at) ↦ some info' ]

module _ (ports : Ports) (wait : ℕ) where
  abbrev pub waitdisk : ports.Device → Option ports.Device
  unfolding Disk.waitdisk
  waitdisk = Disk.waitdisk ports wait

  abbrev pub readsect : ℕ → ℕ → ports.Device → Memory → Run (ports.Device × Memory)
  unfolding Disk.readsect
  readsect dst offset d m = finished (Disk.readsect ports wait dst offset d m)

  -- `pa`, `offset`, `*kvoffset`, the devices and the memory
  abbrev pub Progress : Type 0
  Progress = ℕ × ℕ × ℕ × ports.Device × Memory

  -- `while (pa < end_pa)`
  unfoldable pub read_sectors : ℕ → ℕ → Progress → Run Progress
  read_sectors zero end_pa s = stopped unfinished
  read_sectors (suc fuel) end_pa (pa, offset, kvoffset, d, m) =
      let rest = readsect pa offset d m >>= λ (d', m').
      read_sectors fuel end_pa
        ((pa + sectsize) % 2 ^ 64, (offset + 1) % 2 ^ 64, (kvoffset + sectsize) % 2 ^ 64, d', m') in
      if ltb pa end_pa then rest else ok (pa, offset, kvoffset, d, m)

  -- The sector that a segment runs into when it does not begin with a sector.
  unfoldable pub read_last : ℕ → Progress → Run (ℕ × ports.Device × Memory)
  read_last reach (pa, offset, kvoffset, d, m) =
      let more =
        readsect pa offset d m >>= λ (d', m'). ok ((kvoffset + sectsize) % 2 ^ 64, d', m') in
      if ltb sectsize reach then more else ok (kvoffset, d, m)

  unfoldable pub readseg :
      ℕ → ℕ → ℕ → ℕ → ℕ × ports.Device × Memory → Run (ℕ × ports.Device × Memory)
  unfolding read_sectors read_last
  readseg fuel pa count offset (kvoffset, d, m) = do
    assert (pa % sectsize == 0)
    loop ←
        read_sectors fuel ((pa + count) % 2 ^ 64)
          (bit_and pa (2 ^ 64 - sectsize), offset / sectsize + 1, kvoffset, d, m)
    (kvoffset', d', m') ← read_last ((offset % sectsize + count) % 2 ^ 64) loop
    assert (kvoffset' % sectsize == 0)
    ok (kvoffset', d', m')

  -- `*kvoffset`, the devices, the memory and `section_info`
  abbrev pub Loading : Type 0
  Loading = (ℕ × ports.Device × Memory) × SectionInfo

  -- What the loop does at the header `sh` with the name's entry.
  unfoldable pub load_section : ℕ → ℕ → ℕ → Option ℕ → Loading → Run Loading
  unfolding readseg
  load_section fuel kvbase sh none s = ok s
  load_section fuel kvbase sh (some i) ((kvoffset, d, m), info) =
      let framed : Loading =
        ((kvoffset, d, m), record_section i (sh_addr m sh) (sh_size m sh) info) in
      let read : Run Loading =
        readseg fuel (kvbase + kvoffset) (sh_size m sh) (sh_offset m sh) (kvoffset, d, m)
        >>= λ (kvoffset', d', m'). ok (
          (kvoffset', d', m'),
          record_section i (kvbase + kvoffset + offset_correct (sh_offset m' sh)) (sh_size m' sh)
              info,
        ) in
      if i == debug_frame then ok framed else read

  -- `for (i = 0; i < numSectionHeaders; i++)`, with `n` headers left
  unfoldable pub load_sections : ℕ → Names → ℕ → ℕ → ℕ → ℕ → Loading → Run Loading
  unfolding section_named load_section
  load_sections fuel names kvbase nametab zero sh s = ok s
  load_sections fuel names kvbase nametab (suc n) sh ((kvoffset, d, m), info) = do
    assert (kvoffset % sectsize == 0)
    i ← finished (section_named fuel m names (nametab + sh_name m sh) compared)
    s' ← load_section fuel kvbase sh i ((kvoffset, d, m), info)
    load_sections fuel names kvbase nametab n (sh + secthdr_size) s'

  -- The result's first part is the address behind what was read. A name table's index that is not
  -- one of the headers is a null pointer or lies behind the array.
  unfoldable pub read_section_headers :
      ℕ → Names → ℕ → ℕ → ports.Device → Memory → SectionInfo → Run (ℕ × Loading)
  unfolding load_sections
  read_section_headers fuel names elfhdr to_va d m info =
      let kvbase = round_up to_va sectsize in
      let shoff = e_shoff m elfhdr in
      let offset =
        if elfhdr == kelfhdr then shoff else (shoff + (elfhdr + 2 ^ 64 - kernbase)) % 2 ^ 64 in
      let n = e_shnum m elfhdr in
      let secthdr = kvbase + (offset - round_down offset sectsize) in
      do
        (kvoffset, d1, m1) ← readseg fuel kvbase (n * e_shentsize m elfhdr) offset (0, d, m)
        (if leb n 20 then ok tt else stopped fault)
        (if ltb (e_shstrndx m1 elfhdr) n then ok tt else stopped fault)
        let sec_name = secthdr + e_shstrndx m1 elfhdr * secthdr_size
        (kvoffset', d2, m2) ←
            readseg fuel (kvbase + kvoffset) (sh_size m1 sec_name) (sh_offset m1 sec_name)
              (kvoffset, d1, m1)
        let nametab = kvbase + kvoffset + offset_correct (sh_offset m2 sec_name)
        ((kvend, d3, m3), info') ←
            load_sections fuel names kvbase nametab n secthdr ((kvoffset', d2, m2), info)
        ok (kvbase + kvend, ((kvend, d3, m3), info'))
