-- ===== src/Sections/Load.antt =====
-- kern/elf_rw.c: `read_section_headers` on the kernel's own image.
pub mod Sample
mod Tests
use mit_jos_cse.Prelude.{
  ℕ, zero, suc, ◌+◌, ◌-◌, ◌*◌, ◌/◌, ◌^◌, ◌≤◌, ◌<◌, ◌≡◌, subst, List, [], ◌∷◌, length, Option, some,
  Bool, false, Memory, bytes, Run, ◌>>=◌, assert, finished, ◌==◌, if◌then◌else◌,
}
use mit_jos_cse.Elf.{
  read_le, e_shoff, e_shnum, e_shentsize, e_shstrndx, sh_name, sh_offset, sh_size,
}
use mit_jos_cse.Mmu.Round.{round_down}
use mit_jos_cse.Sections.{kelfhdr, compared}
use mit_jos_cse.Sections.Read.{whole, sectors_read}
use mit_jos_cse.Sections.Table.{Header, AreTexts}
use mit_jos_cse.Sections.Image.{OnDisk}

-- Where the sections begin: behind the headers and behind the table of their names.
abbrev pub after_headers : ℕ → List Header → ℕ
after_headers shoff hs = sectors_read (length hs * 64) shoff * 512

abbrev pub after_names : ℕ → ℕ → ℕ → List Header → ℕ
after_names shoff stroff strsize hs = after_headers shoff hs + sectors_read strsize stroff * 512

-- The ELF header and the literals of the names stand in memory below `kvbase`, the section headers
-- `hs`, at most 20, on the disk at `shoff` of the kernel's file, and their names in the section of
-- the header `idx`, `strsize` bytes at `stroff`. All fits the address space, the disk and the fuel.
pub record IsReadable (image : ℕ → ℕ) (m : Memory) (names : ℕ → ℕ) (texts : ℕ → List ℕ)
    (fuel kvbase shoff stroff strsize idx : ℕ) (hs : List Header) : Type 0 where
  pub header_below : kelfhdr + 64 ≤ kvbase
  pub headers_at : e_shoff m kelfhdr ≡ shoff
  pub count : e_shnum m kelfhdr ≡ length hs
  pub entry_size : e_shentsize m kelfhdr ≡ 64
  pub names_index : e_shstrndx m kelfhdr ≡ idx
  pub few : length hs ≤ 20
  pub index_inside : idx < length hs
  pub literals : AreTexts kvbase m names texts compared
  pub on_disk : OnDisk image (512 + stroff) strsize (512 + shoff) hs
  pub names_at : sh_offset image (512 + shoff + idx * 64) ≡ stroff
  pub names_size : sh_size image (512 + shoff + idx * 64) ≡ strsize
  pub some_names : 0 < strsize
  pub headers_near : shoff + length hs * 64 + 1024 < 2 ^ 37
  pub names_near : stroff + strsize + 1024 < 2 ^ 37
  pub room : kvbase + length hs * 64 + after_headers shoff hs + strsize + 1024 < 2 ^ 64
  pub headers_fuelled : whole (length hs * 64) < fuel
  pub names_fuelled : whole strsize < fuel
