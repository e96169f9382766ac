-- ===== src/Boot/Tests.antt =====
-- boot/main.c at a concrete disk.
use mit_jos_cse.Prelude.{
  ℕ, ◌+◌, ◌*◌, ◌%◌, ◌^◌, ◌<◌, ◌≤◌, ◌≡◌, inr, refl, some, arith, Memory, store, blit, [], ◌∷◌,
}
use mit_jos_cse.Disk.Toy.{toy_ports, toy-IsIde, Controller, power_on}
use mit_jos_cse.Elf.{read_le, elf_magic, e_magic, e_entry, e_phnum, e_phoff}
use mit_jos_cse.Boot.{entered, elfhdr, bootmain}
use mit_jos_cse.Boot.Segment.{segment_in}
use mit_jos_cse.Boot.Place.{AllAligned, AllHeld, bootmain-AllHeld}
use mit_jos_cse.Boot.Headers.{file, loaded, AllLoadable}

abbrev blank : Memory
blank a = 0

-- A file with one segment of 1000 bytes at its offset 0x1000, for the address 0x100000.
abbrev kernel : Memory
kernel =
    blit
      (store
        (store (store (store (store (store (store blank 616 0xE8) 617 3) 602 0x10) 585 0x10) 568 1)
          544 64)
        538 0x10)
      512 (0x7F ∷ 0x45 ∷ 0x4C ∷ 0x46 ∷ [])

magic : e_magic kernel file ≡ elf_magic
unfolding read_le
magic = refl

headers_inside : e_phoff kernel file + e_phnum kernel file * 56 ≤ 4096
unfolding read_le
headers_inside = omega arith

kernel-AllLoadable : AllLoadable kernel 10 (e_phnum kernel file) (file + e_phoff kernel file)
unfolding read_le
kernel-AllLoadable = (
  record {
    below = omega arith;
    near = omega arith;
    on_disk = omega arith;
    fuelled = omega arith;
    apart = inr (omega arith);
  },
  tt,
)

one_header : e_phnum kernel file < 2
unfolding read_le
one_header = omega arith

abbrev no_outw : ℕ → ℕ → Controller → Controller
no_outw p v d = d

kernel-AllAligned : AllAligned kernel (e_phnum kernel file) (file + e_phoff kernel file)
unfolding read_le
kernel-AllAligned = (refl, tt, tt)

bootmain-AllHeld_example :
    let m' =
      loaded kernel
        (e_phnum kernel file)
        (file + e_phoff kernel file)
        (segment_in kernel elfhdr 4096 0 blank) in
    (d' : Controller) × (bootmain (toy_ports kernel) 2 no_outw 10 2 power_on blank
      ≡ some (entered (e_entry kernel file % 2 ^ 32), d', m'))
    × AllHeld kernel (e_phnum kernel file) (file + e_phoff kernel file) m'
bootmain-AllHeld_example =
    bootmain-AllHeld (toy_ports kernel) kernel 2 (toy-IsIde kernel) 2 no_outw 10 2 power_on blank
      (omega arith) magic headers_inside kernel-AllLoadable kernel-AllAligned one_header
      (omega arith)
