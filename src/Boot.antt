-- ===== src/Boot.antt =====
-- boot/main.c: the boot loader. It runs with 32-bit addresses.
pub mod Segment
pub mod Headers
pub mod Kernel
pub mod Place
mod Tests
use Prim.Native.Nat.{bit_and}
use mit_jos_cse.Prelude.{
  ℕ, zero, suc, ◌+◌, ◌-◌, ◌*◌, ◌/◌, ◌%◌, ◌^◌, Option, none, some, ltb, ◌==◌, if◌then◌else◌, Memory,
}
use mit_jos_cse.Disk.{Ports, sectsize, readsect}
use mit_jos_cse.Elf.{
  elf_magic, e_magic, e_phoff, e_phnum, e_entry, p_pa, p_memsz, p_offset, proghdr_size,
}

abbrev pub elfhdr : ℕ
elfhdr = 0x10000

-- The loader jumps to the kernel, or stays in its endless loop.
pub data Boot : Type 0 where
  entered : ℕ → Boot
  bad : Boot

module _ (ports : Ports) (wait : ℕ) where
  -- `while (pa < end_pa)`, with fuel `wait` for each wait for the disk
  unfoldable pub read_sectors :
      ℕ → ℕ → ℕ → ℕ → ports.Device → Memory → Option (ports.Device × Memory)
  read_sectors zero pa end_pa offset d m = none
  read_sectors (suc fuel) pa end_pa offset d m =
      let rest = elim (readsect ports wait pa offset d m) as (λ _. Option (ports.Device × Memory)) [
        | none ↦ none
        | some (d', m') ↦
            read_sectors fuel ((pa + sectsize) % 2 ^ 32) end_pa ((offset + 1) % 2 ^ 32) d' m'
      ] in
      if ltb pa end_pa then rest else some (d, m)

  unfoldable pub readseg : ℕ → ℕ → ℕ → ℕ → ports.Device → Memory → Option (ports.Device × Memory)
  unfolding read_sectors
  readseg fuel pa count offset d m =
      read_sectors fuel (bit_and pa (2 ^ 32 - sectsize)) ((pa + count) % 2 ^ 32)
        (offset / sectsize + 1) d m

  -- `for (; ph < eph; ph++)`
  unfoldable pub load_segments :
      ℕ → ℕ → ℕ → ℕ → ports.Device → Memory → Option (ports.Device × Memory)
  unfolding readseg
  load_segments fuel zero ph eph d m = none
  load_segments fuel (suc more) ph eph d m =
      let loaded =
        readseg fuel (p_pa m ph % 2 ^ 32) (p_memsz m ph % 2 ^ 32) (p_offset m ph % 2 ^ 32) d m in
      let rest = elim loaded as (λ _. Option (ports.Device × Memory)) [
        | none ↦ none
        | some (d', m') ↦ load_segments fuel more ((ph + proghdr_size) % 2 ^ 32) eph d' m'
      ] in
      if ltb ph eph then rest else some (d, m)

  -- The kernel is entered with `multiboot_info` in a register, which is left out.
  unfoldable pub bootmain :
      (ℕ → ℕ → ports.Device → ports.Device)
      → ℕ
      → ℕ
      → ports.Device
      → Memory
      → Option (Boot × ports.Device × Memory)
  unfolding load_segments
  bootmain outw fuel more d m = elim (readseg fuel elfhdr (sectsize * 8) 0 d m) [
    | none ↦ none
    | some (d1, m1) ↦
        let ph = (elfhdr + e_phoff m1 elfhdr) % 2 ^ 32 in
        let eph = (ph + e_phnum m1 elfhdr * proghdr_size) % 2 ^ 32 in
        let halted = outw 0x8A00 0x8E00 (outw 0x8A00 0x8A00 d1) in
        let loaded : Option (Boot × ports.Device × Memory) =
          elim (load_segments fuel more ph eph d1 m1) [
            | none ↦ none
            | some (d2, m2) ↦ some (entered (e_entry m2 elfhdr % 2 ^ 32), d2, m2)
          ] in
        if e_magic m1 elfhdr == elf_magic then loaded else some (bad, halted, m1)
  ]
