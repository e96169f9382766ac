-- ===== src/Boot/Place.antt =====
-- boot/main.c: where the segments of the kernel end up in memory.
use mit_jos_cse.Prelude.{
  ℕ, zero, suc, ◌+◌, ◌*◌, ◌/◌, ◌%◌, ◌^◌, ◌≤◌, ◌<◌, ◌≡◌, ◌⊎◌, refl, ap, ◌∙◌, some, arith, Memory,
  bytes, bytes_ext,
}
use mit_jos_cse.Disk.{Ports, IsIde}
use mit_jos_cse.Disk.Patch.{bytes-patch, patch-Outside}
use mit_jos_cse.Elf.{elf_magic, e_magic, e_entry, e_phoff, e_phnum, p_pa, p_memsz, p_offset}
use mit_jos_cse.Boot.{elfhdr, entered, bootmain}
use mit_jos_cse.Boot.Segment.{block, sectors, segment_in}
use mit_jos_cse.Boot.Headers.{file, loaded, AllLoadable}
use mit_jos_cse.Boot.Kernel.{bootmain_lem}

-- The bytes of the whole sectors that the header at `h` has read.
abbrev pub room : (ℕ → ℕ) → ℕ → ℕ
room image h = sectors (block (p_pa image h)) (p_pa image h + p_memsz image h) * 512

-- What the header at `h` has read does not meet what the `n` headers from `h'` on have.
abbrev pub IsApart : (ℕ → ℕ) → ℕ → ℕ → ℕ → Type 0
IsApart image h zero h' = Unit
IsApart image h (suc n) h' =
    ((block (p_pa image h) + room image h ≤ block (p_pa image h'))
      ⊎ (block (p_pa image h') + room image h' ≤ block (p_pa image h)))
    × IsApart image h n (h' + 56)

-- Each segment lies in its first sector of the file as it lies in its first block of the memory, and
-- the blocks of different segments do not meet.
abbrev pub AllAligned : (ℕ → ℕ) → ℕ → ℕ → Type 0
AllAligned image zero h = Unit
AllAligned image (suc n) h =
    (p_offset image h % 512 ≡ p_pa image h % 512)
    × IsApart image h n (h + 56)
    × AllAligned image n (h + 56)

-- The memory holds each segment of the file at its address.
abbrev pub AllHeld : (ℕ → ℕ) → ℕ → ℕ → Memory → Type 0
AllHeld image zero h m = Unit
AllHeld image (suc n) h m =
    (bytes m (p_pa image h) (p_memsz image h)
      ≡ bytes image (file + p_offset image h) (p_memsz image h))
    × AllHeld image n (h + 56) m

segment_in-bytes :
    (image : ℕ → ℕ) (pa count offset : ℕ) (m : Memory)
    → offset % 512 ≡ pa % 512
    → bytes (segment_in image pa count offset m) pa count ≡ bytes image (file + offset) count
segment_in-bytes image pa count offset m h =
    let n = sectors (block pa) (pa + count) * 512 in
    ap (λ a. bytes (segment_in image pa count offset m) a count) {x = pa} {y = block pa + pa % 512}
      (omega arith)
    ∙ bytes-patch m (block pa) n image ((offset / 512 + 1) * 512) (pa % 512) count (omega arith)
    ∙ ap (λ a. bytes image a count) (omega (arith, h))

-- The later segments leave the bytes of one alone.
loaded-bytes :
    (image : ℕ → ℕ) (h n h' : ℕ) (m : Memory)
    → IsApart image h n h'
    → bytes (loaded image n h' m) (p_pa image h) (p_memsz image h)
      ≡ bytes m (p_pa image h) (p_memsz image h)
loaded-bytes image h zero h' m a = refl
loaded-bytes image h (suc n) h' m (a, later) =
    let pa = p_pa image h' in
    let m1 = segment_in image pa (p_memsz image h') (p_offset image h') m in
    loaded-bytes image h n (h' + 56) m1 later
    ∙ bytes_ext m1 m (p_pa image h) (p_memsz image h) (λ x p q.
      patch-Outside m (block pa) (room image h') image ((p_offset image h' / 512 + 1) * 512) x
        (ground (arith, a, p, q)))

loaded-AllHeld :
    (image : ℕ → ℕ) (n h : ℕ) (m : Memory)
    → AllAligned image n h
    → AllHeld image n h (loaded image n h m)
loaded-AllHeld image zero h m a = tt
loaded-AllHeld image (suc n) h m (a, apart, later) =
    let m1 = segment_in image (p_pa image h) (p_memsz image h) (p_offset image h) m in
    (
      loaded-bytes image h n (h + 56) m1 apart
          ∙ segment_in-bytes image (p_pa image h) (p_memsz image h) (p_offset image h) m a,
      loaded-AllHeld image n (h + 56) m1 later,
    )

-- Of a disk that holds, from its second sector on, an ELF file with the right magic number and
-- with its program headers in its first 4096 bytes, each of them loadable, and with fuel for the
-- segments, their sectors and the disk's latency: if each segment's offset in the file and its
-- physical address agree modulo 512, and the blocks of 512 bytes that the segments touch do not
-- meet, `bootmain` enters the kernel at the address that the file names, with the `p_memsz` bytes of
-- the file from `p_offset` on at `p_pa`, for each segment. The memory is otherwise changed only in
-- whole sectors: first the ELF header's page, and then each segment's blocks, in their order.
pub bootmain-AllHeld :
    (ports : Ports) (image : ℕ → ℕ) (latency : ℕ) (ide : IsIde ports image latency) (wait : ℕ)
    (outw : ℕ → ℕ → ports.Device → ports.Device) (fuel more : ℕ) (d : ports.Device) (m : Memory)
    → latency ≤ wait
    → e_magic image file ≡ elf_magic
    → e_phoff image file + e_phnum image file * 56 ≤ 4096
    → AllLoadable image fuel (e_phnum image file) (file + e_phoff image file)
    → AllAligned image (e_phnum image file) (file + e_phoff image file)
    → e_phnum image file < more
    → 8 < fuel
    → let m' =
        loaded image
          (e_phnum image file)
          (file + e_phoff image file)
          (segment_in image elfhdr 4096 0 m) in
      (d' : ports.Device) × (bootmain ports wait outw fuel more d m
        ≡ some (entered (e_entry image file % 2 ^ 32), d', m'))
      × AllHeld image (e_phnum image file) (file + e_phoff image file) m'
bootmain-AllHeld ports image latency ide wait outw fuel more d m b magic inside all a f f8 =
    let (d', run) =
      bootmain_lem ports image latency ide wait b outw fuel more d m magic inside all f f8 in
    (
      d',
      run,
      loaded-AllHeld image (e_phnum image file) (file + e_phoff image file)
          (segment_in image elfhdr 4096 0 m) a,
    )
