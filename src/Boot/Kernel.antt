-- ===== src/Boot/Kernel.antt =====
-- boot/main.c: `bootmain` on a disk that holds an ELF file from the second sector on.
use mit_jos_cse.Prelude.{
  ℕ, zero, suc, ◌+◌, ◌*◌, ◌%◌, ◌^◌, ◌≤◌, ◌<◌, ◌≡◌, ◌≢◌, refl, sym, ap, ap₂, ◌∙◌, subst, some, true,
  false, ltb, lt→ltb, ◌==◌, ==_iff, arith, Memory,
}
use mit_jos_cse.Disk.{Ports, IsIde}
use mit_jos_cse.Elf.{elf_magic, e_magic, e_entry, e_phoff, e_phnum, p_pa, p_memsz, p_offset}
use mit_jos_cse.Boot.{elfhdr, entered, bad, readseg, load_segments, bootmain}
use mit_jos_cse.Boot.Segment.{segment_in, readseg-patch}
use mit_jos_cse.Boot.Headers.{
  file, loaded, AllLoadable, Agrees, field, low32, Agrees-header, Agrees-segment_in, Agrees-loaded,
}

module _ (ports : Ports) (image : ℕ → ℕ) (latency : ℕ) (ide : IsIde ports image latency) (wait : ℕ)
    (patient : latency ≤ wait) where
  load_segments_step :
      (fuel more ph eph : ℕ) (d : ports.Device) (m : Memory) (pa count off : ℕ) (d1 : ports.Device)
      (m1 : Memory)
      → ltb ph eph ≡ true
      → p_pa m ph % 2 ^ 32 ≡ pa
      → p_memsz m ph % 2 ^ 32 ≡ count
      → p_offset m ph % 2 ^ 32 ≡ off
      → readseg ports wait fuel pa count off d m ≡ some (d1, m1)
      → load_segments ports wait fuel (suc more) ph eph d m
        ≡ load_segments ports wait fuel more ((ph + 56) % 2 ^ 32) eph d1 m1
  unfolding load_segments
  load_segments_step fuel more ph eph d m pa count off d1 m1 less e1 e2 e3 done =
      rw (less, e1, e2, e3, done, load_segments) refl

  load_segments_lem :
      (n fuel more o : ℕ) (d : ports.Device) (m : Memory)
      → AllLoadable image fuel n (file + o)
      → Agrees image m
      → o + n * 56 ≤ 4096
      → n < more
      → (d' : ports.Device) × (load_segments ports wait fuel more
            (elfhdr + o)
            (elfhdr + o + n * 56)
            d
            m
          ≡ some (d', loaded image n (file + o) m))
  unfolding load_segments
  load_segments_lem n fuel zero o d m l agrees h f = absurd (omega arith)
  load_segments_lem zero fuel (suc more) o d m l agrees h f =
      let done : ltb (elfhdr + o) (elfhdr + o + zero * 56) ≡ false = ground arith in
      (d, rw (done, load_segments) refl)
  load_segments_lem (suc n) fuel (suc more) o d m (l, ls) agrees h f =
      let hdr = file + o in
      let pa = p_pa image hdr in
      let count = p_memsz image hdr in
      let off = p_offset image hdr in
      let (d1, done) =
        readseg-patch ports image latency ide wait patient fuel pa count off d m l.below l.on_disk
          l.fuelled in
      let m1 = segment_in image pa count off m in
      let e1 : p_pa m (elfhdr + o) % 2 ^ 32 ≡ pa =
        ap (λ x. x % 2 ^ 32)
          (field image m 8 (o + 24) (elfhdr + o + 24) (hdr + 24) agrees (omega arith) (omega arith)
            (omega arith))
        ∙ low32 pa (omega (arith, l.below)) in
      let e2 : p_memsz m (elfhdr + o) % 2 ^ 32 ≡ count =
        ap (λ x. x % 2 ^ 32)
          (field image m 8 (o + 40) (elfhdr + o + 40) (hdr + 40) agrees (omega arith) (omega arith)
            (omega arith))
        ∙ low32 count (omega (arith, l.below)) in
      let e3 : p_offset m (elfhdr + o) % 2 ^ 32 ≡ off =
        ap (λ x. x % 2 ^ 32)
          (field image m 8 (o + 8) (elfhdr + o + 8) (hdr + 8) agrees (omega arith) (omega arith)
            (omega arith))
        ∙ low32 off l.near in
      let next : (elfhdr + o + 56) % 2 ^ 32 ≡ elfhdr + (o + 56) = omega arith in
      let end : elfhdr + o + suc n * 56 ≡ elfhdr + (o + 56) + n * 56 = omega arith in
      let (d2, rest) =
        load_segments_lem n fuel more (o + 56) d1 m1
          (subst (AllLoadable image fuel n) (omega arith) ls)
          (Agrees-segment_in image m fuel hdr l agrees) (omega arith) (omega arith) in
      (
        d2,
        load_segments_step fuel more (elfhdr + o) (elfhdr + o + suc n * 56) d m pa count off d1 m1
              (lt→ltb (elfhdr + o) (elfhdr + o + suc n * 56) (omega arith)) e1 e2 e3 done
            ∙ ap₂ (λ x y. load_segments ports wait fuel more x y d1 m1) next end
            ∙ rest
            ∙ ap (λ x. some (d2, loaded image n x m1)) (omega arith),
      )

  bootmain_step :
      (outw : ℕ → ℕ → ports.Device → ports.Device) (fuel more : ℕ) (d : ports.Device) (m : Memory)
      (d1 : ports.Device) (m1 : Memory) (d2 : ports.Device) (m2 : Memory)
      → readseg ports wait fuel elfhdr 4096 0 d m ≡ some (d1, m1)
      → e_magic m1 elfhdr ≡ elf_magic
      → load_segments ports wait fuel more
          ((elfhdr + e_phoff m1 elfhdr) % 2 ^ 32)
          (((elfhdr + e_phoff m1 elfhdr) % 2 ^ 32 + e_phnum m1 elfhdr * 56) % 2 ^ 32)
          d1
          m1
        ≡ some (d2, m2)
      → bootmain ports wait outw fuel more d m ≡ some (entered (e_entry m2 elfhdr % 2 ^ 32), d2, m2)
  unfolding bootmain
  bootmain_step outw fuel more d m d1 m1 d2 m2 done magic segments =
      let right : (e_magic m1 elfhdr == elf_magic) ≡ true =
        (==_iff (e_magic m1 elfhdr) elf_magic).1 magic in
      rw (done, right, segments, bootmain) refl

  bootmain_stop :
      (outw : ℕ → ℕ → ports.Device → ports.Device) (fuel more : ℕ) (d : ports.Device) (m : Memory)
      (d1 : ports.Device) (m1 : Memory)
      → readseg ports wait fuel elfhdr 4096 0 d m ≡ some (d1, m1)
      → e_magic m1 elfhdr ≢ elf_magic
      → bootmain ports wait outw fuel more d m
        ≡ some (bad, outw 0x8A00 0x8E00 (outw 0x8A00 0x8A00 d1), m1)
  unfolding bootmain
  bootmain_stop outw fuel more d m d1 m1 done magic =
      let wrong : (e_magic m1 elfhdr == elf_magic) ≡ false = ground (arith, magic) in
      rw (done, wrong, bootmain) refl

  -- Of a disk that holds, from its second sector on, an ELF file with the right magic number and
  -- with its program headers in its first 4096 bytes, each of them loadable, and with fuel for the
  -- segments, their sectors and the disk's latency, `bootmain` reads for each header, in their order,
  -- whole sectors from the one with the segment's offset on, into memory from the segment's address
  -- rounded down to 512 on, and enters the kernel at the address that the file names.
  pub bootmain_lem :
      (outw : ℕ → ℕ → ports.Device → ports.Device) (fuel more : ℕ) (d : ports.Device) (m : Memory)
      → e_magic image file ≡ elf_magic
      → e_phoff image file + e_phnum image file * 56 ≤ 4096
      → AllLoadable image fuel (e_phnum image file) (file + e_phoff image file)
      → e_phnum image file < more
      → 8 < fuel
      → (d' : ports.Device) × (bootmain ports wait outw fuel more d m
          ≡ some (
            entered (e_entry image file % 2 ^ 32),
            d',
            loaded image
                (e_phnum image file)
                (file + e_phoff image file)
                (segment_in image elfhdr 4096 0 m),
          ))
  unfolding bootmain
  bootmain_lem outw fuel more d m magic inside all f f8 =
      let (d1, done) =
        readseg-patch ports image latency ide wait patient fuel elfhdr 4096 0 d m (omega arith)
          (omega arith) f8 in
      let m1 = segment_in image elfhdr 4096 0 m in
      let agrees = Agrees-header image m in
      let o = e_phoff image file in
      let n = e_phnum image file in
      let phoff : e_phoff m1 elfhdr ≡ o =
        field image m1 8 32 (elfhdr + 32) (file + 32) agrees refl refl (omega arith) in
      let phnum : e_phnum m1 elfhdr ≡ n =
        field image m1 2 56 (elfhdr + 56) (file + 56) agrees refl refl (omega arith) in
      let (d2, segments) = load_segments_lem n fuel more o d1 m1 all agrees inside f in
      let m2 = loaded image n (file + o) m1 in
      let entry : e_entry m2 elfhdr ≡ e_entry image file =
        field image m2 8 24 (elfhdr + 24) (file + 24)
          (Agrees-loaded image n fuel (file + o) m1 all agrees) refl refl (omega arith) in
      (
        d2,
        bootmain_step outw fuel more d m d1 m1 d2 m2 done
              (field image m1 4 0 elfhdr file agrees refl refl (omega arith) ∙ magic)
              (ap₂ (λ x y. load_segments ports wait fuel more x y d1 m1)
                  (ap (λ x. (elfhdr + x) % 2 ^ 32) phoff ∙ low32 (elfhdr + o) (omega arith))
                  (ap₂ (λ x y. ((elfhdr + x) % 2 ^ 32 + y * 56) % 2 ^ 32) phoff phnum ∙ omega arith)
                ∙ segments)
            ∙ ap (λ x. some (entered (x % 2 ^ 32), d2, m2)) entry,
      )

  -- If the magic number is wrong, the loader has read 4096 bytes, writes two words to a port and
  -- stays in its endless loop.
  pub bootmain-bad :
      (outw : ℕ → ℕ → ports.Device → ports.Device) (fuel more : ℕ) (d : ports.Device) (m : Memory)
      → e_magic image file ≢ elf_magic
      → 8 < fuel
      → (d' : ports.Device) × (bootmain ports wait outw fuel more d m
          ≡ some
              (bad, outw 0x8A00 0x8E00 (outw 0x8A00 0x8A00 d'), segment_in image elfhdr 4096 0 m))
  unfolding bootmain
  bootmain-bad outw fuel more d m magic f8 =
      let (d1, done) =
        readseg-patch ports image latency ide wait patient fuel elfhdr 4096 0 d m (omega arith)
          (omega arith) f8 in
      let m1 = segment_in image elfhdr 4096 0 m in
      let same : e_magic m1 elfhdr ≡ e_magic image file =
        field image m1 4 0 elfhdr file (Agrees-header image m) refl refl (omega arith) in
      (d1, bootmain_stop outw fuel more d m d1 m1 done λ e. magic (sym same ∙ e))
