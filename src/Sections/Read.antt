-- ===== src/Sections/Read.antt =====
-- kern/elf_rw.c: `readseg` on a disk.
use Prim.Native.Nat.{bit_and}
use mit_jos_cse.Prelude.{
  ℕ, zero, suc, ◌+◌, ◌-◌, ◌*◌, ◌/◌, ◌%◌, ◌^◌, ◌≤◌, ◌<◌, ◌≡◌, inl, inr, refl, sym, ap, ◌∙◌, some,
  true, false, ltb, arith, Memory, bytes, Outside, bit_and_field, ok, if◌then◌else◌, Bool-cases,
}
use mit_jos_cse.Disk.{Ports, IsIde}
use mit_jos_cse.Disk
use mit_jos_cse.Disk.Patch.{
  patch, patch-patch, patch_sector, patch_none, bytes-patch, patch-Outside,
}
use mit_jos_cse.Disk.Sector.{readsect_lem}
use mit_jos_cse.Sections.{Progress, readsect, read_sectors, read_last, readseg}

-- How many sectors `readseg` reads.
abbrev pub whole : ℕ → ℕ
whole count = (count + 511) / 512

abbrev pub sectors_read : ℕ → ℕ → ℕ
sectors_read count offset = if ltb 512 (offset % 512 + count) then whole count + 1 else whole count

-- The memory with these sectors put at `pa`.
abbrev pub segment_at : (ℕ → ℕ) → ℕ → ℕ → ℕ → Memory → Memory
segment_at image pa count offset m =
    patch m pa (sectors_read count offset * 512) image ((offset / 512 + 1) * 512)

segment_at-bytes :
    (image : ℕ → ℕ) (m : Memory) (pa count offset : ℕ)
    → bytes (segment_at image pa count offset m) (pa + offset % 512) count
      ≡ bytes image (512 + offset) count
segment_at-bytes image m pa zero offset = refl
segment_at-bytes image m pa (suc c) offset =
    bytes-patch m pa (sectors_read (suc c) offset * 512) image ((offset / 512 + 1) * 512)
      (offset % 512) (suc c) (ground arith)
    ∙ ap (λ x. bytes image x (suc c)) (omega arith)

module _ (ports : Ports) (image : ℕ → ℕ) (latency : ℕ) (ide : IsIde ports image latency) (wait : ℕ)
    (patient : latency ≤ wait) where
  progress_ext :
      {a a' b b' c c' : ℕ} {m m' : Memory} (d : ports.Device)
      → a ≡ a'
      → b ≡ b'
      → c ≡ c'
      → m ≡ m'
      → Path (Progress ports wait) (a, b, c, d, m) (a', b', c', d, m')
  progress_ext d p q r s = λ i. (p i, q i, r i, d, s i)

  read_sectors_step :
      (fuel pa end_pa offset k : ℕ) (d : ports.Device) (m : Memory) (d1 : ports.Device)
      (m1 : Memory)
      → ltb pa end_pa ≡ true
      → Disk.readsect ports wait pa offset d m ≡ some (d1, m1)
      → read_sectors ports wait (suc fuel) end_pa (pa, offset, k, d, m)
        ≡ read_sectors ports wait fuel end_pa
            ((pa + 512) % 2 ^ 64, (offset + 1) % 2 ^ 64, (k + 512) % 2 ^ 64, d1, m1)
  unfolding read_sectors readsect
  read_sectors_step fuel pa end_pa offset k d m d1 m1 more one = rw (more, one, read_sectors) refl

  read_sectors_lem :
      (n fuel pa end_pa offset k : ℕ) (d : ports.Device) (m : Memory)
      → whole (end_pa - pa) ≡ n
      → n < fuel
      → pa + n * 512 < 2 ^ 64
      → k + n * 512 < 2 ^ 64
      → offset + n ≤ 2 ^ 28
      → (d' : ports.Device) × (read_sectors ports wait fuel end_pa (pa, offset, k, d, m)
          ≡ ok (
            pa + n * 512,
            offset + n,
            k + n * 512,
            d',
            patch m pa (n * 512) image (offset * 512),
          ))
  unfolding read_sectors
  read_sectors_lem n zero pa end_pa offset k d m e f a b o = absurd (omega arith)
  read_sectors_lem zero (suc fuel) pa end_pa offset k d m e f a b o =
      let done : ltb pa end_pa ≡ false = ground arith in
      let same : (pa + 0 ≡ pa) × (offset + 0 ≡ offset) × (k + 0 ≡ k) = omega arith in
      (
        d,
        rw (done, read_sectors, same.0, same.1, same.2)
            (ap (λ x. ok (pa, offset, k, d, x)) (sym (patch_none m pa image (offset * 512)))),
      )
  read_sectors_lem (suc n) (suc fuel) pa end_pa offset k d m e f a b o =
      let more : ltb pa end_pa ≡ true = ground arith in
      let (d1, one) =
        readsect_lem ports image latency ide wait pa offset d m patient (omega arith) in
      let m1 = patch m pa 512 image (offset * 512) in
      let next : ((pa + 512) % 2 ^ 64 ≡ pa + 512)
          × ((offset + 1) % 2 ^ 64 ≡ offset + 1)
          × ((k + 512) % 2 ^ 64 ≡ k + 512) =
        omega arith in
      let (d2, rest) =
        read_sectors_lem n fuel (pa + 512) end_pa (offset + 1) (k + 512) d1 m1 (omega arith)
          (omega arith) (omega arith) (omega arith) (omega arith) in
      let last : (pa + 512 + n * 512 ≡ pa + suc n * 512)
          × (offset + 1 + n ≡ offset + suc n)
          × (k + 512 + n * 512 ≡ k + suc n * 512) =
        omega arith in
      (
        d2,
        read_sectors_step fuel pa end_pa offset k d m d1 m1 more one
            ∙ ap (read_sectors ports wait fuel end_pa) (progress_ext d1 next.0 next.1 next.2 refl)
            ∙ rest
            ∙ ap ok (progress_ext d2 last.0 last.1 last.2 (patch_sector m pa n image offset)),
      )

  read_last-more :
      (reach pa offset k : ℕ) (d : ports.Device) (m : Memory)
      → ltb 512 reach ≡ true
      → k + 512 < 2 ^ 64
      → offset < 2 ^ 28
      → (d' : ports.Device) × (read_last ports wait reach (pa, offset, k, d, m)
          ≡ ok (k + 512, d', patch m pa 512 image (offset * 512)))
  unfolding read_last readsect
  read_last-more reach pa offset k d m r b o =
      let (d', one) = readsect_lem ports image latency ide wait pa offset d m patient o in
      let end : (k + 512) % 2 ^ 64 ≡ k + 512 = omega arith in (d', rw (r, one, end, read_last) refl)

  read_last-done :
      (reach pa offset k : ℕ) (d : ports.Device) (m : Memory)
      → ltb 512 reach ≡ false
      → read_last ports wait reach (pa, offset, k, d, m) ≡ ok (k, d, m)
  unfolding read_last readsect
  read_last-done reach pa offset k d m r = rw (r, read_last) refl

  -- The parts of `readseg` put together.
  readseg_step :
      (fuel pa count offset k : ℕ) (d : ports.Device) (m : Memory) (s : Progress ports wait)
      (k' : ℕ) (d' : ports.Device) (m' : Memory)
      → pa % 512 ≡ 0
      → read_sectors ports wait fuel (pa + count) (pa, offset / 512 + 1, k, d, m) ≡ ok s
      → read_last ports wait (offset % 512 + count) s ≡ ok (k', d', m')
      → k' % 512 ≡ 0
      → pa + count < 2 ^ 64
      → offset % 512 + count < 2 ^ 64
      → readseg ports wait fuel pa count offset (k, d, m) ≡ ok (k', d', m')
  unfolding readseg
  readseg_step fuel pa count offset k d m s k' d' m' aligned loop last left a c =
      let down : bit_and pa (2 ^ 64 - 512) ≡ pa = bit_and_field 9 55 pa ∙ omega arith in
      let end : (pa + count) % 2 ^ 64 ≡ pa + count = omega arith in
      let reach : (offset % 512 + count) % 2 ^ 64 ≡ offset % 512 + count = omega arith in
      rw (aligned, down, end, reach, loop, last, left, readseg) refl

  pub readseg-segment_at :
      (fuel pa count offset k : ℕ) (d : ports.Device) (m : Memory)
      → pa % 512 ≡ 0
      → k % 512 ≡ 0
      → pa + count + 1024 < 2 ^ 64
      → k + count + 1024 < 2 ^ 64
      → offset + count + 1024 < 2 ^ 37
      → whole count < fuel
      → (d' : ports.Device) × (readseg ports wait fuel pa count offset (k, d, m)
          ≡ ok (k + sectors_read count offset * 512, d', segment_at image pa count offset m))
  readseg-segment_at fuel pa count offset k d m aligned left a b o f =
      let n = whole count in
      let start = offset / 512 + 1 in
      let m1 = patch m pa (n * 512) image (start * 512) in
      let (d1, loop) =
        read_sectors_lem n fuel pa (pa + count) start k d m (omega arith) f (omega arith)
          (omega arith) (omega arith) in
      elim (Bool-cases (ltb 512 (offset % 512 + count))) [
        | inl r ↦
            let (d2, last) =
              read_last-more (offset % 512 + count) (pa + n * 512) (start + n) (k + n * 512) d1 m1 r
                (omega arith) (omega arith) in
            let moved : patch m1 (pa + n * 512) 512 image ((start + n) * 512)
                ≡ patch m pa ((n + 1) * 512) image (start * 512) =
              ap (patch m1 (pa + n * 512) 512 image) (omega arith)
              ∙ patch-patch m pa (n * 512) 512 image (start * 512)
              ∙ ap (λ x. patch m pa x image (start * 512)) (omega arith) in
            let total : k + n * 512 + 512 ≡ k + (n + 1) * 512 = omega arith in
            (
              d2,
              rw r (
                  readseg_step fuel pa count offset k d m
                    (pa + n * 512, start + n, k + n * 512, d1, m1) (k + n * 512 + 512) d2
                    (patch m1 (pa + n * 512) 512 image ((start + n) * 512)) aligned loop last
                    (omega arith) (omega arith) (omega arith)
                  ∙ λ i. ok (total i, d2, moved i)),
            )
        | inr r ↦ (
          d1,
          rw r (
              readseg_step fuel pa count offset k d m (pa + n * 512, start + n, k + n * 512, d1, m1)
                (k + n * 512) d1 m1 aligned loop
                (read_last-done (offset % 512 + count) (pa + n * 512) (start + n) (k + n * 512) d1
                  m1 r)
                (omega arith) (omega arith) (omega arith)),
        )
      ]

  -- For a `pa` and a `kvoffset` that are multiples of the sector size, a segment below the ends of
  -- the address space and of what 28 bits of sector number address, and fuel for its sectors and for
  -- the disk's latency, `readseg` of the kernel ends. The `count` bytes of the kernel's file from
  -- `offset` on then stand at `pa + offset % 512`, `kvoffset` has moved on by the sectors that were
  -- read, so that it is a multiple of the sector size behind these bytes, and the memory outside of
  -- these sectors is as it was.
  pub readseg_loads :
      (fuel pa count offset k : ℕ) (d : ports.Device) (m : Memory)
      → pa % 512 ≡ 0
      → k % 512 ≡ 0
      → pa + count + 1024 < 2 ^ 64
      → k + count + 1024 < 2 ^ 64
      → offset + count + 1024 < 2 ^ 37
      → whole count < fuel
      → (k' : ℕ) × (d' : ports.Device) × (m' : Memory) × (readseg ports wait fuel pa count offset
            (k, d, m)
          ≡ ok (k', d', m'))
        × (bytes m' (pa + offset % 512) count ≡ bytes image (512 + offset) count)
        × (k' ≡ k + sectors_read count offset * 512)
        × (k' % 512 ≡ 0)
        × ((x : ℕ) → Outside pa (k' - k) x → m' x ≡ m x)
  readseg_loads fuel pa count offset k d m aligned left a b o f =
      let (d', done) = readseg-segment_at fuel pa count offset k d m aligned left a b o f in
      let n = sectors_read count offset in
      let size : k + n * 512 - k ≡ n * 512 = omega arith in
      let s = (offset / 512 + 1) * 512 in
      (
        k + n * 512,
        d',
        segment_at image pa count offset m,
        done,
        segment_at-bytes image m pa count offset,
        refl,
        omega arith,
        λ x out. patch-Outside m pa (n * 512) image s x (omega (arith, size, out)),
      )
