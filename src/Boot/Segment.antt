-- ===== src/Boot/Segment.antt =====
-- boot/main.c: `readseg` on a disk.
use Prim.Native.Nat.{bit_and}
use mit_jos_cse.Prelude.{
  ℕ, zero, suc, ◌+◌, ◌-◌, ◌*◌, ◌/◌, ◌%◌, ◌^◌, ◌≤◌, ◌<◌, ◌≡◌, refl, sym, ap, ap₂, ◌∙◌, some, true,
  false, ltb, arith, Memory, bytes, Outside, bit_and_field,
}
use mit_jos_cse.Disk.{Ports, IsIde, readsect}
use mit_jos_cse.Disk.Patch.{patch, patch_sector, patch_none, bytes-patch, patch-Outside}
use mit_jos_cse.Disk.Sector.{readsect_lem}
use mit_jos_cse.Boot.{read_sectors, readseg}

-- How many sectors it takes from `pa` to `end_pa`.
abbrev pub sectors : ℕ → ℕ → ℕ
sectors pa end_pa = (end_pa - pa + 511) / 512

-- The first byte of the sector-sized block that `pa` lies in.
abbrev pub block : ℕ → ℕ
block pa = pa / 512 * 512

-- The memory with a segment read, a whole block at a time.
abbrev pub segment_in : (ℕ → ℕ) → ℕ → ℕ → ℕ → Memory → Memory
segment_in image pa count offset m =
    patch m (block pa) (sectors (block pa) (pa + count) * 512) image ((offset / 512 + 1) * 512)

module _ (ports : Ports) (image : ℕ → ℕ) (latency : ℕ) (ide : IsIde ports image latency) (wait : ℕ)
    (patient : latency ≤ wait) where
  read_sectors_step :
      (fuel pa end_pa offset : ℕ) (d : ports.Device) (m : Memory) (d1 : ports.Device) (m1 : Memory)
      → ltb pa end_pa ≡ true
      → readsect ports wait pa offset d m ≡ some (d1, m1)
      → read_sectors ports wait (suc fuel) pa end_pa offset d m
        ≡ read_sectors ports wait fuel ((pa + 512) % 2 ^ 32) end_pa ((offset + 1) % 2 ^ 32) d1 m1
  unfolding read_sectors
  read_sectors_step fuel pa end_pa offset d m d1 m1 more one = rw (more, one, read_sectors) refl

  read_sectors_lem :
      (n fuel pa end_pa offset : ℕ) (d : ports.Device) (m : Memory)
      → sectors pa end_pa ≡ n
      → n < fuel
      → pa + n * 512 < 2 ^ 32
      → offset + n ≤ 2 ^ 28
      → (d' : ports.Device) × (read_sectors ports wait fuel pa end_pa offset d m
          ≡ some (d', patch m pa (n * 512) image (offset * 512)))
  unfolding read_sectors
  read_sectors_lem n zero pa end_pa offset d m e f a o = absurd (omega arith)
  read_sectors_lem zero (suc fuel) pa end_pa offset d m e f a o =
      let done : ltb pa end_pa ≡ false = ground arith in
      (
        d,
        rw (done, read_sectors)
            (ap (λ x. some (d, x)) (sym (patch_none m pa image (offset * 512)))),
      )
  read_sectors_lem (suc n) (suc fuel) pa end_pa offset d m e f a o =
      let more : ltb pa end_pa ≡ true = ground arith in
      let (d1, one) =
        readsect_lem ports image latency ide wait pa offset d m patient (omega arith) in
      let m1 = patch m pa 512 image (offset * 512) in
      let pa' : (pa + 512) % 2 ^ 32 ≡ pa + 512 = omega arith in
      let offset' : (offset + 1) % 2 ^ 32 ≡ offset + 1 = omega arith in
      let (d2, rest) =
        read_sectors_lem n fuel (pa + 512) end_pa (offset + 1) d1 m1 (omega arith) (omega arith)
          (omega arith) (omega arith) in
      (
        d2,
        read_sectors_step fuel pa end_pa offset d m d1 m1 more one
            ∙ ap₂ (λ x y. read_sectors ports wait fuel x end_pa y d1 m1) pa' offset'
            ∙ rest
            ∙ ap (λ x. some (d2, x)) (patch_sector m pa n image offset),
      )

  pub readseg-patch :
      (fuel pa count offset : ℕ) (d : ports.Device) (m : Memory)
      → pa + count + 512 ≤ 2 ^ 32
      → offset / 512 + 1 + sectors (block pa) (pa + count) ≤ 2 ^ 28
      → sectors (block pa) (pa + count) < fuel
      → (d' : ports.Device) × (readseg ports wait fuel pa count offset d m
          ≡ some (d', segment_in image pa count offset m))
  unfolding readseg
  readseg-patch fuel pa count offset d m a o f =
      let down : bit_and pa (2 ^ 32 - 512) ≡ block pa = bit_and_field 9 23 pa ∙ omega arith in
      let end : (pa + count) % 2 ^ 32 ≡ pa + count = omega arith in
      rw (down, end, readseg)
        (read_sectors_lem (sectors (block pa) (pa + count)) fuel (block pa) (pa + count)
          (offset / 512 + 1) d m refl f (omega arith) o)

  -- For a segment that ends a sector below 2 ^ 32 and on the part of the disk that 28 bits address,
  -- with fuel for its sectors and for the disk's latency, `readseg` ends. If the address and the
  -- offset lie alike in their sectors, the `count` bytes at `pa` are those of the kernel file from
  -- `offset` on, which begins at the second sector. Nothing changes but the sector-sized blocks
  -- that the segment meets.
  pub readseg_lem :
      (fuel pa count offset : ℕ) (d : ports.Device) (m : Memory)
      → pa + count + 512 ≤ 2 ^ 32
      → offset / 512 + 1 + sectors (block pa) (pa + count) ≤ 2 ^ 28
      → sectors (block pa) (pa + count) < fuel
      → pa % 512 ≡ offset % 512
      → (d' : ports.Device) × (m' : Memory) × (readseg ports wait fuel pa count offset d m
          ≡ some (d', m'))
        × (bytes m' pa count ≡ bytes image (512 + offset) count)
        × ((x : ℕ) → Outside (block pa) (sectors (block pa) (pa + count) * 512) x → m' x ≡ m x)
  readseg_lem fuel pa count offset d m a o f e =
      let (d', done) = readseg-patch fuel pa count offset d m a o f in
      let n = sectors (block pa) (pa + count) * 512 in
      let s = (offset / 512 + 1) * 512 in
      (
        d',
        segment_in image pa count offset m,
        done,
        ap (λ x. bytes (segment_in image pa count offset m) x count) (omega arith)
            ∙ bytes-patch m (block pa) n image s (pa % 512) count (omega arith)
            ∙ ap (λ x. bytes image x count) (omega arith),
        λ x out. patch-Outside m (block pa) n image s x out,
      )
