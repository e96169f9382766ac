-- ===== src/Disk/Sector.antt =====
-- `readsect` on a disk.
use Prim.Native.Nat.{bit_and, bit_or}
use mit_jos_cse.Prelude.{
  ℕ, zero, suc, ◌+◌, ◌*◌, ◌/◌, ◌%◌, ◌^◌, ◌≤◌, ◌<◌, ◌≡◌, refl, ap, ◌∙◌, some, Bool, true, ◌==◌,
  arith, Memory, blit, bytes, passes, passes_at, Bool-cases, inl, inr,
}
use mit_jos_cse.Disk.{Ports, IsIde, waitdisk, select_sector, readsect, polled, IsReady}
use mit_jos_cse.Disk.Patch.{patch, blit-bytes}

lba_bits : ℕ → Bool
lba_bits v = bit_or v 0xE0 == v + 0xE0

lba_table : passes lba_bits 16 ≡ true
unfolding passes lba_bits
lba_table = refl

lba_mode : (v : ℕ) → v < 16 → bit_or v 0xE0 ≡ v + 0xE0
unfolding lba_bits
lba_mode v h = ground (arith, passes_at lba_bits 16 v h lba_table)

module _ (ports : Ports) where
  -- `waitdisk` stops at a status that is ready, at the latest at the first.
  waitdisk_lem :
      (fuel k : ℕ) (d : ports.Device)
      → IsReady (ports.inb 0x1F7 (polled ports k d)).0
      → k < fuel
      → (j : ℕ) × (waitdisk ports fuel d ≡ some (ports.inb 0x1F7 (polled ports j d)).1)
        × IsReady (ports.inb 0x1F7 (polled ports j d)).0
  unfolding waitdisk
  waitdisk_lem zero k d r f = absurd (omega arith)
  waitdisk_lem (suc fuel) zero d r f = (0, rw (r, waitdisk) refl, r)
  waitdisk_lem (suc fuel) (suc k) d r f =
      elim (Bool-cases (bit_and (ports.inb 0x1F7 d).0 0xC0 == 0x40)) [
        | inl e ↦ (0, rw (e, waitdisk) refl, ground (arith, e))
        | inr e ↦
            let (j, found, last) = waitdisk_lem fuel k (ports.inb 0x1F7 d).1 r (omega arith) in
            (suc j, rw (e, waitdisk) found, last)
      ]

  module _ (image : ℕ → ℕ) (latency : ℕ) (ide : IsIde ports image latency) where
    waitdisk-ready :
        (fuel : ℕ) (d : ports.Device)
        → latency ≤ fuel
        → (j : ℕ) × (waitdisk ports fuel d ≡ some (ports.inb 0x1F7 (polled ports j d)).1)
          × IsReady (ports.inb 0x1F7 (polled ports j d)).0
    waitdisk-ready fuel d f =
        let (k, below, r) = ide.ready d in waitdisk_lem fuel k d r (omega arith)

    selected :
        (offset j : ℕ) (d : ports.Device)
        → offset < 2 ^ 28
        → ide.idle d ≡ true
        → let d' = polled ports j (select_sector ports offset d) in
          IsReady (ports.inb 0x1F7 d').0
          → (ports.insl 0x1F0 128 (ports.inb 0x1F7 d').1).0 ≡ bytes image (offset * 512) 512
    unfolding select_sector
    selected offset j d h i1 last =
        let v3 = offset % 2 ^ 8 in
        let v4 = offset / 2 ^ 8 % 2 ^ 8 in
        let v5 = offset / 2 ^ 16 % 2 ^ 8 in
        let v6 = bit_or (offset / 2 ^ 24) 0xE0 % 2 ^ 8 in
        let d2 = ports.outb 0x1F2 1 d in
        let d3 = ports.outb 0x1F3 v3 d2 in
        let d4 = ports.outb 0x1F4 v4 d3 in
        let d5 = ports.outb 0x1F5 v5 d4 in
        let d6 = ports.outb 0x1F6 v6 d5 in
        let i2 = ide.idle-outb 0x1F2 1 d (omega arith) i1 in
        let i3 = ide.idle-outb 0x1F3 v3 d2 (omega arith) i2 in
        let i4 = ide.idle-outb 0x1F4 v4 d3 (omega arith) i3 in
        let i5 = ide.idle-outb 0x1F5 v5 d4 (omega arith) i4 in
        let i6 = ide.idle-outb 0x1F6 v6 d5 (omega arith) i5 in
        let r2 : ide.reg 0x1F2 d6 ≡ 1 =
          ide.reg-outb 0x1F6 v6 0x1F2 d5 (omega arith) i5
          ∙ ide.reg-outb 0x1F5 v5 0x1F2 d4 (omega arith) i4
          ∙ ide.reg-outb 0x1F4 v4 0x1F2 d3 (omega arith) i3
          ∙ ide.reg-outb 0x1F3 v3 0x1F2 d2 (omega arith) i2
          ∙ ide.reg-outb 0x1F2 1 0x1F2 d (omega arith) i1 in
        let r3 : ide.reg 0x1F3 d6 ≡ v3 =
          ide.reg-outb 0x1F6 v6 0x1F3 d5 (omega arith) i5
          ∙ ide.reg-outb 0x1F5 v5 0x1F3 d4 (omega arith) i4
          ∙ ide.reg-outb 0x1F4 v4 0x1F3 d3 (omega arith) i3
          ∙ ide.reg-outb 0x1F3 v3 0x1F3 d2 (omega arith) i2 in
        let r4 : ide.reg 0x1F4 d6 ≡ v4 =
          ide.reg-outb 0x1F6 v6 0x1F4 d5 (omega arith) i5
          ∙ ide.reg-outb 0x1F5 v5 0x1F4 d4 (omega arith) i4
          ∙ ide.reg-outb 0x1F4 v4 0x1F4 d3 (omega arith) i3 in
        let r5 : ide.reg 0x1F5 d6 ≡ v5 =
          ide.reg-outb 0x1F6 v6 0x1F5 d5 (omega arith) i5
          ∙ ide.reg-outb 0x1F5 v5 0x1F5 d4 (omega arith) i4 in
        let r6 : ide.reg 0x1F6 d6 ≡ v6 = ide.reg-outb 0x1F6 v6 0x1F6 d5 (omega arith) i5 in
        let high : v6 ≡ offset / 2 ^ 24 + 0xE0 =
          omega (arith, lba_mode (offset / 2 ^ 24) (omega arith)) in
        ide.sector_read d6 j i6 r2 (omega (arith, r6, high)) last
        ∙ ap (λ n. bytes image (n * 512) 512) (omega (arith, r3, r4, r5, r6, high))

    -- With fuel for the disk's latency, `readsect` of a sector number of 28 bits ends, and puts the
    -- sector's 512 bytes at the destination.
    pub readsect_lem :
        (fuel dst offset : ℕ) (d : ports.Device) (m : Memory)
        → latency ≤ fuel
        → offset < 2 ^ 28
        → (d' : ports.Device) × (readsect ports fuel dst offset d m
            ≡ some (d', patch m dst 512 image (offset * 512)))
    unfolding readsect
    readsect_lem fuel dst offset d m f h =
        let (j, first, idle) = waitdisk-ready fuel d f in
        let d1 = (ports.inb 0x1F7 (polled ports j d)).1 in
        let (k, second, last) = waitdisk-ready fuel (select_sector ports offset d1) f in
        let d2 = (ports.inb 0x1F7 (polled ports k (select_sector ports offset d1))).1 in
        let read = selected offset k d1 h (ide.idle-inb (polled ports j d) idle) last in
        (
          (ports.insl 0x1F0 128 d2).1,
          rw (first, second, readsect)
              (ap (λ l. some ((ports.insl 0x1F0 128 d2).1, blit m dst l)) read
                ∙ ap (λ x. some ((ports.insl 0x1F0 128 d2).1, x))
                    (blit-bytes m dst 512 image (offset * 512))),
        )
