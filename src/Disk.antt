-- ===== src/Disk.antt =====
-- The IDE disk: `waitdisk` and `readsect` of boot/main.c and kern/elf_rw.c, which are the same code
-- but for the type of the sector number. The processor's port instructions are parameters.
pub mod Patch
pub mod Sector
pub mod Toy
use Prim.Native.Nat.{bit_and, bit_or}
use mit_jos_cse.Prelude.{
  ℕ, zero, suc, ◌+◌, ◌-◌, ◌*◌, ◌/◌, ◌%◌, ◌^◌, ◌<◌, ◌≡◌, Bool, true, List, Option, none, some, ◌==◌,
  if◌then◌else◌, Memory, blit, bytes,
}

-- The devices behind `inb(port)`, `outb(port, v)` and `insl(port, addr, cnt)`. The last gives the
-- bytes that the instruction stores from `addr` on.
pub record Ports : Type 1 where
  pub Device : Type 0
  pub inb : ℕ → Device → ℕ × Device
  pub outb : ℕ → ℕ → Device → Device
  pub insl : ℕ → ℕ → Device → List ℕ × Device

abbrev pub sectsize : ℕ
sectsize = 512

module _ (ports : Ports) where
  open ports use {Device, inb, outb, insl}

  unfoldable pub waitdisk : ℕ → Device → Option Device
  waitdisk zero d = none
  waitdisk (suc fuel) d =
      let (status, d') = inb 0x1F7 d in
      let rest = waitdisk fuel d' in if bit_and status 0xC0 == 0x40 then some d' else rest

  -- The writes to the ports, each of the low byte.
  unfoldable pub select_sector : ℕ → Device → Device
  select_sector offset d =
      let d1 = outb 0x1F2 1 d in
      let d2 = outb 0x1F3 (offset % 2 ^ 8) d1 in
      let d3 = outb 0x1F4 (offset / 2 ^ 8 % 2 ^ 8) d2 in
      let d4 = outb 0x1F5 (offset / 2 ^ 16 % 2 ^ 8) d3 in
      let d5 = outb 0x1F6 (bit_or (offset / 2 ^ 24) 0xE0 % 2 ^ 8) d4 in outb 0x1F7 0x20 d5

  unfoldable pub readsect : ℕ → ℕ → ℕ → Device → Memory → Option (Device × Memory)
  unfolding waitdisk select_sector
  readsect fuel dst offset d m = elim (waitdisk fuel d) [
    | none ↦ none
    | some d1 ↦ elim (waitdisk fuel (select_sector offset d1)) [
      | none ↦ none
      | some d2 ↦ let (words, d3) = insl 0x1F0 (sectsize / 4) d2 in some (d3, blit m dst words)
    ]
  ]

  -- The device after the status was read `k` times.
  abbrev pub polled : ℕ → Device → Device
  polled zero d = d
  polled (suc k) d = polled k (inb 0x1F7 d).1

-- A status whose bit BSY is off and whose bit DRDY is on.
abbrev pub IsReady : ℕ → Type 0
IsReady status = bit_and status 0xC0 ≡ 0x40

-- The documented behaviour of the controller, for a disk with the bytes `image`. A reading of the
-- status that says "ready" leaves it idle, and one of fewer than `latency` readings in a row does.
-- Only while it is idle does a write to one of the ports below the command's set its register, and
-- leave it idle, and is the command 0x20 taken. After the command the next 128 longs are the sector
-- that the registers name, if they ask for one sector in LBA mode, once a reading of the status has
-- said "ready"; nothing is said of the data before.
pub record IsIde (ports : Ports) (image : ℕ → ℕ) (latency : ℕ) : Type 0 where
  pub reg : ℕ → ports.Device → ℕ
  pub idle : ports.Device → Bool
  pub idle-inb :
      (d : ports.Device) → IsReady (ports.inb 0x1F7 d).0 → idle (ports.inb 0x1F7 d).1 ≡ true
  pub idle-outb :
      (p v : ℕ) (d : ports.Device) → p < 0x1F7 → idle d ≡ true → idle (ports.outb p v d) ≡ true
  pub reg-outb :
      (p v q : ℕ) (d : ports.Device)
      → p < 0x1F7
      → idle d ≡ true
      → reg q (ports.outb p v d) ≡ (if q == p then v else reg q d)
  pub ready :
      (d : ports.Device) → (k : ℕ) × (k < latency) × IsReady (ports.inb 0x1F7 (polled ports k d)).0
  pub sector_read :
      (d : ports.Device) (k : ℕ)
      → idle d ≡ true
      → reg 0x1F2 d ≡ 1
      → reg 0x1F6 d / 2 ^ 4 ≡ 0xE
      → let d' = polled ports k (ports.outb 0x1F7 0x20 d) in
        IsReady (ports.inb 0x1F7 d').0
        → (ports.insl 0x1F0 128 (ports.inb 0x1F7 d').1).0
          ≡ bytes image
              ((reg 0x1F3 d
                  + reg 0x1F4 d * 2 ^ 8
                  + reg 0x1F5 d * 2 ^ 16
                  + reg 0x1F6 d % 2 ^ 4 * 2 ^ 24)
                * 512)
              512
