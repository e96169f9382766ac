-- ===== src/Disk/Toy.antt =====
-- A disk controller that is busy after a command, which shows that `IsIde` can hold.
use mit_jos_cse.Prelude.{
  ℕ, zero, suc, ◌+◌, ◌*◌, ◌%◌, ◌^◌, ◌<◌, ◌≡◌, refl, ◌∙◌, List, [], ◌==◌, if◌then◌else◌, arith,
  bytes, Memory, store, Bool, true, false, not,
}
use mit_jos_cse.Disk.{Ports, IsIde, IsReady, polled}

-- The registers, the buffer, and whether a command is under way.
pub record Controller : Type 0 where
  pub regs : Memory
  pub buffer : List ℕ
  pub busy : Bool

abbrev lba : Memory → ℕ
lba r = r 0x1F3 + r 0x1F4 * 2 ^ 8 + r 0x1F5 * 2 ^ 16 + r 0x1F6 % 2 ^ 4 * 2 ^ 24

-- The status says "busy" once after a command. Until then writes are lost and there is no data.
abbrev pub toy_ports : Memory → Ports
toy_ports image = record {
  Device = Controller;
  inb = λ p d. (if d.busy then 0x80 else 0x40, record d { busy = false });
  outb = λ p v d.
      if d.busy
      then d
      else if p == 0x1F7
      then record d { buffer = bytes image (lba d.regs * 512) 512; busy = true }
      else record d { regs = store d.regs p v };
  insl = λ p n d. (if d.busy then [] else d.buffer, d);
}

toy_idle :
    (image : Memory) (p v : ℕ) (d : Controller)
    → p < 0x1F7
    → not d.busy ≡ true
    → not ((toy_ports image).outb p v d).busy ≡ true
toy_idle image p v d h i = ground (arith, h, i)

toy_reg :
    (image : Memory) (p v q : ℕ) (d : Controller)
    → p < 0x1F7
    → not d.busy ≡ true
    → ((toy_ports image).outb p v d).regs q ≡ (if q == p then v else d.regs q)
toy_reg image p v q d h i = ground (arith, h, i)

toy_polled :
    (image : Memory) (k : ℕ) (d : Controller) → (polled (toy_ports image) k d).buffer ≡ d.buffer
toy_polled image zero d = refl
toy_polled image (suc k) d = toy_polled image k (record d { busy = false })

toy_ready :
    (image : Memory) (d : Controller)
    → (k : ℕ) × (k < 2) × IsReady ((toy_ports image).inb 0x1F7 (polled (toy_ports image) k d)).0
toy_ready image d = (1, omega arith, refl)

toy_read :
    (image : Memory) (d : Controller) (k : ℕ)
    → not d.busy ≡ true
    → let d' = polled (toy_ports image) k ((toy_ports image).outb 0x1F7 0x20 d) in
      ((toy_ports image).insl 0x1F0 128 ((toy_ports image).inb 0x1F7 d').1).0
      ≡ bytes image (lba d.regs * 512) 512
toy_read image d k i = toy_polled image k ((toy_ports image).outb 0x1F7 0x20 d) ∙ ground (arith, i)

pub toy-IsIde : (image : Memory) → IsIde (toy_ports image) image 2
toy-IsIde image = record {
  reg = λ q d. d.regs q;
  idle = λ d. not d.busy;
  idle-inb = λ d r. refl;
  idle-outb = toy_idle image;
  reg-outb = toy_reg image;
  ready = toy_ready image;
  sector_read = λ d k i one mode r. toy_read image d k i;
}

abbrev pub power_on : Controller
power_on = record { regs = λ a. 0; buffer = []; busy = false }
