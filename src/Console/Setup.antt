-- ===== src/Console/Setup.antt =====
-- kern/console.c: the serial port's input, and the initialisation of the devices. `peek` and `poke`
-- are the reads and writes of the 16-bit cells of the video memory, which a display that is not
-- there does not keep.
pub mod Warned
use Prim.Native.Nat.{bit_and, bit_or}
use mit_jos_cse.Prelude.{
  ℕ, ◌+◌, ◌-◌, ◌*◌, ◌/◌, ◌%◌, ◌^◌, List, [], Option, none, some, Bool, not, ◌==◌, if◌then◌else◌,
  codes,
}
use mit_jos_cse.Printf.Format.{literal}
use mit_jos_cse.Printf.Cprintf.{cprintf}
use mit_jos_cse.Mmu.Layout.{kernbase}
use mit_jos_cse.Console.Display.{Crt, cputchar}

abbrev pub com1 : ℕ
com1 = 0x3F8

abbrev pub com_rx : ℕ
com_rx = 0

abbrev pub com_tx : ℕ
com_tx = 0

abbrev pub com_dll : ℕ
com_dll = 0

abbrev pub com_dlm : ℕ
com_dlm = 1

abbrev pub com_ier : ℕ
com_ier = 1

abbrev pub com_ier_rdi : ℕ
com_ier_rdi = 0x01

abbrev pub com_iir : ℕ
com_iir = 2

abbrev pub com_fcr : ℕ
com_fcr = 2

abbrev pub com_lcr : ℕ
com_lcr = 3

abbrev pub com_lcr_dlab : ℕ
com_lcr_dlab = 0x80

abbrev pub com_lcr_wlen8 : ℕ
com_lcr_wlen8 = 0x03

abbrev pub com_mcr : ℕ
com_mcr = 4

abbrev pub com_lsr : ℕ
com_lsr = 5

abbrev pub com_lsr_data : ℕ
com_lsr_data = 0x01

abbrev pub mono_base : ℕ
mono_base = 0x3B4

abbrev pub mono_buf : ℕ
mono_buf = 0xB0000

abbrev pub cga_base : ℕ
cga_base = 0x3D4

abbrev pub cga_buf : ℕ
cga_buf = 0xB8000

module _ {ℓ} {D : Type ℓ} (inb : ℕ → D → ℕ × D) (outb : ℕ → ℕ → D → D) where
  unfoldable pub serial_proc_data : D → Option ℕ × D
  serial_proc_data d =
      let (status, d1) = inb (com1 + com_lsr) d in
      let (c, d2) = inb (com1 + com_rx) d1 in
      if bit_and status com_lsr_data == 0 then (none, d1) else (some c, d2)

  -- `serial_exists` and the devices
  unfoldable pub serial_init : D → Bool × D
  serial_init d =
      let d1 = outb (com1 + com_fcr) 0 d in
      let d2 = outb (com1 + com_lcr) com_lcr_dlab d1 in
      let d3 = outb (com1 + com_dll) (115200 / 9600) d2 in
      let d4 = outb (com1 + com_dlm) 0 d3 in
      let d5 = outb (com1 + com_lcr) (bit_and com_lcr_wlen8 (2 ^ 8 - 1 - com_lcr_dlab)) d4 in
      let d6 = outb (com1 + com_mcr) 0 d5 in
      let d7 = outb (com1 + com_ier) com_ier_rdi d6 in
      let (status, d8) = inb (com1 + com_lsr) d7 in
      (not (status == 0xFF), (inb (com1 + com_rx) (inb (com1 + com_iir) d8).1).1)

  module _ (peek : ℕ → D → ℕ × D) (poke : ℕ → ℕ → D → D) where
    -- Which display is there: `addr_6845` and the address of its cells.
    unfoldable pub find_display : D → (ℕ × ℕ) × D
    find_display d =
        let cp = kernbase + cga_buf in
        let (was, d1) = peek cp d in
        let d2 = poke cp 0xA55A d1 in
        let (kept, d3) = peek cp d2 in
        if kept == 0xA55A
        then ((cga_base, cp), poke cp was d3)
        else ((mono_base, kernbase + mono_buf), d3)

    -- `addr_6845`, `crt_buf` and `crt_pos`
    unfoldable pub cga_init : D → (ℕ × ℕ × ℕ) × D
    unfolding find_display
    cga_init d =
        let ((addr, cp), d1) = find_display d in
        let (high, d2) = inb (addr + 1) (outb addr 14 d1) in
        let (low, d3) = inb (addr + 1) (outb addr 15 d2) in
        ((addr, cp, bit_or (high * 2 ^ 8) low % 2 ^ 16), d3)

    unfoldable pub kbd_init : D → D
    kbd_init d = d

    -- `cells` are what the video memory holds from an address on. The result is `serial_exists`,
    -- `addr_6845`, and the console.
    unfoldable pub cons_init : ℕ → (ℕ → D → List ℕ) → D → Option ((Bool × ℕ) × (D × Crt))
    unfolding cga_init kbd_init serial_init
    cons_init fuel cells d =
        let ((addr, crt_buf, crt_pos), d1) = cga_init d in
        let (exists, d2) = serial_init (kbd_init d1) in
        let screen : D × Crt = (d2, record { buf = cells crt_buf d2; pos = crt_pos }) in
        let warned =
          elim (cprintf (cputchar inb outb addr) fuel
              (literal (codes "Serial port does not exist!\n")) 0 [] screen)
            as (λ _. Option ((Bool × ℕ) × (D × Crt))) [
              | none ↦ none
              | some (printed, screen') ↦ some ((exists, addr), screen')
            ] in
        if exists then some ((exists, addr), screen) else warned
