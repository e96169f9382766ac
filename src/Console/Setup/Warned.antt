-- ===== src/Console/Setup/Warned.antt =====
-- kern/console.c: `cons_init` ends, and says that there is no serial port where there is none.
use mit_jos_cse.Prelude.{
  ℕ, ◌≤◌, ◌≡◌, refl, ap, List, [], ◌∷◌, some, Bool, if◌then◌else◌, arith, codes, IsStr, Bool-cases,
  inl, inr,
}
use mit_jos_cse.Printf.Number.{emit}
use mit_jos_cse.Printf.Format.{literal}
use mit_jos_cse.Printf.Meaning.{Item, plain, format_text, slots}
use mit_jos_cse.Printf.Meaning
use mit_jos_cse.Monitor.Run.{plains, plains-IsItem, cprintf-printed}
use mit_jos_cse.Console.Display.{Crt, cputchar}
use mit_jos_cse.Console.Setup.{cga_init, kbd_init, serial_init, cons_init}

abbrev pub no_port : List ℕ
no_port = codes "Serial port does not exist!"

abbrev no_port_items : List Item
no_port_items = plains no_port (plain 10 ∷ [])

no_port-IsStr :
    IsStr (literal (codes "Serial port does not exist!\n")) 0 (format_text no_port_items)
no_port-IsStr = ground arith

module _ {D : Type 0} (inb : ℕ → D → ℕ × D) (outb : ℕ → ℕ → D → D) (peek : ℕ → D → ℕ × D)
    (poke : ℕ → ℕ → D → D) where
  -- Which display `cga_init` finds, whether `serial_init` finds a port, and the console then: the
  -- display's cells and position, with the message shown only if there is no port.
  abbrev pub adapter : D → ℕ
  adapter d = (cga_init inb outb peek poke d).0.0

  abbrev pub port_found : D → Bool × D
  port_found d =
      serial_init inb outb (kbd_init inb outb peek poke (cga_init inb outb peek poke d).1)

  abbrev pub screen_found : (ℕ → D → List ℕ) → D → D × Crt
  screen_found cells d =
      let ((addr, crt_buf, crt_pos), d1) = cga_init inb outb peek poke d in
      let (exists, d2) = port_found d in
      let screen : D × Crt = (d2, record { buf = cells crt_buf d2; pos = crt_pos }) in
      if exists
      then screen
      else emit (cputchar inb outb addr) (Meaning.printed no_port_items) screen

  -- With fuel for the message, `cons_init` ends with these.
  pub cons_init_lem :
      (fuel : ℕ) (cells : ℕ → D → List ℕ) (d : D)
      → 40 ≤ fuel
      → cons_init inb outb peek poke fuel cells d
        ≡ some (((port_found d).0, adapter d), screen_found cells d)
  unfolding cons_init
  cons_init_lem fuel cells d f =
      let ((addr, crt_buf, crt_pos), d1) = cga_init inb outb peek poke d in
      let (exists, d2) = serial_init inb outb (kbd_init inb outb peek poke d1) in
      let screen : D × Crt = (d2, record { buf = cells crt_buf d2; pos = crt_pos }) in
      let warned =
        cprintf-printed (cputchar inb outb addr) fuel
          (literal (codes "Serial port does not exist!\n")) 0 no_port_items screen no_port-IsStr
          (plains-IsItem (literal (codes "Serial port does not exist!\n")) no_port (plain 10 ∷ [])
            (omega arith) (omega arith))
          (omega arith) in
      elim (Bool-cases exists) [
        | inl e ↦ rw (e, cons_init) refl
        | inr e ↦
            rw (e, warned, cons_init)
              (ap
                (λ b.
                  some (
                    (b, addr),
                    emit (cputchar inb outb addr) (Meaning.printed no_port_items) screen,
                  ))
                e)
      ]
