-- ===== src/Console/Display/Text.antt =====
-- What a printable character and a newline do to the display.
use mit_jos_cse.Prelude.{
  ℕ, ◌+◌, ◌-◌, ◌*◌, ◌/◌, ◌%◌, ◌≤◌, ◌<◌, ◌≡◌, refl, ap, ◌∙◌, ◌++◌, false, Bool-cases, inl, inr,
  arith, leb, ◌==◌, if◌then◌else◌, set, drop, replicate, length, length-set,
}
use mit_jos_cse.Console.Display.{
  Crt, crt_cols, crt_size, with_attribute, put_glyph, scroll, cga_glyph, cga_putc, lpt_putc,
  serial_putc, cons_putc, cputchar,
}
use mit_jos_cse.Console.Display.Screen.{IsValid, put_cell-set, scroll_lem, scroll_within}

printable :
    (c : ℕ) (t : Crt)
    → b' ' ≤ c
    → c < 256
    → IsValid t
    → put_glyph (with_attribute c) t ≡ record { buf = set t.buf t.pos (c + 0x700); pos = t.pos + 1 }
unfolding put_glyph
printable c t lo hi v =
    let put = put_cell-set t.buf t.pos (c + 0x700) (omega (arith, v.cells, v.inside)) in
    ground (arith, lo, hi, v.inside, put)

newline :
    (t : Crt)
    → t.pos < crt_size
    → put_glyph (with_attribute b'\n') t ≡ record t { pos = (t.pos / crt_cols + 1) * crt_cols }
unfolding put_glyph
newline t h = ground arith

-- The display after a position that may lie behind the last row.
abbrev pub wrapped : Crt → Crt
wrapped t =
    if leb crt_size t.pos
    then record { buf = drop crt_cols t.buf ++ replicate crt_cols 0x720; pos = t.pos - crt_cols }
    else t

scroll-wrapped : (t : Crt) → length t.buf ≡ crt_size → scroll t ≡ wrapped t
scroll-wrapped t size = elim (Bool-cases (leb crt_size t.pos)) [
  | inl over ↦ rw over (scroll_lem t size (ground arith))
  | inr within ↦ rw within (scroll_within t (ground arith))
]

module _ {ℓ} {D : Type ℓ} (inb : ℕ → D → ℕ × D) (outb : ℕ → ℕ → D → D) (addr : ℕ) where
  plain :
      (c : ℕ) (d : D) (t : Crt)
      → (c % 256 == b'\t') ≡ false
      → (cga_putc inb outb addr c (d, t)).1 ≡ scroll (put_glyph (with_attribute c) t)
  unfolding cga_putc cga_glyph
  plain c d t e = rw (e, cga_putc)

  -- On a valid display, `cga_putc` of a printable character writes it, light on dark, into the cell
  -- at the cursor, moves the cursor one cell on, and scrolls up by one row if that was the last
  -- cell. A newline moves the cursor to the start of the next row, and scrolls if there is none.
  pub cga_putc_lem :
      (c : ℕ) (d : D) (t : Crt)
      → IsValid t
      → b' ' ≤ c
      → c < 256
      → ((cga_putc inb outb addr c (d, t)).1
          ≡ wrapped (record { buf = set t.buf t.pos (c + 0x700); pos = t.pos + 1 }))
        × ((cga_putc inb outb addr b'\n' (d, t)).1
            ≡ wrapped (record t { pos = (t.pos / crt_cols + 1) * crt_cols }))
  cga_putc_lem c d t v lo hi =
      let char = printable c t lo hi v in
      let line = newline t v.inside in
      (
        plain c d t (ground arith)
            ∙ ap scroll char
            ∙ scroll-wrapped (record { buf = set t.buf t.pos (c + 0x700); pos = t.pos + 1 })
                (length-set t.buf t.pos (c + 0x700) ∙ v.cells),
        plain b'\n' d t refl
            ∙ ap scroll line
            ∙ scroll-wrapped (record t { pos = (t.pos / crt_cols + 1) * crt_cols }) v.cells,
      )

  -- A backspace away from the first cell moves the cursor one cell back, and blanks that cell.
  pub backspace :
      (s : D × Crt)
      → IsValid s.1
      → 0 < s.1.pos
      → (cputchar inb outb addr 8 s).1
        ≡ record { buf = set s.1.buf (s.1.pos - 1) 0x720; pos = s.1.pos - 1 }
  unfolding cputchar cons_putc put_glyph
  backspace (d, t) v h =
      let put = put_cell-set t.buf (t.pos - 1) 0x720 (omega (arith, v.cells, v.inside)) in
      plain 8 (lpt_putc inb outb 8 (serial_putc inb outb 8 d)) t refl
      ∙ ap scroll {y = record { buf = set t.buf (t.pos - 1) 0x720; pos = t.pos - 1 }}
          (ground (arith, put))
      ∙ scroll_within (record { buf = set t.buf (t.pos - 1) 0x720; pos = t.pos - 1 })
          (omega (arith, v.inside))
