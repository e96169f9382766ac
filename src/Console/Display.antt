-- ===== src/Console/Display.antt =====
-- kern/console.c: output to the serial port, the parallel port and the text-mode display, and
-- `cons_putc`. `inb` and `outb` act on the state of the devices.
pub mod Screen
pub mod Text
pub mod Roll
pub mod Line
use Prim.Native.Nat.{bit_and}
use mit_jos_cse.Prelude.{
  ℕ, zero, suc, ◌+◌, ◌-◌, ◌*◌, ◌/◌, ◌%◌, ◌^◌, List, [], ◌∷◌, ◌++◌, Bool, leb, ltb, ◌==◌,
  if◌then◌else◌, take, drop,
}

abbrev pub crt_cols : ℕ
crt_cols = 80

abbrev pub crt_size : ℕ
crt_size = 25 * crt_cols

-- `crt_buf[i] = v`. Behind the last cell of the display the video memory goes on: a write there adds
-- to the list.
abbrev pub put_cell : List ℕ → ℕ → ℕ → List ℕ
put_cell [] zero v = v ∷ []
put_cell [] (suc i) v = 0 ∷ put_cell [] i v
put_cell (x ∷ l) zero v = v ∷ l
put_cell (x ∷ l) (suc i) v = x ∷ put_cell l i v

-- `crt_buf`, a cell for each position, and `crt_pos`, a `uint16_t`
pub record Crt : Type 0 where
  pub buf : List ℕ
  pub pos : ℕ

-- `if (!(c & ~0xFF)) c |= 0x0700;`
abbrev pub with_attribute : ℕ → ℕ
with_attribute c = if ltb c 256 then c + 0x700 else c

-- The `switch` of `cga_putc`, for all but a tab.
unfoldable pub put_glyph : ℕ → Crt → Crt
put_glyph c t =
    if c % 256 == 0x08
    then (if ltb 0 t.pos
        then record t {
          buf = put_cell t.buf (t.pos - 1) ((c - c % 256 + b' ') % 2 ^ 16);
          pos = t.pos - 1;
        }
        else t)
    else if c % 256 == b'\n'
    then record t { pos = (t.pos + crt_cols) % 2 ^ 16 - (t.pos + crt_cols) % 2 ^ 16 % crt_cols }
    else if c % 256 == b'\r'
    then record t { pos = t.pos - t.pos % crt_cols }
    else record t { buf = put_cell t.buf t.pos (c % 2 ^ 16); pos = (t.pos + 1) % 2 ^ 16 }

-- `for (i = ...; i < CRT_SIZE; i++) crt_buf[i] = 0x0700 | ' ';` with `n` rounds left
unfoldable pub blank_from : ℕ → ℕ → List ℕ → List ℕ
blank_from zero i buf = buf
blank_from (suc n) i buf = blank_from n (i + 1) (put_cell buf i 0x720)

-- The display has run over its last row: `memmove` takes each row to the one above it.
unfoldable pub scroll : Crt → Crt
scroll t =
    let kept = crt_size - crt_cols in
    let moved = take kept (drop crt_cols t.buf) ++ drop kept t.buf in
    if leb crt_size t.pos
    then record t { buf = blank_from crt_cols kept moved; pos = t.pos - crt_cols }
    else t

module _ {ℓ} {D : Type ℓ} (inb : ℕ → D → ℕ × D) (outb : ℕ → ℕ → D → D) where
  unfoldable pub delay : D → D
  delay d = (inb 0x84 (inb 0x84 (inb 0x84 (inb 0x84 d).1).1).1).1

  -- `for (i = 0; !(inb(port) & mask) && i < 12800; i++) delay();` with `n` rounds left.
  unfoldable pub wait_for : ℕ → ℕ → ℕ → D → D
  wait_for port mask zero d = (inb port d).1
  wait_for port mask (suc n) d =
      let (status, d') = inb port d in
      let later = wait_for port mask n (delay d') in if bit_and status mask == 0 then later else d'

  unfoldable pub serial_putc : ℕ → D → D
  serial_putc c d = outb 0x3f8 (c % 256) (wait_for (0x3f8 + 5) 0x20 12800 d)

  unfoldable pub lpt_putc : ℕ → D → D
  lpt_putc c d =
      outb (0x378 + 2) 0x08
        (outb (0x378 + 2) 0x0d (outb 0x378 (c % 256) (wait_for (0x378 + 1) 0x80 12800 d)))

  -- `move that little blinky thing`
  unfoldable pub move_cursor : ℕ → Crt → D → D
  move_cursor addr t d =
      outb (addr + 1) (t.pos % 256) (outb addr 15 (outb (addr + 1) (t.pos / 256) (outb addr 14 d)))

  -- `cga_putc` for a character other than a tab, and `cons_putc` of such a character
  unfoldable pub cga_glyph : ℕ → ℕ → D × Crt → D × Crt
  cga_glyph addr c (d, t) =
      let t' = scroll (put_glyph (with_attribute c) t) in (move_cursor addr t' d, t')

  unfoldable pub cons_glyph : ℕ → ℕ → D × Crt → D × Crt
  cons_glyph addr c (d, t) = cga_glyph addr c (lpt_putc c (serial_putc c d), t)

  -- A tab is five calls of `cons_putc(' ')`.
  unfoldable pub cga_putc : ℕ → ℕ → D × Crt → D × Crt
  cga_putc addr c s =
      let space = cons_glyph addr b' ' in
      let (d, t) = space (space (space (space (space s)))) in
      let t' = scroll t in
      let tabbed : D × Crt = (move_cursor addr t' d, t') in
      if c % 256 == b'\t' then tabbed else cga_glyph addr c s

  unfoldable pub cons_putc : ℕ → ℕ → D × Crt → D × Crt
  cons_putc addr c (d, t) = cga_putc addr c (lpt_putc c (serial_putc c d), t)

  unfoldable pub cputchar : ℕ → ℕ → D × Crt → D × Crt
  unfolding cons_putc
  cputchar addr c s = cons_putc addr c s
