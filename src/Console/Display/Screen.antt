-- ===== src/Console/Display/Screen.antt =====
-- The display stays in its bounds; scrolling drops the top row and adds a blank one.
use native.Mathlib.Decide.{dec_le}
use mit_jos_cse.Prelude.{
  ℕ, zero, suc, ◌+◌, ◌-◌, ◌%◌, ◌^◌, ◌≤◌, ◌<◌, ◌≡◌, refl, sym, ap, ◌∙◌, List, [], ◌∷◌, ◌++◌, true,
  false, Bool-cases, inl, inr, length-replicate, subst, arith, leb, ◌==◌, set, take, drop,
  replicate, length, length-set, length-append, length-drop, append_assoc,
}
use mit_jos_cse.Console.Display.{
  Crt, put_cell, crt_cols, crt_size, with_attribute, serial_putc, lpt_putc, put_glyph, blank_from,
  scroll, cga_glyph, cons_glyph, cga_putc, cons_putc,
}

pub record IsValid (t : Crt) : Type 0 where
  pub cells : length t.buf ≡ crt_size
  pub inside : t.pos < crt_size

-- Blanking the last `n` cells of a buffer.
put_cell-append : (k l : List ℕ) (v : ℕ) → put_cell (k ++ l) (length k) v ≡ k ++ put_cell l 0 v
put_cell-append [] l v = refl
put_cell-append (x ∷ k) l v = ap (λ y. x ∷ y) (put_cell-append k l v)

-- A write to a cell of the list replaces that cell.
pub put_cell-set : (l : List ℕ) (i v : ℕ) → i < length l → put_cell l i v ≡ set l i v
put_cell-set [] i v h = absurd (omega (arith, h))
put_cell-set (x ∷ l) zero v h = refl
put_cell-set (x ∷ l) (suc i) v h = ap (λ y. x ∷ y) (put_cell-set l i v (omega (arith, h)))

length-put_cell : (l : List ℕ) (i v : ℕ) → i < length l → length (put_cell l i v) ≡ length l
length-put_cell l i v h = ap length (put_cell-set l i v h) ∙ length-set l i v

blank_from-append :
    (n : ℕ) (k l : List ℕ)
    → length l ≡ n
    → blank_from n (length k) (k ++ l) ≡ k ++ replicate n 0x720
unfolding blank_from
blank_from-append zero k [] e = refl
blank_from-append zero k (x ∷ l) e = absurd (omega arith)
blank_from-append (suc n) k [] e = absurd (omega arith)
blank_from-append (suc n) k (x ∷ l) e =
    let next : length k + 1 ≡ length (k ++ (0x720 ∷ [])) =
      omega (arith, length-append k (0x720 ∷ [])) in
    ap (blank_from n (length k + 1))
      (put_cell-append k (x ∷ l) 0x720 ∙ sym (append_assoc k (0x720 ∷ []) l))
    ∙ ap (λ i. blank_from n i ((k ++ (0x720 ∷ [])) ++ l)) next
    ∙ blank_from-append n (k ++ (0x720 ∷ [])) l (omega arith)
    ∙ append_assoc k (0x720 ∷ []) (replicate n 0x720)

take_all {ℓ} : {A : Type ℓ} (n : ℕ) (l : List A) → length l ≤ n → take n l ≡ l
take_all zero [] h = refl
take_all zero (x ∷ l) h = absurd (omega arith)
take_all (suc n) [] h = refl
take_all (suc n) (x ∷ l) h = ap (λ y. x ∷ y) (take_all n l (omega arith))

-- A position behind the last cell of a whole buffer is brought back by a row; the buffer loses its
-- first row, keeps the others in order, and gets a row of blanks at the end.
pub scroll_lem :
    (t : Crt)
    → length t.buf ≡ crt_size
    → crt_size ≤ t.pos
    → scroll t
      ≡ record { buf = drop crt_cols t.buf ++ replicate crt_cols 0x720; pos = t.pos - crt_cols }
unfolding scroll
scroll_lem t size over =
    let kept = crt_size - crt_cols in
    let above = take kept (drop crt_cols t.buf) in
    let below = drop kept t.buf in
    let past : leb crt_size t.pos ≡ true = ground arith in
    let all_rows : length (drop crt_cols t.buf) ≡ kept =
      length-drop crt_cols t.buf ∙ ap (λ n. n - crt_cols) size in
    let above_whole : above ≡ drop crt_cols t.buf =
      take_all kept (drop crt_cols t.buf) (omega arith) in
    let above_size : length above ≡ kept = ap length above_whole ∙ all_rows in
    let below_size : length below ≡ crt_cols = length-drop kept t.buf ∙ ap (λ n. n - kept) size in
    let blanked : blank_from crt_cols kept (above ++ below) ≡ above ++ replicate crt_cols 0x720 =
      subst (λ n. blank_from crt_cols n (above ++ below) ≡ above ++ replicate crt_cols 0x720)
        above_size (blank_from-append crt_cols above below below_size) in
    rw (past, scroll)
      (λ i. record {
        buf = (blanked ∙ ap (λ x. x ++ replicate crt_cols 0x720) above_whole) i;
        pos = t.pos - crt_cols;
      })

length-glyph : (c : ℕ) (t : Crt) → t.pos < length t.buf → length (put_glyph c t).buf ≡ length t.buf
unfolding put_glyph
length-glyph c t h = ground (
  arith,
  h,
  length-put_cell t.buf (t.pos - 1) ((c - c % 256 + b' ') % 2 ^ 16) (omega (arith, h)),
  length-put_cell t.buf t.pos (c % 2 ^ 16) h,
)

glyph_pos : (c : ℕ) (t : Crt) → t.pos < crt_size → (put_glyph c t).pos < crt_size + crt_cols
unfolding put_glyph
glyph_pos c t h = ground arith

pub scroll_within : (t : Crt) → t.pos < crt_size → scroll t ≡ t
unfolding scroll
scroll_within t inside = let short : leb crt_size t.pos ≡ false = ground arith in rw (short, scroll)

scroll-IsValid :
    (t : Crt) → length t.buf ≡ crt_size → t.pos < crt_size + crt_cols → IsValid (scroll t)
scroll-IsValid t size near = elim (dec_le crt_size t.pos) [
  | yes over ↦
      let bottom : length (drop crt_cols t.buf ++ replicate crt_cols 0x720) ≡ crt_size = omega (
        arith,
        length-append (drop crt_cols t.buf) (replicate crt_cols 0x720),
        length-drop crt_cols t.buf,
        length-replicate {A = ℕ} crt_cols 0x720,
      ) in
      rw (scroll_lem t size over) (record { cells = bottom; inside = omega arith })
  | no within ↦
      let inside : t.pos < crt_size = omega arith in
      rw (scroll_within t inside) (record { cells = size; inside = inside })
]

module _ {ℓ} {D : Type ℓ} (inb : ℕ → D → ℕ × D) (outb : ℕ → ℕ → D → D) (addr : ℕ) where
  cga_glyph-IsValid : (c : ℕ) (s : D × Crt) → IsValid s.1 → IsValid (cga_glyph inb outb addr c s).1
  unfolding cga_glyph
  cga_glyph-IsValid c (d, t) v =
      scroll-IsValid (put_glyph (with_attribute c) t)
        (length-glyph (with_attribute c) t (omega (arith, v.cells, v.inside)) ∙ v.cells)
        (glyph_pos (with_attribute c) t v.inside)

  cons_glyph-IsValid :
      (c : ℕ) (s : D × Crt) → IsValid s.1 → IsValid (cons_glyph inb outb addr c s).1
  unfolding cons_glyph
  cons_glyph-IsValid c (d, t) v =
      cga_glyph-IsValid c (lpt_putc inb outb c (serial_putc inb outb c d), t) v

  cga_putc-IsValid : (c : ℕ) (s : D × Crt) → IsValid s.1 → IsValid (cga_putc inb outb addr c s).1
  unfolding cga_putc
  cga_putc-IsValid c s v =
      let space = cons_glyph inb outb addr b' ' in
      let spaces = space (space (space (space (space s)))) in
      let still = cons_glyph-IsValid b' ' in
      let v5 : IsValid spaces.1 =
        still (space (space (space (space s)))) (
          still (space (space (space s)))
            (still (space (space s)) (still (space s) (still s v)))) in
      let tabbed : IsValid (scroll spaces.1) =
        scroll-IsValid spaces.1 v5.cells (omega (arith, v5.inside)) in
      elim (Bool-cases (c % 256 == b'\t')) [
        | inl tab ↦ rw (tab, cga_putc) tabbed
        | inr other ↦ rw (other, cga_putc) (cga_glyph-IsValid c s v)
      ]

  -- Whatever character is put, `cons_putc` leaves the cursor on the display, and the list of the cells
  -- with its length of 2000, to which a write behind the display would add: no such cell is written.
  pub cons_putc-IsValid :
      (c : ℕ) (s : D × Crt) → IsValid s.1 → IsValid (cons_putc inb outb addr c s).1
  unfolding cons_putc
  cons_putc-IsValid c (d, t) v =
      cga_putc-IsValid c (lpt_putc inb outb c (serial_putc inb outb c d), t) v
