-- ===== src/Console/Display/Roll.antt =====
-- The display as a window on a roll of paper on which all text is written.
use mit_jos_cse.Prelude.{
  ℕ, zero, suc, ◌+◌, ◌-◌, ◌*◌, ◌/◌, ◌≤◌, ◌<◌, ◌≡◌, ◌⊎◌, refl, sym, ap, ◌∙◌, subst, List, [], ◌∷◌,
  ◌++◌, true, false, Bool-cases, Nat-cases, inl, inr, arith, leb, ◌==◌, if◌then◌else◌, get_or, set,
  drop, replicate, length, length-set, length-drop, length-append, store, All,
}
use mit_jos_cse.Printf.Number.{emit}
use mit_jos_cse.Console.Input.Ring.{get_or-set_self, get_or-set_ne}
use mit_jos_cse.Console.Display.{
  Crt, crt_cols, crt_size, serial_putc, lpt_putc, cga_putc, cons_putc, cputchar,
}
use mit_jos_cse.Console.Display.Screen.{IsValid, cons_putc-IsValid}
use mit_jos_cse.Console.Display.Text.{wrapped, cga_putc_lem}

-- The cells of the roll, the place of the next character, and the row at the top of the display.
pub record Roll : Type 0 where
  pub cells : ℕ → ℕ
  pub cursor : ℕ
  pub top : ℕ

-- The paper moves on by a row when the place is below the display's last one.
abbrev pub fed : Roll → Roll
fed p = if leb (crt_cols * p.top + crt_size) p.cursor then record p { top = p.top + 1 } else p

abbrev pub write : ℕ → Roll → Roll
write c p = fed (
    if c == 10
    then record p { cursor = (p.cursor / crt_cols + 1) * crt_cols }
    else record p { cells = store p.cells p.cursor (c + 0x700); cursor = p.cursor + 1 })

abbrev pub written : List ℕ → Roll → Roll
written [] p = p
written (c ∷ t) p = written t (write c p)

-- The display shows the roll from its top row on; below the display the roll is blank.
pub record Shows (p : Roll) (t : Crt) : Type 0 where
  pub size : length t.buf ≡ crt_size
  pub place : t.pos + crt_cols * p.top ≡ p.cursor
  pub same : (i : ℕ) → i < crt_size → get_or t.buf i 0 ≡ p.cells (crt_cols * p.top + i)
  pub below : (i : ℕ) → crt_cols * p.top + crt_size ≤ i → p.cells i ≡ 0x720

get_or-drop : (n : ℕ) (l : List ℕ) (i : ℕ) → get_or (drop n l) i 0 ≡ get_or l (n + i) 0
get_or-drop zero l i = ap (λ k. get_or l k 0) (omega arith)
get_or-drop (suc n) [] i = refl
get_or-drop (suc n) (x ∷ l) i =
    get_or-drop n l i ∙ ap (λ k. get_or (x ∷ l) k 0) {x = suc (n + i)} (omega arith)

get_or-left : (l k : List ℕ) (i : ℕ) → i < length l → get_or (l ++ k) i 0 ≡ get_or l i 0
get_or-left [] k i h = absurd (omega arith)
get_or-left (x ∷ l) k zero h = refl
get_or-left (x ∷ l) k (suc i) h = get_or-left l k i (omega arith)

get_or-right :
    (l k : List ℕ) (i : ℕ) → length l ≤ i → get_or (l ++ k) i 0 ≡ get_or k (i - length l) 0
get_or-right [] k i h = ap (λ j. get_or k j 0) (omega arith)
get_or-right (x ∷ l) k zero h = absurd (omega arith)
get_or-right (x ∷ l) k (suc i) h =
    get_or-right l k i (omega arith) ∙ ap (λ j. get_or k j 0) (omega arith)

pub get_or-replicate : (n v i : ℕ) → i < n → get_or (replicate n v) i 0 ≡ v
get_or-replicate zero v i h = absurd (omega arith)
get_or-replicate (suc n) v zero h = refl
get_or-replicate (suc n) v (suc i) h = get_or-replicate n v i (omega arith)

in_rows : (i : ℕ) → (1920 ≤ i) ⊎ (i < 1920)
in_rows i = elim (Bool-cases (leb 1920 i)) [
  | inl e ↦ inl (ground (arith, e))
  | inr e ↦ inr (ground (arith, e))
]

-- A row more of the roll, where the display is one row further down.
scrolled-Shows :
    (p : Roll) (t : Crt)
    → Shows p t
    → crt_size ≤ t.pos
    → Shows
        (record p { top = p.top + 1 })
        (record { buf = drop crt_cols t.buf ++ replicate crt_cols 0x720; pos = t.pos - crt_cols })
scrolled-Shows p t h over =
    let rows = drop crt_cols t.buf in
    let above : length rows ≡ 1920 = length-drop crt_cols t.buf ∙ ap (λ n. n - 80) h.size in
    let cell : (i : ℕ)
        → i < crt_size
        → get_or (rows ++ replicate 80 0x720) i 0 ≡ p.cells (80 * (p.top + 1) + i) =
      λ i b. elim (in_rows i) [
        | inl e ↦
            get_or-right rows (replicate 80 0x720) i (omega (arith, e, above))
            ∙ get_or-replicate 80 0x720 (i - length rows) (omega (arith, e, above, b))
            ∙ sym (h.below (80 * (p.top + 1) + i) (omega (arith, e)))
        | inr e ↦
            get_or-left rows (replicate 80 0x720) i (omega (arith, e, above))
            ∙ get_or-drop 80 t.buf i
            ∙ h.same (80 + i) (omega (arith, e))
            ∙ ap p.cells (omega arith)
      ] in
    record {
      size = length-append rows (replicate 80 0x720) ∙ ap (λ n. n + 80) above;
      place = omega (arith, h.place, over);
      same = cell;
      below = λ i b. h.below i (omega (arith, b));
    }

fed-Shows : (p : Roll) (t : Crt) → Shows p t → Shows (fed p) (wrapped t)
fed-Shows p t h = elim (Bool-cases (leb crt_size t.pos)) [
  | inl over ↦
      let same : leb (80 * p.top + 2000) p.cursor ≡ true = ground (arith, over, h.place) in
      rw (over, same) (scrolled-Shows p t h (ground (arith, over)))
  | inr within ↦
      let same : leb (80 * p.top + 2000) p.cursor ≡ false = ground (arith, within, h.place) in
      rw (within, same) h
]

cell-Shows :
    (p : Roll) (t : Crt) (v : ℕ)
    → Shows p t
    → t.pos < crt_size
    → Shows
        (record p { cells = store p.cells p.cursor v; cursor = p.cursor + 1 })
        (record { buf = set t.buf t.pos v; pos = t.pos + 1 })
cell-Shows p t v h b = record {
  size = length-set t.buf t.pos v ∙ h.size;
  place = omega (arith, h.place);
  same = λ i c. elim (Nat-cases t.pos i) [
    | inl e ↦
        ap (λ k. get_or (set t.buf t.pos v) k 0) (sym e)
        ∙ get_or-set_self t.buf t.pos v (omega (arith, h.size, b))
        ∙ ground (arith, e, h.place)
    | inr n ↦ get_or-set_ne t.buf t.pos i v n ∙ h.same i c ∙ ground (arith, n, h.place)
  ];
  below = λ i c. ground (arith, h.below i c, h.place, b);
}

write-Shows :
    (p : Roll) (t : Crt) (c : ℕ)
    → Shows p t
    → t.pos < crt_size
    → (c == 10) ≡ false
    → Shows (write c p) (wrapped (record { buf = set t.buf t.pos (c + 0x700); pos = t.pos + 1 }))
write-Shows p t c h b char = rw char (
    fed-Shows (record p { cells = store p.cells p.cursor (c + 0x700); cursor = p.cursor + 1 })
      (record { buf = set t.buf t.pos (c + 0x700); pos = t.pos + 1 })
      (cell-Shows p t (c + 0x700) h b))

newline-Shows :
    (p : Roll) (t : Crt)
    → Shows p t
    → Shows (write 10 p) (wrapped (record t { pos = (t.pos / crt_cols + 1) * crt_cols }))
newline-Shows p t h =
    fed-Shows (record p { cursor = (p.cursor / crt_cols + 1) * crt_cols })
      (record t { pos = (t.pos / crt_cols + 1) * crt_cols })
      (record { size = h.size; place = omega (arith, h.place); same = h.same; below = h.below })

-- A printable character or a newline.
abbrev pub IsText : ℕ → Type 0
IsText c = ((b' ' ≤ c) × (c < 256)) ⊎ (c ≡ 10)

module _ {D : Type 0} (inb : ℕ → D → ℕ × D) (outb : ℕ → ℕ → D → D) (addr : ℕ) where
  cga_putc-Shows :
      (c : ℕ) (d : D) (p : Roll) (t : Crt)
      → IsText c
      → Shows p t
      → IsValid t
      → Shows (write c p) (cga_putc inb outb addr c (d, t)).1
  cga_putc-Shows c d p t (inl (lo, hi)) h v =
      subst (λ x. Shows (write c p) x) (sym (cga_putc_lem inb outb addr c d t v lo hi).0)
        (write-Shows p t c h v.inside (ground (arith, lo)))
  cga_putc-Shows c d p t (inr e) h v =
      subst (λ k. Shows (write k p) (cga_putc inb outb addr k (d, t)).1) (sym e)
        (subst (λ x. Shows (write 10 p) x)
          (sym (cga_putc_lem inb outb addr b' ' d t v (omega arith) (omega arith)).1)
          (newline-Shows p t h))

  pub cputchar-Shows :
      (c : ℕ) (s : D × Crt) (p : Roll)
      → IsText c
      → Shows p s.1
      → IsValid s.1
      → Shows (write c p) (cputchar inb outb addr c s).1 × IsValid (cputchar inb outb addr c s).1
  unfolding cputchar cons_putc
  cputchar-Shows c (d, t) p x h v = (
    cga_putc-Shows c (lpt_putc inb outb c (serial_putc inb outb c d)) p t x h v,
    cons_putc-IsValid inb outb addr c (d, t) v,
  )

  pub emit-Shows :
      (text : List ℕ) (s : D × Crt) (p : Roll)
      → All IsText text
      → Shows p s.1
      → IsValid s.1
      → Shows (written text p) (emit (cputchar inb outb addr) text s).1
        × IsValid (emit (cputchar inb outb addr) text s).1
  emit-Shows [] s p x h v = (h, v)
  emit-Shows (c ∷ text) s p (x, xs) h v =
      let (h', v') = cputchar-Shows c s p x h v in
      emit-Shows text (cputchar inb outb addr c s) (write c p) xs h' v'
