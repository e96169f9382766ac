-- ===== src/Console/Display/Line.antt =====
-- The roll that the display shows with a line under way, which grows and shrinks at its end.
use mit_jos_cse.Prelude.{
  ℕ, ◌+◌, ◌-◌, ◌*◌, ◌/◌, ◌≤◌, ◌<◌, ◌≡◌, sym, ap, ◌∙◌, inl, inr, List, [], ◌∷◌, arith, leb, ◌==◌,
  get_or, set, length, length-set, store, Bool-cases, Nat-cases,
}
use mit_jos_cse.Console.Input.Ring.{get_or-set_self, get_or-set_ne}
use mit_jos_cse.Console.Display.{Crt, crt_cols, crt_size}
use mit_jos_cse.Console.Display.Roll.{Roll, fed, write, written, Shows}

-- The cells with a line under way, the last character first, from the place `a` on.
abbrev pub over : (ℕ → ℕ) → ℕ → List ℕ → ℕ → ℕ
over f a [] = f
over f a (c ∷ l) = store (over f a l) (a + length l) (c + 0x700)

-- The roll with a line under way at its cursor, and with another row at the top of the display.
abbrev pub with_line : List ℕ → ℕ → Roll → Roll
with_line l row p = record {
  cells = over p.cells p.cursor l;
  cursor = p.cursor + length l;
  top = row;
}

-- From the cursor on the roll is blank.
abbrev pub IsBlank : Roll → Type 0
IsBlank p = (i : ℕ) → p.cursor ≤ i → p.cells i ≡ 0x720

pub over-blank :
    (f : ℕ → ℕ) (a : ℕ) (l : List ℕ)
    → ((i : ℕ) → a ≤ i → f i ≡ 0x720)
    → (i : ℕ) → a + length l ≤ i
    → over f a l i ≡ 0x720
over-blank f a [] h i b = h i (omega (arith, b))
over-blank f a (c ∷ l) h i b = ground (arith, over-blank f a l h i (omega (arith, b)), b)

fed-IsBlank : (p : Roll) → IsBlank p → IsBlank (fed p)
fed-IsBlank p h = elim (Bool-cases (leb (crt_cols * p.top + crt_size) p.cursor)) [
  | inl e ↦ rw e h
  | inr e ↦ rw e h
]

write-IsBlank : (c : ℕ) (p : Roll) → IsBlank p → IsBlank (write c p)
write-IsBlank c p h = elim (Bool-cases (c == 10)) [
  | inl e ↦ rw e (
      fed-IsBlank (record p { cursor = (p.cursor / crt_cols + 1) * crt_cols })
        (λ i b. h i (omega (arith, b))))
  | inr e ↦ rw e (
      fed-IsBlank (record p { cells = store p.cells p.cursor (c + 0x700); cursor = p.cursor + 1 })
        (λ i b. ground (arith, h i (omega (arith, b)), b)))
]

pub written-IsBlank : (text : List ℕ) (p : Roll) → IsBlank p → IsBlank (written text p)
written-IsBlank [] p h = h
written-IsBlank (c ∷ text) p h = written-IsBlank text (write c p) (write-IsBlank c p h)

pub Shows-same :
    (p q : Roll) (t : Crt)
    → ((i : ℕ) → p.cells i ≡ q.cells i)
    → p.cursor ≡ q.cursor
    → p.top ≡ q.top
    → Shows p t
    → Shows q t
Shows-same p q t f c r h = record {
  size = h.size;
  place = omega (arith, h.place, c, r);
  same = λ i b. h.same i b ∙ f (80 * p.top + i) ∙ ap q.cells (omega (arith, r));
  below = λ i b. sym (f i) ∙ h.below i (omega (arith, r, b));
}

pub erased-Shows :
    (p : Roll) (t : Crt)
    → Shows p t
    → 0 < t.pos
    → t.pos < crt_size
    → Shows
        (record p { cells = store p.cells (p.cursor - 1) 0x720; cursor = p.cursor - 1 })
        (record { buf = set t.buf (t.pos - 1) 0x720; pos = t.pos - 1 })
erased-Shows p t h z b = record {
  size = length-set t.buf (t.pos - 1) 0x720 ∙ h.size;
  place = omega (arith, h.place, z);
  same = λ i c. elim (Nat-cases (t.pos - 1) i) [
    | inl e ↦
        ap (λ k. get_or (set t.buf (t.pos - 1) 0x720) k 0) (sym e)
        ∙ get_or-set_self t.buf (t.pos - 1) 0x720 (omega (arith, h.size, b))
        ∙ ground (arith, e, h.place, z)
    | inr n ↦ get_or-set_ne t.buf (t.pos - 1) i 0x720 n ∙ h.same i c ∙ ground (arith, n, h.place, z)
  ];
  below = λ i c. ground (arith, h.below i c, h.place, b, z);
}
