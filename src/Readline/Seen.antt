-- ===== src/Readline/Seen.antt =====
-- lib/readline.c on the display of kern/console.c: what is seen of a line that is typed.
mod Tests
use mit_jos_cse.Prelude.{
  ℕ, ◌+◌, ◌-◌, ◌*◌, ◌^◌, ◌≤◌, ◌<◌, ◌≡◌, ◌≢◌, refl, sym, ap, ◌∙◌, subst, inl, inr, List, [], ◌∷◌,
  some, true, false, ◌&&◌, arith, leb, ltb, ◌==◌, set, length, All, Memory, IsStr, store, ℤ, pos,
  Bool-cases,
}
use mit_jos_cse.Printf.Number.{emit}
use mit_jos_cse.Printf.Format.{int_char}
use mit_jos_cse.Printf.Escape.{shown_chars}
use mit_jos_cse.Console.Display.{Crt, crt_cols, crt_size, cputchar}
use mit_jos_cse.Console.Display.Screen.{IsValid, cons_putc-IsValid}
use mit_jos_cse.Console.Display.Text.{backspace}
use mit_jos_cse.Console.Display.Roll.{
  Roll, write, written, Shows, IsText, cputchar-Shows, emit-Shows,
}
use mit_jos_cse.Readline.{buflen, readline}
use mit_jos_cse.Readline.Line.{
  IsKey, IsEnter, erases, drop_last, press, typed, turned, input_of, shown_key, shown_keys,
}
use mit_jos_cse.Readline.Prompt.{line_stored, line_shown, readline-stored, line_stored-IsStr}
use mit_jos_cse.Console.Display.Line.{
  with_line, IsBlank, over-blank, written-IsBlank, Shows-same, erased-Shows,
}

abbrev pub IsPrintable : ℕ → Type 0
IsPrintable c = (b' ' ≤ c) × (c < 128)

printable-IsText : (t : List ℕ) → All IsPrintable t → All IsText t
printable-IsText [] h = tt
printable-IsText (c ∷ t) h =
    (inl (omega (arith, h.0.0), omega (arith, h.0.1)), printable-IsText t h.1)

printable-nonzero : (t : List ℕ) → All IsPrintable t → All (λ c. c ≢ 0) t
printable-nonzero [] h = tt
printable-nonzero (c ∷ t) h = (omega (arith, h.0.0), printable-nonzero t h.1)

shown_chars-printable : (t : List ℕ) → All IsPrintable t → shown_chars t ≡ t
shown_chars-printable [] h = refl
shown_chars-printable (c ∷ t) h =
    let same : int_char c ≡ c = ground (arith, h.0.1) in
    ap (λ x. x ∷ shown_chars t) same ∙ ap (λ r. c ∷ r) (shown_chars-printable t h.1)

-- The display shows a line under way, and the place where it begins.
record Sees (p : Roll) (l : List ℕ) (t : Crt) : Type 0 where
  row : ℕ
  begins : crt_cols * row ≤ p.cursor
  shows : Shows (with_line l row p) t
  valid : IsValid t

module _ {D : Type 0} (inb : ℕ → D → ℕ × D) (outb : ℕ → ℕ → D → D) (addr : ℕ) where
  char-Sees :
      (p : Roll) (l : List ℕ) (c : ℕ) (s : D × Crt)
      → b' ' ≤ c
      → c < 2 ^ 8
      → length l < buflen - 1
      → Sees p l s.1
      → Sees p (c ∷ l) (cputchar inb outb addr c s).1
  char-Sees p l c s lo hi room h =
      let q = with_line l h.row p in
      let t = (cputchar inb outb addr c s).1 in
      let char : (c == 10) ≡ false = ground (arith, lo) in
      let put : Roll = record q {
        cells = store q.cells q.cursor (c + 0x700);
        cursor = q.cursor + 1;
      } in
      let (shown, v) =
        cputchar-Shows inb outb addr c s q (inl (lo, omega (arith, hi))) h.shows h.valid in
      elim (Bool-cases (leb (crt_cols * h.row + crt_size) (q.cursor + 1))) [
        | inl e ↦
            let moved : write c q ≡ record put { top = h.row + 1 } = rw (char, e) refl in
            record {
              row = h.row + 1;
              begins = ground (arith, e, room);
              shows =
                  Shows-same (record put { top = h.row + 1 }) (with_line (c ∷ l) (h.row + 1) p) t
                    (λ i. refl) (omega arith) refl (subst (λ x. Shows x t) moved shown);
              valid = v;
            }
        | inr e ↦
            let stays : write c q ≡ put = rw (char, e) refl in
            record {
              row = h.row;
              begins = h.begins;
              shows =
                  Shows-same put (with_line (c ∷ l) h.row p) t (λ i. refl) (omega arith) refl
                    (subst (λ x. Shows x t) stays shown);
              valid = v;
            }
      ]

  erase-Sees :
      (p : Roll) (l : List ℕ) (c : ℕ) (s : D × Crt)
      → IsBlank p
      → Sees p (c ∷ l) s.1
      → Sees p l (cputchar inb outb addr 8 s).1
  unfolding cputchar
  erase-Sees p l c s blank h =
      let q = with_line (c ∷ l) h.row p in
      let away : 0 < s.1.pos = omega (arith, h.shows.place, h.begins) in
      let back = record q { cells = store q.cells (q.cursor - 1) 0x720; cursor = q.cursor - 1 } in
      let behind = over-blank p.cells p.cursor l blank (p.cursor + length l) (omega arith) in
      let shown =
        Shows-same back (with_line l h.row p)
          (record { buf = set s.1.buf (s.1.pos - 1) 0x720; pos = s.1.pos - 1 })
          (λ i. ground (arith, behind)) (omega arith) refl
          (erased-Shows q s.1 h.shows away h.valid.inside) in
      record {
        row = h.row;
        begins = h.begins;
        shows =
            subst (Shows (with_line l h.row p)) (sym (backspace inb outb addr s h.valid away))
              shown;
        valid = cons_putc-IsValid inb outb addr 8 s h.valid;
      }

  erase_last-Sees :
      (p : Roll) (l : List ℕ) (s : D × Crt)
      → IsBlank p
      → 0 < length l
      → Sees p l s.1
      → Sees p (drop_last l) (cputchar inb outb addr 8 s).1
  erase_last-Sees p [] s blank z h = absurd (omega (arith, z))
  erase_last-Sees p (c ∷ l) s blank z h = erase-Sees p l c s blank h

  key-Sees :
      (p : Roll) (l : List ℕ) (c : ℕ) (s : D × Crt)
      → IsBlank p
      → c < 2 ^ 8
      → Sees p l s.1
      → Sees p (press c l) (shown_key (cputchar inb outb addr) true c (length l) s).1
  key-Sees p l c s blank hi h = elim (Bool-cases (erases c && ltb 0 (length l))) [
    | inl e ↦ rw e (erase_last-Sees p l s blank (ground (arith, e)) h)
    | inr e ↦ elim (Bool-cases (leb b' ' c && ltb (length l) (buflen - 1))) [
      | inl f ↦ rw (e, f) (char-Sees p l c s (ground (arith, f)) hi (ground (arith, f)) h)
      | inr f ↦ rw (e, f) h
    ]
  ]

  keys-Sees :
      (p : Roll) (keys l : List ℕ) (s : D × Crt)
      → IsBlank p
      → All IsKey keys
      → Sees p l s.1
      → Sees p (typed keys l) (shown_keys (cputchar inb outb addr) true keys l s).1
  keys-Sees p [] l s blank k h = h
  keys-Sees p (c ∷ keys) l s blank (k, ks) h =
      keys-Sees p keys (press c l) (shown_key (cputchar inb outb addr) true c (length l) s) blank ks
        (key-Sees p l c s blank k.1 h)

  prompt-Sees :
      (p : Roll) (prompt : List ℕ) (s : D × Crt)
      → All IsPrintable prompt
      → Shows p s.1
      → IsValid s.1
      → Sees (written prompt p) [] (emit (cputchar inb outb addr) (shown_chars prompt) s).1
  prompt-Sees p prompt s a h v =
      let start = written prompt p in
      let (shown, v') = emit-Shows inb outb addr prompt s p (printable-IsText prompt a) h v in
      let seen : Sees start [] (emit (cputchar inb outb addr) prompt s).1 = record {
        row = start.top;
        begins = omega (arith, shown.place);
        shows =
            Shows-same start (with_line [] start.top start)
              (emit (cputchar inb outb addr) prompt s).1 (λ i. refl) (omega arith) refl shown;
        valid = v';
      } in
      subst (λ t. Sees start [] (emit (cputchar inb outb addr) t s).1)
        (sym (shown_chars-printable prompt a)) seen

  -- On a valid display that shows a window of a roll, blank from its cursor on, with a prompt of
  -- fewer than 2 ^ 31 printable ASCII characters, and with fuel for the prompt: keys of which none
  -- is Enter, and Enter, have `readline` return its buffer with the edited line as a string, and
  -- the valid display then shows the roll with the prompt, the very line that is returned, and
  -- behind it a new line. Of the characters that were erased nothing is left, also where the
  -- display has scrolled.
  pub readline-Shows :
      (fuel buf : ℕ) (prompt keys : List ℕ) (enter : ℕ) (input : List ℤ) (m : Memory) (s : D × Crt)
      (p : Roll)
      → All IsPrintable prompt
      → length prompt < 2 ^ 31
      → length prompt + 3 ≤ fuel
      → All IsKey keys
      → IsEnter enter
      → Shows p s.1
      → IsValid s.1
      → IsBlank p
      → (m' : Memory) × (s' : D × Crt) × (row : ℕ) × (readline
            (cputchar inb outb addr)
            fuel
            buf
            (some prompt)
            (input_of keys (pos enter ∷ input))
            m
            s
          ≡ some (some buf, m', input, s'))
        × IsStr m' buf (turned (typed keys []) [])
        × Shows (write 10 (with_line (typed keys []) row (written prompt p))) s'.1
        × IsValid s'.1
  readline-Shows fuel buf prompt keys enter input m s p a b f k e h v blank =
      let start = written prompt p in
      let after = emit (cputchar inb outb addr) (shown_chars prompt) s in
      let line = typed keys [] in
      let seen =
        keys-Sees start keys [] after (written-IsBlank prompt p blank) k
          (prompt-Sees p prompt s a h v) in
      let (shown, v') =
        cputchar-Shows inb outb addr 10 (shown_keys (cputchar inb outb addr) true keys [] after)
          (with_line line seen.row start) (inr refl) seen.shows seen.valid in
      (
        line_stored (cputchar inb outb addr) keys buf m,
        line_shown (cputchar inb outb addr) prompt keys s,
        seen.row,
        readline-stored (cputchar inb outb addr) fuel buf prompt keys enter input m s
            (printable-nonzero prompt a) b f k e,
        line_stored-IsStr (cputchar inb outb addr) keys buf m k,
        shown,
        v',
      )
