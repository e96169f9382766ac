-- ===== src/Readline/Live.antt =====
-- lib/readline.c: `readline` where `getchar` and `cputchar` act on one state, in which what is shown
-- may change what is read next. `getchar` gives `none` where it waits for ever.
use mit_jos_cse.Prelude.{
  ℕ, zero, suc, ◌+◌, ◌-◌, ◌%◌, ◌^◌, ◌≤◌, ◌<◌, ◌≡◌, ◌≢◌, refl, ap, ◌∙◌, inl, inr, List, [], ◌∷◌,
  ◌++◌, Option, none, some, Bool, true, false, ◌&&◌, ◌||◌, arith, leb, ltb, ◌==◌, if◌then◌else◌,
  codes, length, All, Memory, store, ℤ, pos, negsuc, Bool-cases,
}
use mit_jos_cse.Printf.Number.{emit}
use mit_jos_cse.Printf.Format.{literal}
use mit_jos_cse.Printf.Cprintf.{cprintf}
use mit_jos_cse.Printf.Escape.{shown_chars}
use mit_jos_cse.Readline.{buflen, iscons, echo}
use mit_jos_cse.Readline.Line.{
  IsKey, IsEnter, erases, press, typed, shown_key, key_stored, keys_stored, length-drop_last,
}
use mit_jos_cse.Readline.Prompt.{line_stored, cprintf-prompt}

module _ {ℓ} {S : Type ℓ} (getchar : S → Option (ℤ × S)) (cputchar : ℕ → S → S) where
  -- `cprintf("read error: %e\n", c)` for the number -(n + 1)
  unfoldable pub report : ℕ → ℕ → Memory → S → Option (Option ℕ × Memory × S)
  report fuel n m s =
      elim (cprintf cputchar fuel (literal (codes "read error: %e\n")) 0 ((2 ^ 64 - 1 - n) ∷ [])
        s) [ none ↦ none | some (printed, s') ↦ some (none, m, s') ]

  -- `while (1)`, with fuel for the rounds
  unfoldable pub read_loop : ℕ → ℕ → Bool → ℕ → Memory → ℕ → S → Option (Option ℕ × Memory × S)
  unfolding report
  read_loop zero fuel echoing buf m i s = none
  read_loop (suc rounds) fuel echoing buf m i s = elim (getchar s) [
    | none ↦ none
    | some (negsuc n, s1) ↦ report fuel n m s1
    | some (pos c, s1) ↦
        let erased = read_loop rounds fuel echoing buf m (i - 1) (echo cputchar echoing 8 s1) in
        let stored = store m (buf + i) (c % 2 ^ 8) in
        let inserted =
          read_loop rounds fuel echoing buf stored (i + 1) (echo cputchar echoing c s1) in
        let ignored = read_loop rounds fuel echoing buf m i s1 in
        if (c == 8 || c == 127) && ltb 0 i
        then erased
        else if leb b' ' c && ltb i (buflen - 1)
        then inserted
        else if c == 10 || c == 13
        then some (some buf, store m (buf + i) 0, echo cputchar echoing 10 s1)
        else ignored
  ]

  unfoldable pub readline_live :
      ℕ → ℕ → ℕ → Option (List ℕ) → Memory → S → Option (Option ℕ × Memory × S)
  unfolding read_loop
  readline_live rounds fuel buf none m s = read_loop rounds fuel (iscons 0) buf m 0 s
  readline_live rounds fuel buf (some prompt) m s =
      elim (cprintf cputchar fuel (literal (codes "%s" ++ 0 ∷ prompt)) 0 (3 ∷ []) s) [
        | none ↦ none
        | some (printed, s') ↦ read_loop rounds fuel (iscons 0) buf m 0 s'
      ]

  read_loop-key :
      (rounds fuel buf c : ℕ) (m : Memory) (l : List ℕ) (s s1 : S)
      → IsKey c
      → getchar s ≡ some (pos c, s1)
      → read_loop (suc rounds) fuel true buf m (length l) s
        ≡ read_loop rounds fuel true buf
            (key_stored cputchar c buf m l)
            (length (press c l))
            (shown_key cputchar true c (length l) s1)
  unfolding read_loop
  read_loop-key rounds fuel buf c m l s s1 k g =
      let no_enter : (c == 10 || c == 13) ≡ false = ground (arith, k) in
      elim (Bool-cases (erases c && ltb 0 (length l))) [
        | inl e ↦
            rw (g, e, read_loop)
              (ap (λ i. read_loop rounds fuel true buf m i (echo cputchar true 8 s1))
                (length-drop_last l))
        | inr e ↦ elim (Bool-cases (leb b' ' c && ltb (length l) (buflen - 1))) [
          | inl f ↦
              rw (g, e, f, read_loop)
                (ap
                  (λ i.
                    read_loop rounds fuel true buf (store m (buf + length l) (c % 2 ^ 8)) i
                      (echo cputchar true c s1))
                  (omega arith))
          | inr f ↦ rw (g, e, f, no_enter, read_loop) refl
        ]
      ]

  read_loop-enter :
      (rounds fuel buf c : ℕ) (m : Memory) (i : ℕ) (s s1 : S)
      → IsEnter c
      → getchar s ≡ some (pos c, s1)
      → read_loop (suc rounds) fuel true buf m i s
        ≡ some (some buf, store m (buf + i) 0, cputchar 10 s1)
  unfolding read_loop
  read_loop-enter rounds fuel buf c m i s s1 h g = elim h [
    | inl e ↦ rw (g, e, read_loop) refl
    | inr e ↦ rw (g, e, read_loop) refl
  ]

  -- Each key is what `getchar` returns after the one before it was shown.
  abbrev pub Keyed : List ℕ → S → List ℕ → S → Type ℓ
  Keyed l s [] s' = s ≡ s'
  Keyed l s (c ∷ keys) s' =
      (s1 : S) × (getchar s ≡ some (pos c, s1))
      × Keyed (press c l) (shown_key cputchar true c (length l) s1) keys s'

  read_loop-Keyed :
      (rounds fuel buf : ℕ) (keys : List ℕ) (m : Memory) (l : List ℕ) (s s' : S)
      → All IsKey keys
      → Keyed l s keys s'
      → length keys ≤ rounds
      → read_loop rounds fuel true buf m (length l) s
        ≡ read_loop
            (rounds - length keys)
            fuel
            true
            buf
            (keys_stored cputchar keys buf m l)
            (length (typed keys l))
            s'
  read_loop-Keyed rounds fuel buf [] m l s s' k h b =
      ap (read_loop rounds fuel true buf m (length l)) h
      ∙ ap (λ n. read_loop n fuel true buf m (length l) s') (omega arith)
  read_loop-Keyed zero fuel buf (c ∷ keys) m l s s' k h b = absurd (omega arith)
  read_loop-Keyed (suc rounds) fuel buf (c ∷ keys) m l s s' (k, ks) (s1, g, h) b =
      read_loop-key rounds fuel buf c m l s s1 k g
      ∙ read_loop-Keyed rounds fuel buf keys (key_stored cputchar c buf m l) (press c l)
          (shown_key cputchar true c (length l) s1) s' ks h (omega arith)
      ∙ ap
          (λ n.
            read_loop n fuel true buf (keys_stored cputchar (c ∷ keys) buf m l)
              (length (typed (c ∷ keys) l)) s')
          (omega arith)

  -- If `getchar` returns keys, none of them Enter, each after the one before was shown, and then
  -- Enter, `readline` ends with the memory and the buffer that the keys make, with as many rounds as
  -- keys and one for Enter.
  pub readline_live-Keyed :
      (rounds fuel buf : ℕ) (prompt keys : List ℕ) (enter : ℕ) (m : Memory) (s s1 s2 : S)
      → All (λ c. c ≢ 0) prompt
      → length prompt < 2 ^ 31
      → length prompt + 3 ≤ fuel
      → All IsKey keys
      → IsEnter enter
      → Keyed [] (emit cputchar (shown_chars prompt) s) keys s1
      → getchar s1 ≡ some (pos enter, s2)
      → length keys < rounds
      → readline_live rounds fuel buf (some prompt) m s
        ≡ some (some buf, line_stored cputchar keys buf m, cputchar 10 s2)
  unfolding readline_live
  readline_live-Keyed rounds fuel buf prompt keys enter m s s1 s2 n b f k e h g r =
      let m' = keys_stored cputchar keys buf m [] in
      let left : rounds - length keys ≡ suc (rounds - length keys - 1) = omega arith in
      rw (cprintf-prompt cputchar fuel prompt s n b f, readline_live)
        (read_loop-Keyed rounds fuel buf keys m [] (emit cputchar (shown_chars prompt) s) s1 k h
            (omega arith)
          ∙ ap (λ i. read_loop i fuel true buf m' (length (typed keys [])) s1) left
          ∙ read_loop-enter (rounds - length keys - 1) fuel buf enter m' (length (typed keys [])) s1
              s2 e g)
