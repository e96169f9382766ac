-- ===== src/Readline/Prompt.antt =====
-- lib/readline.c: `readline` from the prompt to the end of the line.
use mit_jos_cse.Prelude.{
  ℕ, suc, ◌+◌, ◌^◌, ◌≤◌, ◌<◌, ◌≡◌, ◌≢◌, refl, ap, ◌∙◌, inl, inr, List, [], ◌∷◌, ◌++◌, some, Bool,
  true, false, arith, get_or, codes, append-nil, replicate, pos_part, ◌-ℤ◌, length, All, Memory,
  IsStr, Outside, store, ℤ, pos, negsuc,
}
use mit_jos_cse.Printf.Number.{emit}
use mit_jos_cse.Printf.Format.{literal}
use mit_jos_cse.Printf.Format.Parse.{no_width, text}
use mit_jos_cse.Printf.Output.{collect}
use mit_jos_cse.Printf.Conversions.{none_missing}
use mit_jos_cse.Printf.Escape.{shown_chars}
use mit_jos_cse.Printf.Meaning.{escape, vprintfmt-printed, emit-collect}
use mit_jos_cse.Printf.Meaning
use mit_jos_cse.Printf.Cprintf.{cprintf, printed, cprintf_lem}
use mit_jos_cse.Readline.{buflen, echo, read_keys, readline}
use mit_jos_cse.Readline.Line.{
  IsKey, IsEnter, typed, turned, input_of, shown_keys, keys_stored, read_keys-typed,
  keys_stored-Holds, keys_stored-Outside, typed-short, Holds-store, IsStr-turned,
}

IsStr-literal :
    (m : Memory) (s : ℕ) (t : List ℕ)
    → ((i : ℕ) → m (s + i) ≡ get_or t i 0)
    → All (λ c. c ≢ 0) t
    → IsStr m s t
IsStr-literal m s [] h n = ap m (omega arith) ∙ h 0
IsStr-literal m s (c ∷ t) h n = (
  ap m (omega arith) ∙ h 0,
  n.0,
  IsStr-literal m (s + 1) t (λ i. ap m (omega arith) ∙ h (suc i)) n.1,
)

module _ {ℓ} {S : Type ℓ} (cputchar : ℕ → S → S) where
  -- The prompt is printed as it is.
  pub cprintf-prompt :
      (fuel : ℕ) (prompt : List ℕ) (s : S)
      → All (λ c. c ≢ 0) prompt
      → length prompt < 2 ^ 31
      → length prompt + 3 ≤ fuel
      → cprintf cputchar fuel (literal (codes "%s" ++ 0 ∷ prompt)) 0 (3 ∷ []) s
        ≡ some (0, emit cputchar (shown_chars prompt) s)
  cprintf-prompt fuel prompt s h b f =
      let m = literal (codes "%s" ++ 0 ∷ prompt) in
      let items = escape false no_width text 3 prompt ∷ [] in
      let three : (i : ℕ) → 3 + i ≡ suc (suc (suc i)) = λ i. omega arith in
      let there : IsStr m 3 prompt = IsStr-literal m 3 prompt (λ i. ap m (three i)) h in
      let all = shown_chars prompt in
      cprintf_lem cputchar fuel m 0 (3 ∷ []) s
      ∙ ap (printed cputchar s) (
          vprintfmt-printed collect fuel m 0 items [] (refl, omega arith, (refl, omega arith, refl))
            ((tt, (omega arith, there, b)), tt) (omega arith))
      ∙ ap (λ t. some (0, emit cputchar t s))
          (emit-collect (Meaning.printed items) []
            ∙ append-nil (replicate (pos_part (negsuc 0 -ℤ pos (length all))) b' ' ++ all)
            ∙ ap (λ k. replicate k b' ' ++ all) (none_missing (negsuc 0) (length all) refl))

  read_keys-enter :
      (fuel : ℕ) (echoing : Bool) (buf c : ℕ) (input : List ℤ) (m : Memory) (i : ℕ) (s : S)
      → IsEnter c
      → read_keys cputchar fuel echoing buf (pos c ∷ input) m i s
        ≡ some (some buf, store m (buf + i) 0, input, echo cputchar echoing 10 s)
  unfolding read_keys
  read_keys-enter fuel echoing buf c input m i s h = elim h [
    | inl e ↦ rw (e, read_keys) refl
    | inr e ↦ rw (e, read_keys) refl
  ]

stored-Outside :
    (m : Memory) (buf a i : ℕ) → Outside buf buflen a → i < buflen → store m (buf + i) 0 a ≡ m a
stored-Outside m buf a i o h = ground arith

module _ {ℓ} {S : Type ℓ} (cputchar : ℕ → S → S) where
  -- The memory and the console after a line was read at `buf`.
  abbrev pub line_stored : List ℕ → ℕ → Memory → Memory
  line_stored keys buf m =
      store (keys_stored cputchar keys buf m []) (buf + length (typed keys [])) 0

  abbrev pub line_shown : List ℕ → List ℕ → S → S
  line_shown prompt keys s =
      cputchar 10 (shown_keys cputchar true keys [] (emit cputchar (shown_chars prompt) s))

  pub readline-stored :
      (fuel buf : ℕ) (prompt keys : List ℕ) (enter : ℕ) (input : List ℤ) (m : Memory) (s : S)
      → All (λ c. c ≢ 0) prompt
      → length prompt < 2 ^ 31
      → length prompt + 3 ≤ fuel
      → All IsKey keys
      → IsEnter enter
      → readline cputchar fuel buf (some prompt) (input_of keys (pos enter ∷ input)) m s
        ≡ some (some buf, line_stored keys buf m, input, line_shown prompt keys s)
  unfolding readline
  readline-stored fuel buf prompt keys enter input m s n b f k e =
      let s' = emit cputchar (shown_chars prompt) s in
      rw (cprintf-prompt cputchar fuel prompt s n b f, readline)
        (read_keys-typed cputchar fuel true buf keys (pos enter ∷ input) m [] s' k
          ∙ read_keys-enter cputchar fuel true buf enter input (keys_stored cputchar keys buf m [])
              (length (typed keys [])) (shown_keys cputchar true keys [] s') e)

  -- The line that stands there, and what does not change.
  pub line_stored-IsStr :
      (keys : List ℕ) (buf : ℕ) (m : Memory)
      → All IsKey keys
      → IsStr (line_stored keys buf m) buf (turned (typed keys []) [])
  line_stored-IsStr keys buf m k =
      let line = typed keys [] in
      let m' = keys_stored cputchar keys buf m [] in
      IsStr-turned (store m' (buf + length line) 0) buf line []
        (Holds-store m' buf (buf + length line) 0 line (omega arith)
          (keys_stored-Holds cputchar keys buf m [] k tt))
        (ground arith)

  pub line_stored-Outside :
      (keys : List ℕ) (buf : ℕ) (m : Memory) (a : ℕ)
      → Outside buf buflen a
      → line_stored keys buf m a ≡ m a
  line_stored-Outside keys buf m a o =
      stored-Outside (keys_stored cputchar keys buf m []) buf a (length (typed keys [])) o
        (typed-short keys [] (omega arith))
      ∙ keys_stored-Outside cputchar keys buf a m [] o

-- After a prompt that is a text of fewer than 2 ^ 31 bytes, keys of which none is Enter, and Enter,
-- with fuel for the prompt: `readline` returns its buffer, and the buffer holds the edited line as
-- a string. Each printable key was added to the line up to 1023 characters, a backspace or delete
-- took the last one away, and any other key was ignored; a delete at an empty line is added.
-- Nothing but the buffer of 1024 bytes changed, the input behind Enter is left, and the console
-- has shown the prompt, each key that had an effect, and a new line.
pub readline_lem {ℓ} :
    {S : Type ℓ} (cputchar : ℕ → S → S) (fuel buf : ℕ) (prompt keys : List ℕ) (enter : ℕ)
    (input : List ℤ) (m : Memory) (s : S)
    → All (λ c. c ≢ 0) prompt
    → length prompt < 2 ^ 31
    → length prompt + 3 ≤ fuel
    → All IsKey keys
    → IsEnter enter
    → (m' : Memory) × (readline cputchar fuel buf
          (some prompt)
          (input_of keys (pos enter ∷ input))
          m
          s
        ≡ some (
          some buf,
          m',
          input,
          cputchar 10 (shown_keys cputchar true keys [] (emit cputchar (shown_chars prompt) s)),
        ))
      × IsStr m' buf (turned (typed keys []) [])
      × (length (typed keys []) < buflen)
      × ((a : ℕ) → Outside buf buflen a → m' a ≡ m a)
readline_lem cputchar fuel buf prompt keys enter input m s n b f k e = (
  line_stored cputchar keys buf m,
  readline-stored cputchar fuel buf prompt keys enter input m s n b f k e,
  line_stored-IsStr cputchar keys buf m k,
  typed-short keys [] (omega arith),
  line_stored-Outside cputchar keys buf m,
)
