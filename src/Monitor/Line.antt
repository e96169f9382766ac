-- ===== src/Monitor/Line.antt =====
-- kern/monitor.c: `runcmd` on a whole line.
use mit_jos_cse.Prelude.{
  ℕ, suc, ◌+◌, ◌^◌, ◌≤◌, ◌<◌, ◌≡◌, inl, inr, refl, ap, ◌∙◌, subst, List, [], ◌∷◌, Option, some,
  false, arith, length, All, Memory, IsStr, Outside, ℤ, pos, List-cases,
}
use mit_jos_cse.Printf.Number.{emit}
use mit_jos_cse.Printf.Meaning.{format_text}
use mit_jos_cse.Printf.Meaning
use mit_jos_cse.Printf.Cprintf.{cprintf}
use mit_jos_cse.Monitor.{Strings, Command, parsed, too_many, maxargs, parse_args, run_args, runcmd}
use mit_jos_cse.Monitor.Words.{words, starts}
use mit_jos_cse.Monitor.Split.{cleared}
use mit_jos_cse.Monitor.Parse.{parse_args_lem, parse_args-too_many}
use mit_jos_cse.Monitor.Held.{AllStr, words-AllStr, cleared-Outside}
use mit_jos_cse.Monitor.Run.{
  lookup, unknown_items, too_many_items, too_many_items-IsItem, cprintf-printed, dispatched,
  run_args_lem,
}
use mit_jos_cse.Monitor.Apart.{
  IsStr-Apart, AreNames-apart, length-starts, words-short, starts-ge, AreStrings,
}

module _ {ℓ} {S : Type ℓ} (cputchar : ℕ → S → S)
    (call : ℕ → ℕ → List ℕ → Memory → S → Option (ℤ × Memory × S)) (fuel : ℕ) (strings : Strings)
    (commands : List Command) (names : List (List ℕ)) (m : Memory) (buf : ℕ) (l : List ℕ)
    (s : S) where
  runcmd-parsed :
      (m' : Memory) (args : List ℕ)
      → parse_args fuel fuel strings m buf [] ≡ some (parsed m' args)
      → runcmd cputchar call fuel strings commands m buf s
        ≡ run_args cputchar call fuel strings commands m' args s
  unfolding runcmd
  runcmd-parsed m' args e = rw (e, runcmd) refl

  run_args-none :
      (m' : Memory) → run_args cputchar call fuel strings commands m' [] s ≡ some (pos 0, m', s)
  unfolding run_args
  run_args-none m' = refl

  runcmd-too_many_args :
      (m' : Memory) (s' : S)
      → parse_args fuel fuel strings m buf [] ≡ some (too_many m')
      → cprintf cputchar fuel m' strings.too_many_fmt (maxargs ∷ []) s ≡ some (0, s')
      → runcmd cputchar call fuel strings commands m buf s ≡ some (pos 0, m', s')
  unfolding runcmd
  runcmd-too_many_args m' s' e p = rw (e, p, runcmd) refl

  -- The case of a line with words: what is called, with the line cut into its words.
  pub runcmd-words :
      (w : List ℕ) (ws : List (List ℕ)) (arg : ℕ) (args : List ℕ)
      → IsStr m buf l
      → AreStrings m strings commands names buf (length l)
      → 0 < buf
      → length l < 2 ^ 31
      → length l + 26 ≤ fuel
      → words false l ≡ w ∷ ws
      → starts false buf l ≡ arg ∷ args
      → length ws < 15
      → AllStr (cleared m buf l) (arg ∷ args) (w ∷ ws)
        × (runcmd cputchar call fuel strings commands m buf s
            ≡ dispatched cputchar call (lookup w commands names) arg args w (cleared m buf l) s)
  runcmd-words w ws arg args h st nz b f e found short =
      let m' = cleared m buf l in
      let same = cleared-Outside m buf l in
      let counted : length (starts false buf l) ≡ suc (length ws) =
        length-starts false buf l ∙ ap length e in
      let parse =
        parse_args_lem fuel fuel strings m buf l [] st.white st.white_apart h (omega arith)
          (omega arith) (omega arith) in
      let held : AllStr m' (arg ∷ args) (w ∷ ws) =
        subst (λ x. AllStr m' x (w ∷ ws)) found
          (subst (AllStr m' (starts false buf l)) e (words-AllStr false m buf l h)) in
      let start : (buf ≤ arg) × All (λ a. buf ≤ a) args =
        subst (All (λ a. buf ≤ a)) found (starts-ge false buf buf l (omega arith)) in
      let first : (length w ≤ length l) × All (λ x. length x ≤ length l) ws =
        subst (All (λ x. length x ≤ length l)) e (words-short false (length l) l (omega arith)) in
      (
        held,
        runcmd-parsed m' (starts false buf l) parse
            ∙ ap (λ x. run_args cputchar call fuel strings commands m' x s) found
            ∙ run_args_lem cputchar call fuel strings commands names m' arg args w s
                (AreNames-apart m m' buf (length l) commands names same st.named_apart st.named)
                (IsStr-Apart m m' buf (length l) strings.unknown_fmt
                  (format_text (unknown_items 0 [])) same st.unknown_apart st.unknown)
                (omega (arith, start.0)) held.0 (omega (arith, first.0)) (omega (arith, first.0)),
      )

  -- On a line of at most 15 words, at an address that is not null and apart from the program's
  -- strings, and with fuel for the line and a message: `runcmd` finds the arguments, addresses at
  -- which the words of the line stand as strings, has changed nothing outside the line, and calls
  -- the first command named like the first word with all of them; if there is none, it prints
  -- "Unknown command" with that word.
  pub runcmd_lem :
      (w : List ℕ) (ws : List (List ℕ))
      → IsStr m buf l
      → AreStrings m strings commands names buf (length l)
      → 0 < buf
      → length l < 2 ^ 31
      → length l + 26 ≤ fuel
      → words false l ≡ w ∷ ws
      → length ws < 15
      → (arg : ℕ) × (args : List ℕ) × (m' : Memory) × AllStr m' (arg ∷ args) (w ∷ ws)
        × ((x : ℕ) → Outside buf (length l) x → m' x ≡ m x)
        × (runcmd cputchar call fuel strings commands m buf s
            ≡ dispatched cputchar call (lookup w commands names) arg args w m' s)
  runcmd_lem w ws h st nz b f e short = elim (List-cases (starts false buf l)) [
    | inl none_found ↦
        absurd (omega (arith, ap length none_found, length-starts false buf l, ap length e))
    | inr (arg, args, found) ↦
        let (held, run) = runcmd-words w ws arg args h st nz b f e found short in
        (arg, args, cleared m buf l, held, cleared-Outside m buf l, run)
  ]

  -- A line of blanks does nothing.
  pub runcmd-blank :
      IsStr m buf l
      → AreStrings m strings commands names buf (length l)
      → length l < fuel
      → words false l ≡ []
      → runcmd cputchar call fuel strings commands m buf s ≡ some (pos 0, cleared m buf l, s)
  runcmd-blank h st f e =
      let none_left : length (starts false buf l) ≡ 0 = length-starts false buf l ∙ ap length e in
      let parse =
        parse_args_lem fuel fuel strings m buf l [] st.white st.white_apart h f f (omega arith) in
      elim (List-cases (starts false buf l)) [
        | inl found ↦
            runcmd-parsed (cleared m buf l) (starts false buf l) parse
            ∙ ap (λ x. run_args cputchar call fuel strings commands (cleared m buf l) x s) found
            ∙ run_args-none (cleared m buf l)
        | inr (arg, args, found) ↦ absurd (omega (arith, ap length found))
      ]

  -- On a line of more than 15 words, apart from the program's strings and with fuel for the line and
  -- the message, `runcmd` calls no command: it prints the message about too many arguments, returns
  -- 0, and has changed nothing outside the line.
  pub runcmd-too_many :
      IsStr m buf l
      → AreStrings m strings commands names buf (length l)
      → length l < fuel
      → 29 ≤ fuel
      → 15 < length (words false l)
      → (m' : Memory) × ((x : ℕ) → Outside buf (length l) x → m' x ≡ m x)
        × (runcmd cputchar call fuel strings commands m buf s
            ≡ some (pos 0, m', emit cputchar (Meaning.printed too_many_items) s))
  runcmd-too_many h st f f36 many =
      let (m', parse, same) =
        parse_args-too_many fuel fuel strings m buf l [] st.white st.white_apart h f f (omega arith)
          (omega (arith, length-starts false buf l)) in
      (
        m',
        same,
        runcmd-too_many_args m' (emit cputchar (Meaning.printed too_many_items) s) parse (
            cprintf-printed cputchar fuel m' strings.too_many_fmt too_many_items s
              (IsStr-Apart m m' buf (length l) strings.too_many_fmt (format_text too_many_items)
                same st.many_apart st.many)
              (too_many_items-IsItem m') f36),
      )
