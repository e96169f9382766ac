-- ===== src/Init/Session.antt =====
-- kern/monitor.c: `monitor` over the lines that are typed to it.
use mit_jos_cse.Prelude.{
  ℕ, zero, suc, ◌+◌, ◌≤◌, ◌<◌, ◌≡◌, inl, inr, refl, sym, ap, ◌∙◌, List, [], ◌∷◌, Option, none, some,
  Option-cases, arith, length, All, Memory, IsStr, ℤ, pos, negsuc, ok, Run, stopped, unfinished,
}
use mit_jos_cse.Printf.Number.{emit}
use mit_jos_cse.Printf.Meaning.{Item, plain, format_text}
use mit_jos_cse.Printf.Meaning
use mit_jos_cse.Readline.{buflen, readline}
use mit_jos_cse.Readline.Line.{input_of}
use mit_jos_cse.Readline.Prompt.{
  line_stored, line_shown, readline-stored, line_stored-IsStr, line_stored-Outside,
}
use mit_jos_cse.Monitor.{Strings, Command, runcmd}
use mit_jos_cse.Monitor.Run.{plains-IsItem}
use mit_jos_cse.Monitor.Apart.{AreStrings}
use mit_jos_cse.Monitor.Answer.{
  SameOutside, AreStrings-kept, CallKeeps, answer, runcmd-answer, answer-kept,
}
use mit_jos_cse.Init.{Texts, monitor_loop, monitor}
use mit_jos_cse.Init.Panic.{say-printed}
use mit_jos_cse.Init.Lines.{
  returned, waiting, unended, Typed, line_of, IsTyped, inputs, Outcome, prompt, welcome_text,
  help_text, welcome_items, help_items, line_of-short,
}

module _ {ℓ} {S : Type ℓ} (cputchar : ℕ → S → S) (fuel : ℕ) (texts : Texts)
    (call : ℕ → ℕ → List ℕ → Memory → S → Option (ℤ × Memory × S)) (buf : ℕ) (strings : Strings)
    (commands : List Command) (names : List (List ℕ)) where
  -- What a session comes to: each line is echoed behind the prompt and answered, until an answer is
  -- negative.
  abbrev pub session : Memory → S → List Typed → Outcome S
  session m s [] = waiting m s
  session m s (t ∷ ls) =
      elim (answer cputchar call commands names buf (line_of t) (line_stored cputchar t.0 buf m)
        (line_shown cputchar prompt t.0 s)) [
          | none ↦ unended
          | some (negsuc n, m', s') ↦ returned m' ls s'
          | some (pos n, m', s') ↦ session m' s' ls
        ]

  abbrev session_after : List Typed → Option (ℤ × Memory × S) → Outcome S
  session_after ls none = unended
  session_after ls (some (negsuc n, m', s')) = returned m' ls s'
  session_after ls (some (pos n, m', s')) = session m' s' ls

  -- How the loop goes on from there, with more rounds and more input.
  abbrev pub reached : ℕ → List ℤ → Outcome S → Run (Memory × List ℤ × S)
  reached rounds rest (returned m' left s') = ok (m', inputs left rest, s')
  reached rounds rest (waiting m' s') =
      monitor_loop cputchar fuel texts call rounds buf strings commands m' rest s'
  reached rounds rest unended = stopped unfinished

  line_read :
      (t : Typed) (rest : List ℤ) (m : Memory) (s : S)
      → IsTyped t
      → 6 ≤ fuel
      → readline cputchar fuel buf (some prompt) (input_of t.0 (pos t.1 ∷ rest)) m s
        ≡ some (some buf, line_stored cputchar t.0 buf m, rest, line_shown cputchar prompt t.0 s)
  line_read t rest m s (k, e, short) f =
      readline-stored cputchar fuel buf prompt t.0 t.1 rest m s (omega arith) (omega arith)
        (omega arith) k e

  line_answered :
      (t : Typed) (m : Memory) (s : S)
      → IsTyped t
      → AreStrings m strings commands names buf buflen
      → 0 < buf
      → 1050 ≤ fuel
      → runcmd cputchar call fuel strings commands (line_stored cputchar t.0 buf m) buf s
        ≡ answer cputchar call commands names buf (line_of t) (line_stored cputchar t.0 buf m) s
  line_answered t m s (k, e, short) st nz f =
      let m1 = line_stored cputchar t.0 buf m in
      let fits : length (line_of t) < buflen = line_of-short t in
      runcmd-answer cputchar call commands names fuel strings m1 buf (line_of t) s
        (line_stored-IsStr cputchar t.0 buf m k)
        (AreStrings-kept m m1 strings commands names buf buflen (length (line_of t))
          (line_stored-Outside cputchar t.0 buf m) (omega arith) st)
        nz (omega arith) (omega arith) short

  round_ends :
      (rounds : ℕ) (t : Typed) (rest : List ℤ) (m m' : Memory) (s s' : S) (n : ℕ)
      → readline cputchar fuel buf (some prompt) (input_of t.0 (pos t.1 ∷ rest)) m s
        ≡ some (some buf, line_stored cputchar t.0 buf m, rest, line_shown cputchar prompt t.0 s)
      → runcmd cputchar call fuel strings commands
          (line_stored cputchar t.0 buf m)
          buf
          (line_shown cputchar prompt t.0 s)
        ≡ some (negsuc n, m', s')
      → monitor_loop cputchar fuel texts call
          (suc rounds)
          buf
          strings
          commands
          m
          (input_of t.0 (pos t.1 ∷ rest))
          s
        ≡ ok (m', rest, s')
  unfolding monitor_loop
  round_ends rounds t rest m m' s s' n e f = rw (e, f, monitor_loop) refl

  round_goes_on :
      (rounds : ℕ) (t : Typed) (rest : List ℤ) (m m' : Memory) (s s' : S) (n : ℕ)
      → readline cputchar fuel buf (some prompt) (input_of t.0 (pos t.1 ∷ rest)) m s
        ≡ some (some buf, line_stored cputchar t.0 buf m, rest, line_shown cputchar prompt t.0 s)
      → runcmd cputchar call fuel strings commands
          (line_stored cputchar t.0 buf m)
          buf
          (line_shown cputchar prompt t.0 s)
        ≡ some (pos n, m', s')
      → monitor_loop cputchar fuel texts call
          (suc rounds)
          buf
          strings
          commands
          m
          (input_of t.0 (pos t.1 ∷ rest))
          s
        ≡ monitor_loop cputchar fuel texts call rounds buf strings commands m' rest s'
  unfolding monitor_loop
  round_goes_on rounds t rest m m' s s' n e f = rw (e, f, monitor_loop) refl

  round_stuck :
      (rounds : ℕ) (t : Typed) (rest : List ℤ) (m : Memory) (s : S)
      → readline cputchar fuel buf (some prompt) (input_of t.0 (pos t.1 ∷ rest)) m s
        ≡ some (some buf, line_stored cputchar t.0 buf m, rest, line_shown cputchar prompt t.0 s)
      → runcmd cputchar call fuel strings commands
          (line_stored cputchar t.0 buf m)
          buf
          (line_shown cputchar prompt t.0 s)
        ≡ none
      → monitor_loop cputchar fuel texts call
          (suc rounds)
          buf
          strings
          commands
          m
          (input_of t.0 (pos t.1 ∷ rest))
          s
        ≡ stopped unfinished
  unfolding monitor_loop
  round_stuck rounds t rest m s e f = rw (e, f, monitor_loop) refl

  answered-kept :
      (t : Typed) (m m' : Memory) (s s' : S) (r : ℤ)
      → CallKeeps cputchar call commands names buf buflen
      → answer cputchar call commands names buf (line_of t) (line_stored cputchar t.0 buf m) s
        ≡ some (r, m', s')
      → SameOutside buf buflen m m'
  answered-kept t m m' s s' r keeps e x o =
      let fits : length (line_of t) < buflen = line_of-short t in
      answer-kept cputchar call commands names buf buflen (line_of t)
        (line_stored cputchar t.0 buf m) s r m' s' (omega arith) keeps e x o
      ∙ line_stored-Outside cputchar t.0 buf m x o

  monitor_loop_lem :
      (n rounds : ℕ) (ls : List Typed) (rest : List ℤ) (m : Memory) (s : S)
      → All IsTyped ls
      → AreStrings m strings commands names buf buflen
      → CallKeeps cputchar call commands names buf buflen
      → 0 < buf
      → 1050 ≤ fuel
      → n ≡ length ls + rounds
      → monitor_loop cputchar fuel texts call n buf strings commands m (inputs ls rest) s
        ≡ reached rounds rest (session m s ls)
  monitor_loop_lem n rounds [] rest m s h st keeps nz f b =
      ap (λ k. monitor_loop cputchar fuel texts call k buf strings commands m rest s) {y = rounds}
        (omega (arith, b))
  monitor_loop_lem zero rounds (t ∷ ls) rest m s h st keeps nz f b = absurd (omega (arith, b))
  monitor_loop_lem (suc n) rounds (t ∷ ls) rest m s (h, hs) st keeps nz f b =
      let s1 = line_shown cputchar prompt t.0 s in
      let o =
        answer cputchar call commands names buf (line_of t) (line_stored cputchar t.0 buf m) s1 in
      let read = line_read t (inputs ls rest) m s h (omega arith) in
      let run = line_answered t m s1 h st nz f in
      let to_session : (x : Option (ℤ × Memory × S))
          → o ≡ x
          → reached rounds rest (session_after ls x) ≡ reached rounds rest (session m s (t ∷ ls)) =
        λ x a. ap (λ y. reached rounds rest (session_after ls y)) (sym a) in
      elim (Option-cases o) [
        | inl a ↦ round_stuck n t (inputs ls rest) m s read (run ∙ a) ∙ to_session none a
        | inr ((negsuc k, m1, s2), a) ↦
            round_ends n t (inputs ls rest) m m1 s s2 k read (run ∙ a)
            ∙ to_session (some (negsuc k, m1, s2)) a
        | inr ((pos k, m1, s2), a) ↦
            round_goes_on n t (inputs ls rest) m m1 s s2 k read (run ∙ a)
            ∙ monitor_loop_lem n rounds ls rest m1 s2 hs
                (AreStrings-kept m m1 strings commands names buf buflen buflen
                  (answered-kept t m m1 s1 s2 (pos k) keeps a) (omega arith) st)
                keeps nz f (omega (arith, b))
            ∙ to_session (some (pos k, m1, s2)) a
      ]

  -- Where the texts of `monitor` and of `runcmd` stand in the memory, apart from the line buffer,
  -- where the commands change nothing but that buffer, and with fuel for a line: on typed lines of
  -- at most 15 words, `monitor` prints its two lines of welcome, and then for each line the prompt,
  -- the echo of the keys, and what `runcmd` answers to its words: the command of that name is called
  -- with them, or the word is reported as unknown. While the answers are not negative, as those of
  -- all the kernel's commands, it goes on, and after the lines is at the head of its loop, with the
  -- input behind them; at a negative answer it returns with the lines behind unread; and it does not
  -- end where a command does not.
  pub monitor_lem :
      (rounds : ℕ) (ls : List Typed) (rest : List ℤ) (m : Memory) (s : S)
      → IsStr m texts.welcome (format_text welcome_items)
      → IsStr m texts.type_help (format_text help_items)
      → AreStrings m strings commands names buf buflen
      → CallKeeps cputchar call commands names buf buflen
      → 0 < buf
      → 1050 ≤ fuel
      → All IsTyped ls
      → let greeted = emit cputchar (Meaning.printed welcome_items) s in
        monitor cputchar fuel texts call
          (length ls + rounds)
          buf
          strings
          commands
          m
          (inputs ls rest)
          s
        ≡ reached rounds rest (session m (emit cputchar (Meaning.printed help_items) greeted) ls)
  unfolding monitor
  monitor_lem rounds ls rest m s hw hh st keeps nz f h =
      let s1 = emit cputchar (Meaning.printed welcome_items) s in
      let greeted =
        say-printed cputchar fuel texts m texts.welcome welcome_items s hw
          (plains-IsItem m welcome_text (plain 10 ∷ []) (omega arith) (omega arith))
          (omega arith) in
      let helped =
        say-printed cputchar fuel texts m texts.type_help help_items s1 hh
          (plains-IsItem m help_text (plain 10 ∷ []) (omega arith) (omega arith)) (omega arith) in
      rw (greeted, helped, monitor)
        (monitor_loop_lem (length ls + rounds) rounds ls rest m
          (emit cputchar (Meaning.printed help_items) s1) h st keeps nz f refl)
