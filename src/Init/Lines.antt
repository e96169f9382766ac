-- ===== src/Init/Lines.antt =====
-- kern/monitor.c: the lines that are typed to `monitor`, and what they come to.
use mit_jos_cse.Prelude.{
  ℕ, ◌+◌, ◌≤◌, ◌<◌, ◌≡◌, List, [], ◌∷◌, false, arith, length, codes, All, Memory, ℤ, pos,
}
use mit_jos_cse.Printf.Meaning.{Item, plain}
use mit_jos_cse.Readline.{buflen}
use mit_jos_cse.Readline.Line.{IsKey, IsEnter, typed, turned, input_of, typed-short}
use mit_jos_cse.Monitor.Words.{words}
use mit_jos_cse.Monitor.Run.{plains}

-- A line as it is typed: its keys, and the key that ends it.
abbrev pub Typed : Type 0
Typed = List ℕ × ℕ

-- The line that its keys make.
abbrev pub line_of : Typed → List ℕ
line_of (keys, enter) = turned (typed keys []) []

-- The keys are characters and end with Enter, and the line has at most 15 words.
abbrev pub IsTyped : Typed → Type 0
IsTyped (keys, enter) =
    All IsKey keys × IsEnter enter × (length (words false (line_of (keys, enter))) ≤ 15)

-- What `getchar` returns for the lines, and then.
abbrev pub inputs : List Typed → List ℤ → List ℤ
inputs [] rest = rest
inputs ((keys, enter) ∷ ls) rest = input_of keys (pos enter ∷ inputs ls rest)

-- What the monitor has come to after some lines: a command has returned a negative number, with
-- lines left; it asks for the next line; or a command has not ended.
pub data Outcome {ℓ} (S : Type ℓ) : Type ℓ where
  returned : Memory → List Typed → S → Outcome S
  waiting : Memory → S → Outcome S
  unended : Outcome S

abbrev pub prompt : List ℕ
prompt = codes "K> "

abbrev pub welcome_text : List ℕ
welcome_text = codes "Welcome to the JOS kernel monitor!"

abbrev pub help_text : List ℕ
help_text = codes "Type 'help' for a list of commands."

abbrev pub welcome_items : List Item
welcome_items = plains welcome_text (plain 10 ∷ [])

abbrev pub help_items : List Item
help_items = plains help_text (plain 10 ∷ [])

length-turned : (l r : List ℕ) → length (turned l r) ≡ length l + length r
length-turned [] r = omega arith
length-turned (c ∷ l) r = omega (arith, length-turned l (c ∷ r))

pub line_of-short : (t : Typed) → length (line_of t) < buflen
line_of-short t = omega (arith, length-turned (typed t.0 []) [], typed-short t.0 [] (omega arith))
