-- ===== src/Monitor/Answer.antt =====
-- kern/monitor.c: what a line of at most 15 words comes to, told by its words.
use mit_jos_cse.Prelude.{
  some_inj, ℕ, ◌+◌, ◌^◌, ◌≤◌, ◌<◌, ◌≡◌, inl, inr, sym, ap, ◌∙◌, List, [], ◌∷◌, Option, none, some,
  false, arith, length, Memory, IsStr, Outside, ℤ, pos, List-cases,
}
use mit_jos_cse.Printf.Meaning.{format_text}
use mit_jos_cse.Monitor.{Strings, Command, runcmd}
use mit_jos_cse.Monitor.Words.{words, starts}
use mit_jos_cse.Monitor.Args.{white_text}
use mit_jos_cse.Monitor.Split.{cleared}
use mit_jos_cse.Monitor.Held.{cleared-Outside}
use mit_jos_cse.Monitor.Run.{lookup, unknown_items, too_many_items, dispatched}
use mit_jos_cse.Monitor.Line.{runcmd-words, runcmd-blank}
use mit_jos_cse.Monitor.Apart.{ApartNames, AreStrings, IsStr-Apart, AreNames-apart, length-starts}

abbrev pub SameOutside : ℕ → ℕ → Memory → Memory → Type 0
SameOutside buf n m m' = (x : ℕ) → Outside buf n x → m' x ≡ m x

ApartNames-shorter :
    (buf n n' : ℕ) (cs : List Command) (names : List (List ℕ))
    → n' ≤ n
    → ApartNames buf n cs names
    → ApartNames buf n' cs names
ApartNames-shorter buf n n' [] names b h = tt
ApartNames-shorter buf n n' (c ∷ cs) [] b h = tt
ApartNames-shorter buf n n' (c ∷ cs) (x ∷ names) b h =
    (omega (arith, h.0), ApartNames-shorter buf n n' cs names b h.1)

-- The strings stay, also for a shorter line, when nothing but the line's bytes changes.
pub AreStrings-kept :
    (m m' : Memory) (strings : Strings) (commands : List Command) (names : List (List ℕ))
    (buf n n' : ℕ)
    → SameOutside buf n m m'
    → n' ≤ n
    → AreStrings m strings commands names buf n
    → AreStrings m' strings commands names buf n'
AreStrings-kept m m' strings commands names buf n n' same b st = record {
  white = IsStr-Apart m m' buf n strings.whitespace white_text same st.white_apart st.white;
  unknown =
      IsStr-Apart m m' buf n strings.unknown_fmt (format_text (unknown_items 0 [])) same
        st.unknown_apart st.unknown;
  many =
      IsStr-Apart m m' buf n strings.too_many_fmt (format_text too_many_items) same st.many_apart
        st.many;
  named = AreNames-apart m m' buf n commands names same st.named_apart st.named;
  white_apart = omega (arith, st.white_apart);
  unknown_apart = omega (arith, st.unknown_apart);
  many_apart = omega (arith, st.many_apart);
  named_apart = ApartNames-shorter buf n n' commands names b st.named_apart;
}

module _ {ℓ} {S : Type ℓ} (cputchar : ℕ → S → S)
    (call : ℕ → ℕ → List ℕ → Memory → S → Option (ℤ × Memory × S)) (commands : List Command)
    (names : List (List ℕ)) where
  -- What the words come to, with their addresses: a command, a message, or nothing.
  abbrev pub reply : List (List ℕ) → List ℕ → Memory → S → Option (ℤ × Memory × S)
  reply (w ∷ ws) (arg ∷ args) m s =
      dispatched cputchar call (lookup w commands names) arg args w m s
  reply _ _ m s = some (pos 0, m, s)

  -- The same for the line at `buf`, which is cut into its words.
  abbrev pub answer : ℕ → List ℕ → Memory → S → Option (ℤ × Memory × S)
  answer buf l m s = reply (words false l) (starts false buf l) (cleared m buf l) s

  pub runcmd-answer :
      (fuel : ℕ) (strings : Strings) (m : Memory) (buf : ℕ) (l : List ℕ) (s : S)
      → IsStr m buf l
      → AreStrings m strings commands names buf (length l)
      → 0 < buf
      → length l < 2 ^ 31
      → length l + 26 ≤ fuel
      → length (words false l) ≤ 15
      → runcmd cputchar call fuel strings commands m buf s ≡ answer buf l m s
  runcmd-answer fuel strings m buf l s h st nz b f short = elim (List-cases (words false l)) [
    | inl e ↦
        runcmd-blank cputchar call fuel strings commands names m buf l s h st (omega arith) e
        ∙ ap (λ x. reply x (starts false buf l) (cleared m buf l) s) (sym e)
    | inr (w, ws, e) ↦ elim (List-cases (starts false buf l)) [
      | inl none_found ↦
          absurd (omega (arith, ap length none_found, length-starts false buf l, ap length e))
      | inr (arg, args, found) ↦
          let (held, run) =
            runcmd-words cputchar call fuel strings commands names m buf l s w ws arg args h st nz b
              f e found (omega (arith, short, ap length e)) in
          run
          ∙ ap (λ x. reply (w ∷ ws) x (cleared m buf l) s) (sym found)
          ∙ ap (λ x. reply x (starts false buf l) (cleared m buf l) s) (sym e)
    ]
  ]

  -- The commands change nothing but the bytes of the line buffer.
  abbrev pub CallKeeps : ℕ → ℕ → Type ℓ
  CallKeeps buf n =
      (func argc : ℕ) (argv : List ℕ) (m : Memory) (s : S) (r : ℤ) (m' : Memory) (s' : S)
      → call func argc argv m s ≡ some (r, m', s')
      → SameOutside buf n m m'

  dispatched-kept :
      (buf n : ℕ) (o : Option Command) (arg : ℕ) (args w : List ℕ) (m : Memory) (s : S) (r : ℤ)
      (m' : Memory) (s' : S)
      → CallKeeps buf n
      → dispatched cputchar call o arg args w m s ≡ some (r, m', s')
      → SameOutside buf n m m'
  dispatched-kept buf n (some c) arg args w m s r m' s' keeps e =
      keeps c.func (length (arg ∷ args)) (arg ∷ args) m s r m' s' e
  dispatched-kept buf n none arg args w m s r m' s' keeps e =
      λ x o. ap (λ t. t.1 x) (some_inj (sym e))

  reply-kept :
      (buf n : ℕ) (ws : List (List ℕ)) (args : List ℕ) (m : Memory) (s : S) (r : ℤ) (m' : Memory)
      (s' : S)
      → CallKeeps buf n
      → reply ws args m s ≡ some (r, m', s')
      → SameOutside buf n m m'
  reply-kept buf n [] args m s r m' s' keeps e = λ x o. ap (λ t. t.1 x) (some_inj (sym e))
  reply-kept buf n (w ∷ ws) [] m s r m' s' keeps e = λ x o. ap (λ t. t.1 x) (some_inj (sym e))
  reply-kept buf n (w ∷ ws) (arg ∷ args) m s r m' s' keeps e =
      dispatched-kept buf n (lookup w commands names) arg args w m s r m' s' keeps e

  pub answer-kept :
      (buf n : ℕ) (l : List ℕ) (m : Memory) (s : S) (r : ℤ) (m' : Memory) (s' : S)
      → length l ≤ n
      → CallKeeps buf n
      → answer buf l m s ≡ some (r, m', s')
      → SameOutside buf n m m'
  answer-kept buf n l m s r m' s' b keeps e x o =
      reply-kept buf n (words false l) (starts false buf l) (cleared m buf l) s r m' s' keeps e x o
      ∙ cleared-Outside m buf l x (omega (arith, o))
