-- ===== src/Monitor/Parse.antt =====
-- kern/monitor.c: the arguments that `runcmd` makes of a whole line.
use mit_jos_cse.Prelude.{
  ℕ, zero, suc, ◌+◌, ◌-◌, ◌≤◌, ◌<◌, ◌≡◌, inl, inr, refl, sym, ap, ap₂, ◌∙◌, subst, List, [], ◌∷◌,
  ◌++◌, append_assoc, append-nil, some, false, arith, length, length-append, List-cases, Nat-cases,
  Bool-cases, Outside, store, Memory, IsStr,
}
use mit_jos_cse.Monitor.{Strings, parsed, too_many, maxargs, parse_args}
use mit_jos_cse.Monitor.Words.{is_space, word_of, starts}
use mit_jos_cse.Monitor.Args.{
  Clear, white_text, gobbled, lead, from_word, behind_word, gobble_lem, scan_word_lem,
}
use mit_jos_cse.Monitor.Split.{
  cleared, cleared-lead, starts-lead, IsStr-gobbled, white-gobbled, length-from_word,
  length-behind_word, from_word-head, cleared-word, IsStr-word, starts-head, word_of-pos,
  parse_args_word, parse_args_end, parse_args_full,
}

-- A line with at most 15 words is split at its blanks: the arguments are the places where the words
-- begin, and every blank has become a 0.
pub parse_args_lem :
    (fuel rounds : ℕ) (strings : Strings) (m : Memory) (buf : ℕ) (l args : List ℕ)
    → IsStr m strings.whitespace white_text
    → Clear buf (length l) strings.whitespace
    → IsStr m buf l
    → length l < fuel
    → length l < rounds
    → length args + length (starts false buf l) < maxargs
    → parse_args fuel rounds strings m buf args
      ≡ some (parsed (cleared m buf l) (args ++ starts false buf l))
parse_args_lem fuel zero strings m buf l args w a h f r short = absurd (omega arith)
parse_args_lem fuel (suc rounds) strings m buf l args w a h f r short =
    let m1 = gobbled m buf l in
    let word = buf + lead l in
    let g = gobble_lem fuel strings m buf l w a h f in
    let text = IsStr-gobbled m buf l h in
    elim (List-cases (from_word l)) [
      | inl e ↦
          parse_args_end fuel rounds strings m buf args m1 word g (subst (IsStr m1 word) e text)
          ∙ ap₂ (λ x y. some (parsed x y)) (sym (cleared-lead m buf l ∙ ap (cleared m1 word) e))
              (sym (
                ap (λ x. args ++ x) (starts-lead buf l ∙ ap (starts false word) e)
                ∙ append-nil args))
      | inr (c, k, e) ↦
          let head : is_space c ≡ false = from_word-head l c k e in
          let text' : IsStr m1 word (c ∷ k) = subst (IsStr m1 word) e text in
          let here : lead l + length (c ∷ k) ≡ length l =
            ap (λ x. lead l + length x) (sym e) ∙ length-from_word l in
          let behind = word + length (word_of (c ∷ k)) in
          let rest = behind_word (c ∷ k) in
          let split : length (word_of (c ∷ k)) + length rest ≡ length (c ∷ k) =
            length-behind_word (c ∷ k) in
          let some_word = word_of-pos c k head in
          let begins : starts false buf l ≡ word ∷ starts false behind rest =
            starts-lead buf l ∙ ap (starts false word) e ∙ starts-head word c k head in
          let w1 = white-gobbled m buf strings.whitespace l a w in
          let counted : length (starts false buf l) ≡ suc (length (starts false behind rest)) =
            ap length begins in
          let count : length (args ++ (word ∷ [])) + length (starts false behind rest) < maxargs =
            omega (arith, length-append args (word ∷ [])) in
          parse_args_word fuel rounds strings m buf args m1 word behind g
            (λ z. text'.1 (sym text'.0 ∙ z)) (omega arith)
            (scan_word_lem fuel strings m1 word (c ∷ k) w1 text' (omega arith))
          ∙ parse_args_lem fuel rounds strings m1 behind rest (args ++ (word ∷ [])) w1 (omega arith)
              (IsStr-word m1 word (c ∷ k) text') (omega arith) (omega arith) count
          ∙ ap₂ (λ x y. some (parsed x y))
              (sym (cleared-lead m buf l ∙ ap (cleared m1 word) e ∙ cleared-word m1 word (c ∷ k)))
              (append_assoc args (word ∷ []) (starts false behind rest)
                ∙ ap (λ x. args ++ x) (sym begins))
    ]

gobbled-Outside :
    (m : Memory) (buf : ℕ) (l : List ℕ) (x : ℕ) → Outside buf (length l) x → gobbled m buf l x ≡ m x
gobbled-Outside m buf [] x o = refl
gobbled-Outside m buf (c ∷ l) x o = elim (Bool-cases (is_space c)) [
  | inl e ↦ rw e (gobbled-Outside (store m buf 0) (buf + 1) l x (omega arith) ∙ ground arith)
  | inr e ↦ rw e refl
]

-- A line with more words than fit is given up at the word that does not fit, with nothing changed
-- outside the line.
pub parse_args-too_many :
    (fuel rounds : ℕ) (strings : Strings) (m : Memory) (buf : ℕ) (l args : List ℕ)
    → IsStr m strings.whitespace white_text
    → Clear buf (length l) strings.whitespace
    → IsStr m buf l
    → length l < fuel
    → length l < rounds
    → length args < maxargs
    → maxargs ≤ length args + length (starts false buf l)
    → (m' : Memory) × (parse_args fuel rounds strings m buf args ≡ some (too_many m'))
      × ((x : ℕ) → Outside buf (length l) x → m' x ≡ m x)
parse_args-too_many fuel zero strings m buf l args w a h f r low many = absurd (omega arith)
parse_args-too_many fuel (suc rounds) strings m buf l args w a h f r low many =
    let m1 = gobbled m buf l in
    let word = buf + lead l in
    let g = gobble_lem fuel strings m buf l w a h f in
    let text = IsStr-gobbled m buf l h in
    elim (List-cases (from_word l)) [
      | inl e ↦
          let none_left : length (starts false buf l) ≡ 0 =
            ap length (starts-lead buf l ∙ ap (starts false word) e) in
          absurd (omega arith)
      | inr (c, k, e) ↦
          let head : is_space c ≡ false = from_word-head l c k e in
          let text' : IsStr m1 word (c ∷ k) = subst (IsStr m1 word) e text in
          let here : lead l + length (c ∷ k) ≡ length l =
            ap (λ x. lead l + length x) (sym e) ∙ length-from_word l in
          let behind = word + length (word_of (c ∷ k)) in
          let rest = behind_word (c ∷ k) in
          let split : length (word_of (c ∷ k)) + length rest ≡ length (c ∷ k) =
            length-behind_word (c ∷ k) in
          let some_word = word_of-pos c k head in
          let begins : starts false buf l ≡ word ∷ starts false behind rest =
            starts-lead buf l ∙ ap (starts false word) e ∙ starts-head word c k head in
          let counted : length (starts false buf l) ≡ suc (length (starts false behind rest)) =
            ap length begins in
          let w1 = white-gobbled m buf strings.whitespace l a w in
          let longer : length (args ++ (word ∷ [])) ≡ length args + 1 =
            length-append args (word ∷ []) in
          elim (Nat-cases (length args) (maxargs - 1)) [
            | inl full ↦ (
              m1,
              parse_args_full fuel rounds strings m buf args m1 word g
                  (λ z. text'.1 (sym text'.0 ∙ z)) full,
              λ x o. gobbled-Outside m buf l x o,
            )
            | inr room ↦
                let (m', done, same) =
                  parse_args-too_many fuel rounds strings m1 behind rest (args ++ (word ∷ [])) w1
                    (omega arith) (IsStr-word m1 word (c ∷ k) text') (omega arith) (omega arith)
                    (omega arith) (omega arith) in
                (
                  m',
                  parse_args_word fuel rounds strings m buf args m1 word behind g
                        (λ z. text'.1 (sym text'.0 ∙ z)) room
                        (scan_word_lem fuel strings m1 word (c ∷ k) w1 text' (omega arith))
                      ∙ done,
                  λ x o. same x (omega arith) ∙ gobbled-Outside m buf l x o,
                )
          ]
    ]
