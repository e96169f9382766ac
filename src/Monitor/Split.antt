-- ===== src/Monitor/Split.antt =====
-- kern/monitor.c: the loop of `runcmd` over the words of a line.
use native.Mathlib.Nat.{add-zero}
use mit_jos_cse.Prelude.{
  ℕ, suc, ◌+◌, ◌-◌, ◌<◌, ◌≡◌, ◌≢◌, inl, inr, refl, sym, ap, ◌∙◌, subst, List, [], ◌∷◌, ◌++◌, some,
  true, false, ◌==◌, if◌then◌else◌, arith, get_or, length, Memory, store, IsStr, Bool-cases,
}
use mit_jos_cse.Monitor.{Strings, parsed, too_many, maxargs, gobble, scan_word, parse_args}
use mit_jos_cse.Monitor.Words.{is_space, word_of, starts}
use mit_jos_cse.Monitor.Args.{
  Clear, white_text, gobbled, lead, from_word, behind_word, IsStr-store, IsStr-behind,
}

-- The line's memory with a 0 for each blank.
abbrev pub cleared : Memory → ℕ → List ℕ → Memory
cleared m buf [] = m
cleared m buf (c ∷ l) = cleared (if is_space c then store m buf 0 else m) (buf + 1) l

pub cleared-lead :
    (m : Memory) (buf : ℕ) (l : List ℕ)
    → cleared m buf l ≡ cleared (gobbled m buf l) (buf + lead l) (from_word l)
cleared-lead m buf [] = refl
cleared-lead m buf (c ∷ l) = elim (Bool-cases (is_space c)) [
  | inl e ↦ rw e (
      cleared-lead (store m buf 0) (buf + 1) l
      ∙ ap (λ x. cleared (gobbled (store m buf 0) (buf + 1) l) x (from_word l)) (omega arith))
  | inr e ↦
      let step : cleared m (buf + 0) (c ∷ l) ≡ cleared m (buf + 1) l = rw (e, add-zero buf) refl in
      rw e (sym step)
]

pub starts-lead :
    (buf : ℕ) (l : List ℕ) → starts false buf l ≡ starts false (buf + lead l) (from_word l)
starts-lead buf [] = refl
starts-lead buf (c ∷ l) = elim (Bool-cases (is_space c)) [
  | inl e ↦ rw e (starts-lead (buf + 1) l ∙ ap (λ x. starts false x (from_word l)) (omega arith))
  | inr e ↦ rw (e, e, add-zero buf) refl
]

pub IsStr-gobbled :
    (m : Memory) (buf : ℕ) (l : List ℕ)
    → IsStr m buf l
    → IsStr (gobbled m buf l) (buf + lead l) (from_word l)
IsStr-gobbled m buf [] h = subst (λ x. IsStr m x []) (omega arith) h
IsStr-gobbled m buf (c ∷ l) h = elim (Bool-cases (is_space c)) [
  | inl e ↦ rw e (
      subst (λ x. IsStr (gobbled (store m buf 0) (buf + 1) l) x (from_word l)) (omega arith)
        (IsStr-gobbled (store m buf 0) (buf + 1) l (IsStr-behind m buf 0 l h.2)))
  | inr e ↦ rw e (subst (λ x. IsStr m x (c ∷ l)) (omega arith) h)
]

pub white-gobbled :
    (m : Memory) (buf at : ℕ) (l : List ℕ)
    → Clear buf (length l) at
    → IsStr m at white_text
    → IsStr (gobbled m buf l) at white_text
white-gobbled m buf at [] a w = w
white-gobbled m buf at (c ∷ l) a w = elim (Bool-cases (is_space c)) [
  | inl e ↦ rw e (
      white-gobbled (store m buf 0) (buf + 1) at l (omega arith)
        (IsStr-store m buf 0 at (length l) white_text (omega arith) a w))
  | inr e ↦ rw e w
]

pub length-from_word : (l : List ℕ) → lead l + length (from_word l) ≡ length l
length-from_word [] = refl
length-from_word (c ∷ l) = ground (arith, length-from_word l)

pub length-behind_word : (l : List ℕ) → length (word_of l) + length (behind_word l) ≡ length l
length-behind_word [] = refl
length-behind_word (c ∷ l) = ground (arith, length-behind_word l)

pub from_word-head : (l : List ℕ) (c : ℕ) (r : List ℕ) → from_word l ≡ c ∷ r → is_space c ≡ false
from_word-head [] c r e = cc
from_word-head (d ∷ l) c r e = elim (Bool-cases (is_space d)) [
  | inl f ↦ from_word-head l c r (sym (rw f refl) ∙ e)
  | inr f ↦
      let kept : d ∷ l ≡ c ∷ r = sym (rw f refl) ∙ e in
      ap is_space (sym (ap (λ x. get_or x 0 0) kept)) ∙ f
]

pub cleared-word :
    (m : Memory) (buf : ℕ) (l : List ℕ)
    → cleared m buf l ≡ cleared m (buf + length (word_of l)) (behind_word l)
cleared-word m buf [] = refl
cleared-word m buf (c ∷ l) = elim (Bool-cases (is_space c)) [
  | inl e ↦
      let step : cleared m (buf + 0) (c ∷ l) ≡ cleared (store m buf 0) (buf + 1) l =
        rw (e, add-zero buf) refl in
      rw e (sym step)
  | inr e ↦ rw e (cleared-word m (buf + 1) l ∙ ap (λ x. cleared m x (behind_word l)) (omega arith))
]

starts-word :
    (buf : ℕ) (l : List ℕ)
    → starts true buf l ≡ starts false (buf + length (word_of l)) (behind_word l)
starts-word buf [] = refl
starts-word buf (c ∷ l) = elim (Bool-cases (is_space c)) [
  | inl e ↦ rw (e, e, add-zero buf) refl
  | inr e ↦ rw e (starts-word (buf + 1) l ∙ ap (λ x. starts false x (behind_word l)) (omega arith))
]

pub IsStr-word :
    (m : Memory) (buf : ℕ) (l : List ℕ)
    → IsStr m buf l
    → IsStr m (buf + length (word_of l)) (behind_word l)
IsStr-word m buf [] h = subst (λ x. IsStr m x []) (omega arith) h
IsStr-word m buf (c ∷ l) h = elim (Bool-cases (is_space c)) [
  | inl e ↦ rw e (subst (λ x. IsStr m x (c ∷ l)) (omega arith) h)
  | inr e ↦
      rw e (subst (λ x. IsStr m x (behind_word l)) (omega arith) (IsStr-word m (buf + 1) l h.2))
]

pub starts-head :
    (buf c : ℕ) (k : List ℕ)
    → is_space c ≡ false
    → starts false buf (c ∷ k)
      ≡ buf ∷ starts false (buf + length (word_of (c ∷ k))) (behind_word (c ∷ k))
starts-head buf c k e = rw e (
    ap (λ x. buf ∷ x)
      (starts-word (buf + 1) k ∙ ap (λ x. starts false x (behind_word k)) (omega arith)))

pub word_of-pos : (c : ℕ) (k : List ℕ) → is_space c ≡ false → 0 < length (word_of (c ∷ k))
word_of-pos c k e = rw e (omega arith)

-- One round of the loop, at a word.
pub parse_args_word :
    (fuel rounds : ℕ) (strings : Strings) (m : Memory) (buf : ℕ) (args : List ℕ) (m' : Memory)
    (word behind : ℕ)
    → gobble fuel strings m buf ≡ some (m', word)
    → m' word ≢ 0
    → length args ≢ maxargs - 1
    → scan_word fuel strings m' word ≡ some behind
    → parse_args fuel (suc rounds) strings m buf args
      ≡ parse_args fuel rounds strings m' behind (args ++ (word ∷ []))
unfolding parse_args
parse_args_word fuel rounds strings m buf args m' word behind g n short s =
    let here : (m' word == 0) ≡ false = ground (arith, n) in
    let room : (length args == maxargs - 1) ≡ false = ground (arith, short) in
    rw (g, here, room, s, parse_args) refl

pub parse_args_end :
    (fuel rounds : ℕ) (strings : Strings) (m : Memory) (buf : ℕ) (args : List ℕ) (m' : Memory)
    (word : ℕ)
    → gobble fuel strings m buf ≡ some (m', word)
    → m' word ≡ 0
    → parse_args fuel (suc rounds) strings m buf args ≡ some (parsed m' args)
unfolding parse_args
parse_args_end fuel rounds strings m buf args m' word g n = rw (g, n, parse_args) refl

pub parse_args_full :
    (fuel rounds : ℕ) (strings : Strings) (m : Memory) (buf : ℕ) (args : List ℕ) (m' : Memory)
    (word : ℕ)
    → gobble fuel strings m buf ≡ some (m', word)
    → m' word ≢ 0
    → length args ≡ maxargs - 1
    → parse_args fuel (suc rounds) strings m buf args ≡ some (too_many m')
unfolding parse_args
parse_args_full fuel rounds strings m buf args m' word g n full =
    let here : (m' word == 0) ≡ false = ground (arith, n) in
    let room : (length args == maxargs - 1) ≡ true = ground (arith, full) in
    rw (g, here, room, parse_args) refl
