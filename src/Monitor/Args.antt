-- ===== src/Monitor/Args.antt =====
-- kern/monitor.c: how `runcmd` splits a line into arguments.
use mit_jos_cse.Prelude.{
  ℕ, zero, suc, ◌+◌, ◌≤◌, ◌<◌, ◌≡◌, ◌⊎◌, inl, inr, ap, ◌∙◌, List, [], ◌∷◌, some, false, ◌==◌,
  if◌then◌else◌, arith, length, Memory, store, IsStr, IsStr-ext, Bool-cases,
}
use mit_jos_cse.CString.Scan.{strchr}
use mit_jos_cse.Monitor.{Strings, is_white, gobble, scan_word}
use mit_jos_cse.Monitor.Words.{is_space, word_of}

-- "\t\r\n "
abbrev pub white_text : List ℕ
white_text = 9 ∷ 13 ∷ 10 ∷ 32 ∷ []

is_white_lem :
    (strings : Strings) (m : Memory) (c : ℕ)
    → IsStr m strings.whitespace white_text
    → is_white strings m c ≡ some (is_space c)
unfolding is_white strchr
is_white_lem strings m c h = ground arith

-- The first `n` bytes from `buf` on do not meet the literal.
abbrev pub Clear : ℕ → ℕ → ℕ → Type 0
Clear buf n at = (at + 4 < buf) ⊎ (buf + n ≤ at)

pub IsStr-store :
    (m : Memory) (buf v at n : ℕ) (t : List ℕ)
    → length t ≤ 4
    → Clear buf (suc n) at
    → IsStr m at t
    → IsStr (store m buf v) at t
IsStr-store m buf v at n t short h p = IsStr-ext m (store m buf v) at t (λ a q r. ground arith) p

-- A terminator put in front of a string leaves it as it is.
pub IsStr-behind :
    (m : Memory) (buf v : ℕ) (l : List ℕ) → IsStr m (buf + 1) l → IsStr (store m buf v) (buf + 1) l
IsStr-behind m buf v l p = IsStr-ext m (store m buf v) (buf + 1) l (λ a q r. ground arith) p

-- What the blanks at the front of a line come to.
abbrev pub gobbled : Memory → ℕ → List ℕ → Memory
gobbled m buf [] = m
gobbled m buf (c ∷ l) = if is_space c then gobbled (store m buf 0) (buf + 1) l else m

abbrev pub lead : List ℕ → ℕ
lead [] = 0
lead (c ∷ l) = if is_space c then suc (lead l) else 0

abbrev pub from_word : List ℕ → List ℕ
from_word [] = []
from_word (c ∷ l) = if is_space c then from_word l else c ∷ l

abbrev pub behind_word : List ℕ → List ℕ
behind_word [] = []
behind_word (c ∷ l) = if is_space c then c ∷ l else behind_word l

pub gobble_lem :
    (fuel : ℕ) (strings : Strings) (m : Memory) (buf : ℕ) (l : List ℕ)
    → IsStr m strings.whitespace white_text
    → Clear buf (length l) strings.whitespace
    → IsStr m buf l
    → length l < fuel
    → gobble fuel strings m buf ≡ some (gobbled m buf l, buf + lead l)
unfolding gobble
gobble_lem zero strings m buf l w a h f = absurd (omega arith)
gobble_lem (suc fuel) strings m buf [] w a h f = ground arith
gobble_lem (suc fuel) strings m buf (c ∷ l) w a h f =
    let white : is_white strings m c ≡ some (is_space c) = is_white_lem strings m c w in
    let more : (c == 0) ≡ false = ground (arith, h.1) in
    elim (Bool-cases (is_space c)) [
      | inl e ↦
          rw (h.0, more, white, e, gobble)
            (gobble_lem fuel strings (store m buf 0) (buf + 1) l
                (IsStr-store m buf 0 strings.whitespace (length l) white_text (omega arith) a w)
                (omega arith) (IsStr-behind m buf 0 l h.2) (omega arith)
              ∙ ap (λ x. some (gobbled (store m buf 0) (buf + 1) l, x)) (omega arith))
      | inr e ↦ rw (h.0, more, white, e, gobble) (ap (λ x. some (m, x)) (omega arith))
    ]

pub scan_word_lem :
    (fuel : ℕ) (strings : Strings) (m : Memory) (buf : ℕ) (l : List ℕ)
    → IsStr m strings.whitespace white_text
    → IsStr m buf l
    → length l < fuel
    → scan_word fuel strings m buf ≡ some (buf + length (word_of l))
unfolding scan_word
scan_word_lem zero strings m buf l w h f = absurd (omega arith)
scan_word_lem (suc fuel) strings m buf [] w h f = ground arith
scan_word_lem (suc fuel) strings m buf (c ∷ l) w h f =
    let white : is_white strings m c ≡ some (is_space c) = is_white_lem strings m c w in
    let more : (c == 0) ≡ false = ground (arith, h.1) in
    elim (Bool-cases (is_space c)) [
      | inl e ↦ rw (h.0, more, white, e, scan_word) (ap some (omega arith))
      | inr e ↦
          rw (h.0, more, white, e, scan_word)
            (scan_word_lem fuel strings m (buf + 1) l w h.2 (omega arith) ∙ ap some (omega arith))
    ]
