-- ===== src/Monitor/Apart.antt =====
-- kern/monitor.c: the program's strings while a line is worked on.
use mit_jos_cse.Prelude.{
  ℕ, ◌+◌, ◌≤◌, ◌<◌, ◌≡◌, ◌⊎◌, inl, inr, refl, sym, List, [], ◌∷◌, Bool, not, ◌||◌, arith, length,
  All, Memory, IsStr, IsStr-ext, Outside, Bool-cases,
}
use mit_jos_cse.Printf.Meaning.{format_text}
use mit_jos_cse.Monitor.{Strings, Command}
use mit_jos_cse.Monitor.Words.{is_space, word_of, words, starts}
use mit_jos_cse.Monitor.Args.{Clear, white_text}
use mit_jos_cse.Monitor.Run.{AreNames, unknown_items, too_many_items}

-- A string and the line at `buf`, of `n` characters, do not meet.
abbrev pub Apart : ℕ → ℕ → ℕ → List ℕ → Type 0
Apart buf n at t = (at + length t < buf) ⊎ (buf + n ≤ at)

abbrev pub ApartNames : ℕ → ℕ → List Command → List (List ℕ) → Type 0
ApartNames buf n [] names = Unit
ApartNames buf n (c ∷ cs) [] = Unit
ApartNames buf n (c ∷ cs) (x ∷ names) = Apart buf n c.name x × ApartNames buf n cs names

pub IsStr-Apart :
    (m m' : Memory) (buf n at : ℕ) (t : List ℕ)
    → ((x : ℕ) → Outside buf n x → m' x ≡ m x)
    → Apart buf n at t
    → IsStr m at t
    → IsStr m' at t
IsStr-Apart m m' buf n at t same a h = IsStr-ext m m' at t (λ x p q. sym (same x (omega arith))) h

pub AreNames-apart :
    (m m' : Memory) (buf n : ℕ) (cs : List Command) (names : List (List ℕ))
    → ((x : ℕ) → Outside buf n x → m' x ≡ m x)
    → ApartNames buf n cs names
    → AreNames m cs names
    → AreNames m' cs names
AreNames-apart m m' buf n [] [] same a h = tt
AreNames-apart m m' buf n [] (x ∷ names) same a h = h
AreNames-apart m m' buf n (c ∷ cs) [] same a h = h
AreNames-apart m m' buf n (c ∷ cs) (x ∷ names) same a h =
    (IsStr-Apart m m' buf n c.name x same a.0 h.0, AreNames-apart m m' buf n cs names same a.1 h.1)

length-word_of : (l : List ℕ) → length (word_of l) ≤ length l
length-word_of [] = omega arith
length-word_of (c ∷ l) = ground (arith, length-word_of l)

pub length-starts :
    (inside : Bool) (buf : ℕ) (l : List ℕ) → length (starts inside buf l) ≡ length (words inside l)
length-starts inside buf [] = refl
length-starts inside buf (c ∷ l) = ground (arith, length-starts (not (is_space c)) (buf + 1) l)

-- No word is longer than the line, and each begins in it.
pub words-short :
    (inside : Bool) (n : ℕ) (l : List ℕ) → length l ≤ n → All (λ w. length w ≤ n) (words inside l)
words-short inside n [] h = tt
words-short inside n (c ∷ l) h =
    let rest = words-short (not (is_space c)) n l (omega arith) in
    elim (Bool-cases (is_space c || inside)) [
      | inl e ↦ rw e rest
      | inr e ↦ rw e (omega (arith, length-word_of l), rest)
    ]

pub starts-ge :
    (inside : Bool) (b buf : ℕ) (l : List ℕ) → b ≤ buf → All (λ a. b ≤ a) (starts inside buf l)
starts-ge inside b buf [] h = tt
starts-ge inside b buf (c ∷ l) h =
    let rest = starts-ge (not (is_space c)) b (buf + 1) l (omega arith) in
    elim (Bool-cases (is_space c || inside)) [ inl e ↦ rw e rest | inr e ↦ rw e (h, rest) ]

-- What holds of the program's strings while `runcmd` works on the line: they stand in the memory,
-- apart from the line.
pub record AreStrings (m : Memory) (strings : Strings) (commands : List Command)
    (names : List (List ℕ)) (buf n : ℕ) : Type 0 where
  pub white : IsStr m strings.whitespace white_text
  pub unknown : IsStr m strings.unknown_fmt (format_text (unknown_items 0 []))
  pub many : IsStr m strings.too_many_fmt (format_text too_many_items)
  pub named : AreNames m commands names
  pub white_apart : Clear buf n strings.whitespace
  pub unknown_apart : Apart buf n strings.unknown_fmt (format_text (unknown_items 0 []))
  pub many_apart : Apart buf n strings.too_many_fmt (format_text too_many_items)
  pub named_apart : ApartNames buf n commands names
