-- ===== src/Monitor/Held.antt =====
-- The words of a line as strings in the memory that `runcmd` makes of it.
use mit_jos_cse.Prelude.{
  ℕ, ◌+◌, ◌≡◌, inl, inr, refl, ◌∙◌, subst, List, [], ◌∷◌, Bool, true, false, not, ◌||◌,
  if◌then◌else◌, arith, length, Memory, store, IsStr, Outside, Bool-cases,
}
use mit_jos_cse.Monitor.Words.{is_space, word_of, words, starts}
use mit_jos_cse.Monitor.Args.{IsStr-behind}
use mit_jos_cse.Monitor.Split.{cleared}

-- At each of the addresses stands the text of the same place.
abbrev pub AllStr : Memory → List ℕ → List (List ℕ) → Type 0
AllStr m [] [] = Unit
AllStr m [] (w ∷ ws) = ⊥
AllStr m (a ∷ at) [] = ⊥
AllStr m (a ∷ at) (w ∷ ws) = IsStr m a w × AllStr m at ws

pub cleared-Outside :
    (m : Memory) (buf : ℕ) (l : List ℕ) (x : ℕ) → Outside buf (length l) x → cleared m buf l x ≡ m x
cleared-Outside m buf [] x o = refl
cleared-Outside m buf (c ∷ l) x o =
    cleared-Outside (if is_space c then store m buf 0 else m) (buf + 1) l x (omega arith)
    ∙ ground arith

IsStr-one :
    (m : Memory) (buf c : ℕ) (l : List ℕ)
    → IsStr m (buf + 1) l
    → IsStr (if is_space c then store m buf 0 else m) (buf + 1) l
IsStr-one m buf c l h = elim (Bool-cases (is_space c)) [
  | inl e ↦ rw e (IsStr-behind m buf 0 l h)
  | inr e ↦ rw e h
]

word_of-Held :
    (m : Memory) (buf : ℕ) (l : List ℕ) → IsStr m buf l → IsStr (cleared m buf l) buf (word_of l)
word_of-Held m buf [] h = h
word_of-Held m buf (c ∷ l) h = elim (Bool-cases (is_space c)) [
  | inl e ↦ rw e (cleared-Outside (store m buf 0) (buf + 1) l buf (omega arith) ∙ ground arith)
  | inr e ↦
      rw e
        (cleared-Outside m (buf + 1) l buf (omega arith) ∙ h.0, h.1, word_of-Held m (buf + 1) l h.2)
]

word-Held :
    (m : Memory) (buf c : ℕ) (l : List ℕ)
    → is_space c ≡ false
    → IsStr m buf (c ∷ l)
    → IsStr (cleared m buf (c ∷ l)) buf (c ∷ word_of l)
word-Held m buf c l e h =
    subst (IsStr (cleared m buf (c ∷ l)) buf) {y = c ∷ word_of l} (rw e refl)
      (word_of-Held m buf (c ∷ l) h)

or-false : (a b : Bool) → (a || b) ≡ false → a ≡ false
or-false true b e = e
or-false false b e = refl

pub words-AllStr :
    (inside : Bool) (m : Memory) (buf : ℕ) (l : List ℕ)
    → IsStr m buf l
    → AllStr (cleared m buf l) (starts inside buf l) (words inside l)
words-AllStr inside m buf [] h = tt
words-AllStr inside m buf (c ∷ l) h =
    let m1 = if is_space c then store m buf 0 else m in
    let rest = words-AllStr (not (is_space c)) m1 (buf + 1) l (IsStr-one m buf c l h.2) in
    elim (Bool-cases (is_space c || inside)) [
      | inl e ↦ rw e rest
      | inr e ↦ rw e (word-Held m buf c l (or-false (is_space c) inside e) h, rest)
    ]
