-- ===== src/Monitor/Words.antt =====
-- The words of a line, and where they begin.
use mit_jos_cse.Prelude.{ℕ, ◌+◌, List, [], ◌∷◌, Bool, not, ◌||◌, ◌==◌, if◌then◌else◌}

abbrev pub is_space : ℕ → Bool
is_space c = c == 9 || (c == 13 || (c == 10 || c == 32))

-- What is left of a word.
abbrev pub word_of : List ℕ → List ℕ
word_of [] = []
word_of (c ∷ l) = if is_space c then [] else c ∷ word_of l

-- The words that begin in a line, which itself begins in the middle of a word if `inside`.
abbrev pub words : Bool → List ℕ → List (List ℕ)
words inside [] = []
words inside (c ∷ l) =
    let rest = words (not (is_space c)) l in
    if is_space c || inside then rest else (c ∷ word_of l) ∷ rest

-- Where they begin, if the line stands at `buf`.
abbrev pub starts : Bool → ℕ → List ℕ → List ℕ
starts inside buf [] = []
starts inside buf (c ∷ l) =
    let rest = starts (not (is_space c)) (buf + 1) l in
    if is_space c || inside then rest else buf ∷ rest
