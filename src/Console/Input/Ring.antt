-- ===== src/Console/Input/Ring.antt =====
-- The ring of `cons` as the queue of the characters that wait in it.
use mathlib.Core.Path.{ap₂}
use native.Mathlib.Decide.{ℕ_discrete}
use mit_jos_cse.Prelude.{
  ℕ, zero, suc, ◌+◌, ◌-◌, ◌%◌, ◌^◌, ◌<◌, ◌≡◌, ◌≢◌, refl, ap, ◌∙◌, List, [], ◌∷◌, ◌++◌, arith,
  get_or, set, length, length-set,
}
use mit_jos_cse.Console.Input.{Cons, consbufsize, bump, put, take_char}

pub record IsValid (r : Cons) : Type 0 where
  pub storage : length r.buf ≡ consbufsize
  pub read_in : r.rpos < consbufsize
  pub write_in : r.wpos < consbufsize

-- How many characters wait.
abbrev pub waiting : Cons → ℕ
waiting r = (r.wpos + consbufsize - r.rpos) % consbufsize

-- The `n` characters from position `p` on.
abbrev pub window : List ℕ → ℕ → ℕ → List ℕ
window buf p zero = []
window buf p (suc n) = get_or buf p 0 ∷ window buf (bump p) n

abbrev pub queue : Cons → List ℕ
queue r = window r.buf r.rpos (waiting r)

pub get_or-set_self : (l : List ℕ) (i v : ℕ) → i < length l → get_or (set l i v) i 0 ≡ v
get_or-set_self [] i v h = absurd (omega arith)
get_or-set_self (x ∷ l) zero v h = refl
get_or-set_self (x ∷ l) (suc i) v h = get_or-set_self l i v (omega arith)

pub get_or-set_ne : (l : List ℕ) (i j v : ℕ) → i ≢ j → get_or (set l i v) j 0 ≡ get_or l j 0
get_or-set_ne [] i j v h = refl
get_or-set_ne (x ∷ l) zero zero v h = absurd (h refl)
get_or-set_ne (x ∷ l) zero (suc j) v h = refl
get_or-set_ne (x ∷ l) (suc i) zero v h = refl
get_or-set_ne (x ∷ l) (suc i) (suc j) v h = get_or-set_ne l i j v (λ e. h (ap suc e))

-- Every operation keeps the ring valid.
pub put-IsValid : (c : ℕ) {r : Cons} → IsValid r → IsValid (put c r)
unfolding put
put-IsValid c {r} v = ground (arith, length-set r.buf r.wpos (c % 2 ^ 8))

pub take_char-IsValid : {r : Cons} → IsValid r → IsValid (take_char r).1
unfolding take_char
take_char-IsValid v = ground arith

-- A character written just behind a window extends it.
window-set :
    (buf : List ℕ) (p n i v : ℕ)
    → length buf ≡ consbufsize
    → p < consbufsize
    → n < consbufsize
    → i ≡ (p + n) % consbufsize
    → window (set buf i v) p (suc n) ≡ window buf p n ++ (v ∷ [])
window-set buf p zero i v l hp hn e =
    let here : i ≡ p = omega arith in
    rw here (ap (λ x. x ∷ []) (get_or-set_self buf p v (omega arith)))
window-set buf p (suc n) i v l hp hn e =
    ap₂ ◌∷◌ (get_or-set_ne buf i p v (omega arith))
      (window-set buf (bump p) n i v l (ground arith) (omega arith) (ground arith))

-- A character put into a ring that holds fewer than 511 joins the end of the queue, as a byte.
pub queue-put :
    (c : ℕ) {r : Cons} → IsValid r → waiting r < 511 → queue (put c r) ≡ queue r ++ (c % 2 ^ 8 ∷ [])
unfolding put
queue-put c {r} v room =
    let more : waiting (put c r) ≡ suc (waiting r) = unfold put in ground arith in
    ap (window (set r.buf r.wpos (c % 2 ^ 8)) r.rpos) more
    ∙ window-set r.buf r.rpos (waiting r) r.wpos (c % 2 ^ 8) v.storage v.read_in (omega arith)
        (omega arith)

-- A character put into a ring that holds 511 makes it look empty: all of them are lost.
pub queue-put_full : (c : ℕ) {r : Cons} → IsValid r → waiting r ≡ 511 → queue (put c r) ≡ []
unfolding put
queue-put_full c {r} v full =
    let none_left : waiting (put c r) ≡ 0 = unfold put in ground arith in
    ap (window (set r.buf r.wpos (c % 2 ^ 8)) r.rpos) none_left

-- The first of a queue, or 0, and what is behind it.
abbrev pub first_of : List ℕ → ℕ
first_of [] = 0
first_of (x ∷ q) = x

abbrev pub rest_of : List ℕ → List ℕ
rest_of [] = []
rest_of (x ∷ q) = q

window_cases :
    (buf : List ℕ) (p n : ℕ) → n ≢ 0 → window buf p n ≡ get_or buf p 0 ∷ window buf (bump p) (n - 1)
window_cases buf p zero h = absurd (h refl)
window_cases buf p (suc n) h = ap (λ k. get_or buf p 0 ∷ window buf (bump p) k) (omega arith)

queue_empty : (r : Cons) → r.rpos ≡ r.wpos → queue r ≡ []
queue_empty r e = let none_left : waiting r ≡ 0 = omega arith in ap (window r.buf r.rpos) none_left

queue_some :
    {r : Cons}
    → IsValid r
    → r.rpos ≢ r.wpos
    → queue r ≡ get_or r.buf r.rpos 0 ∷ queue (record r { rpos = bump r.rpos })
queue_some {r} v ne =
    let left : waiting r - 1 ≡ waiting (record r { rpos = bump r.rpos }) = ground arith in
    window_cases r.buf r.rpos (waiting r) (omega arith)
    ∙ ap (λ k. get_or r.buf r.rpos 0 ∷ window r.buf (bump r.rpos) k) left

take_empty : (r : Cons) → r.rpos ≡ r.wpos → take_char r ≡ (0, r)
unfolding take_char
take_empty r e = ground arith

take_some :
    (r : Cons)
    → r.rpos ≢ r.wpos
    → take_char r ≡ (get_or r.buf r.rpos 0, record r { rpos = bump r.rpos })
unfolding take_char
take_some r ne = ground arith

-- The oldest character of a valid ring is taken, or 0 from an empty one, and the rest stays.
pub take_char_lem :
    {r : Cons}
    → IsValid r
    → ((take_char r).0 ≡ first_of (queue r)) × (queue (take_char r).1 ≡ rest_of (queue r))
take_char_lem {r} v = elim (ℕ_discrete r.rpos r.wpos) [
  | yes e ↦ rw (take_empty r e, queue_empty r e) (refl, refl)
  | no ne ↦ rw (take_some r ne, queue_some v ne) (refl, refl)
]

length-window : (buf : List ℕ) (p n : ℕ) → length (window buf p n) ≡ n
length-window buf p zero = refl
length-window buf p (suc n) = ap suc (length-window buf (bump p) n)

pub length-queue : (r : Cons) → length (queue r) ≡ waiting r
length-queue r = length-window r.buf r.rpos (waiting r)
