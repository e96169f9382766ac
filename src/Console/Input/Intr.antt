-- ===== src/Console/Input/Intr.antt =====
-- `cons_intr` and `cons_getc`: what a device delivers goes to the end of the queue.
use mit_jos_cse.Prelude.{
  ℕ, zero, suc, ◌+◌, ◌%◌, ◌^◌, ◌<◌, ◌≡◌, refl, sym, ap, ◌∙◌, List, [], ◌∷◌, ◌++◌, append_assoc,
  append-nil, Option, none, some, Bool, true, false, Bool-cases, inl, inr, arith, ◌==◌,
  if◌then◌else◌, length, length-append,
}
use mit_jos_cse.Console.Input.{Cons, put, take_char, cons_intr, serial_intr, kbd_intr, cons_getc}
use mit_jos_cse.Console.Input.Ring.{
  IsValid, waiting, queue, first_of, rest_of, put-IsValid, take_char-IsValid, queue-put,
  take_char_lem, length-queue,
}

-- The characters that are kept of those delivered: zeros are not, and the others as bytes.
abbrev pub kept : List ℕ → List ℕ
kept [] = []
kept (c ∷ cs) = if c == 0 then kept cs else c % 2 ^ 8 ∷ kept cs

-- The ring after characters were delivered.
abbrev pub feed : List ℕ → Cons → Cons
feed [] r = r
feed (c ∷ cs) r = feed cs (if c == 0 then r else put c r)

module _ {ℓ} {D : Type ℓ} where
  -- Polled from the state `d`, the device delivers `cs`, and then has nothing at `d'`.
  abbrev pub Delivers : (D → Option ℕ × D) → D → List ℕ → D → Type ℓ
  Delivers proc d [] d' = proc d ≡ (none, d')
  Delivers proc d (c ∷ cs) d' = (d1 : D) × (proc d ≡ (some c, d1)) × Delivers proc d1 cs d'

  pub cons_intr-feed :
      (fuel : ℕ) (proc : D → Option ℕ × D) (d d' : D) (cs : List ℕ) (r : Cons)
      → Delivers proc d cs d'
      → length cs < fuel
      → cons_intr fuel proc d r ≡ some (d', feed cs r)
  unfolding cons_intr
  cons_intr-feed zero proc d d' cs r h f = absurd (omega arith)
  cons_intr-feed (suc fuel) proc d d' [] r h f = rw (h, cons_intr) (ap (λ x. some (x.1, r)) h)
  cons_intr-feed (suc fuel) proc d d' (c ∷ cs) r h f =
      rw (h.1, cons_intr)
        (ap (λ x. cons_intr fuel proc x.1 (if c == 0 then r else put c r)) h.1
          ∙ cons_intr-feed fuel proc h.0 d' cs (if c == 0 then r else put c r) h.2 (omega arith))

-- One delivered character, put into a ring with room for it.
feed_step :
    (c : ℕ) (cs : List ℕ) {r : Cons}
    → IsValid r
    → waiting r + length (kept (c ∷ cs)) < 512
    → let r' = if c == 0 then r else put c r in
      IsValid r' × (queue r' ++ kept cs ≡ queue r ++ kept (c ∷ cs))
feed_step c cs {r} v room = elim (Bool-cases (c == 0)) [
  | inl zero_char ↦ rw zero_char (v, refl)
  | inr char ↦
      let left : waiting r + suc (length (kept cs)) < 512 = rw char at room in
      rw char (
        put-IsValid c v,
        ap (λ q. q ++ kept cs) (queue-put c v (omega arith))
            ∙ append_assoc (queue r) (c % 2 ^ 8 ∷ []) (kept cs),
      )
]

feed_lem :
    (cs : List ℕ) {r : Cons}
    → IsValid r
    → waiting r + length (kept cs) < 512
    → IsValid (feed cs r) × (queue (feed cs r) ≡ queue r ++ kept cs)
feed_lem [] {r} v room = (v, sym (append-nil (queue r)))
feed_lem (c ∷ cs) {r} v room =
    let r' = if c == 0 then r else put c r in
    let (valid, moved) = feed_step c cs {r = r} v room in
    let sizes : waiting r' + length (kept cs) ≡ waiting r + length (kept (c ∷ cs)) =
      sym (size r' (kept cs)) ∙ ap length moved ∙ size r (kept (c ∷ cs)) in
    let (valid', queued) = feed_lem cs {r = r'} valid (omega arith) in (valid', queued ∙ moved)
  where
    size : (x : Cons) (t : List ℕ) → length (queue x ++ t) ≡ waiting x + length t
    size x t = length-append (queue x) t ∙ ap (λ k. k + length t) (length-queue x)

module _ {ℓ} {D : Type ℓ} where
  -- If a device delivers `cs` and these fit the ring, `cons_intr` ends once the device has nothing
  -- more, keeps the ring valid, and appends the characters other than 0 to the queue, in order.
  pub cons_intr_lem :
      (fuel : ℕ) (proc : D → Option ℕ × D) (d d' : D) (cs : List ℕ) {r : Cons}
      → IsValid r
      → Delivers proc d cs d'
      → length cs < fuel
      → waiting r + length (kept cs) < 512
      → (r' : Cons) × (cons_intr fuel proc d r ≡ some (d', r'))
        × IsValid r'
        × (queue r' ≡ queue r ++ kept cs)
  cons_intr_lem fuel proc d d' cs {r} v h f room =
      let (valid, queued) = feed_lem cs v room in
      (feed cs r, cons_intr-feed fuel proc d d' cs r h f, valid, queued)

  -- What the serial port delivers, if there is one.
  abbrev pub Serial : Bool → (D → Option ℕ × D) → D → List ℕ → D → Type ℓ
  Serial true proc d cs d' = Delivers proc d cs d'
  Serial false proc d cs d' = (cs ≡ []) × (d' ≡ d)

  serial_intr_lem :
      (fuel : ℕ) (serial kbd : D → Option ℕ × D) (exists : Bool) (d d' : D) (cs : List ℕ) {r : Cons}
      → IsValid r
      → Serial exists serial d cs d'
      → length cs < fuel
      → waiting r + length (kept cs) < 512
      → (r' : Cons) × (serial_intr serial kbd exists fuel d r ≡ some (d', r'))
        × IsValid r'
        × (queue r' ≡ queue r ++ kept cs)
  unfolding serial_intr
  serial_intr_lem fuel serial kbd true d d' cs v h f room =
      cons_intr_lem fuel serial d d' cs v h f room
  serial_intr_lem fuel serial kbd false d d' cs {r} v h f room = (
    r,
    ap (λ x. some (x, r)) (sym h.1),
    v,
    sym (append-nil (queue r)) ∙ ap (λ x. queue r ++ kept x) (sym h.0),
  )

  -- If the serial port (where it exists) delivers `cs1`, the keyboard then delivers `cs2`, and both
  -- fit the ring, `cons_getc` ends, returns the oldest of the characters that waited before, came
  -- from the serial port and came from the keyboard, in this order, or 0 if there is none, and
  -- leaves the others waiting in a valid ring.
  pub cons_getc_lem :
      (fuel : ℕ) (serial kbd : D → Option ℕ × D) (exists : Bool) (d d1 d2 : D) (cs1 cs2 : List ℕ)
      {r : Cons}
      → IsValid r
      → Serial exists serial d cs1 d1
      → Delivers kbd d1 cs2 d2
      → length cs1 < fuel
      → length cs2 < fuel
      → waiting r + length (kept cs1) + length (kept cs2) < 512
      → let q = (queue r ++ kept cs1) ++ kept cs2 in
        (r' : Cons) × (cons_getc serial kbd exists fuel d r ≡ some (first_of q, d2, r'))
        × IsValid r'
        × (queue r' ≡ rest_of q)
  unfolding cons_getc kbd_intr
  cons_getc_lem fuel serial kbd exists d d1 d2 cs1 cs2 {r} v h1 h2 f1 f2 room =
      let (r1, e1, v1, q1) =
        serial_intr_lem fuel serial kbd exists d d1 cs1 v h1 f1 (omega arith) in
      let size : waiting r1 ≡ waiting r + length (kept cs1) =
        sym (length-queue r1)
        ∙ ap length q1
        ∙ length-append (queue r) (kept cs1)
        ∙ ap (λ k. k + length (kept cs1)) (length-queue r) in
      let (r2, e2, v2, q2) = cons_intr_lem fuel kbd d1 d2 cs2 v1 h2 f2 (omega arith) in
      let all : queue r2 ≡ (queue r ++ kept cs1) ++ kept cs2 = q2 ∙ ap (λ x. x ++ kept cs2) q1 in
      let (got, left) = take_char_lem v2 in
      (
        (take_char r2).1,
        rw (e1, e2, cons_getc) (ap (λ x. some (x, d2, (take_char r2).1)) (got ∙ ap first_of all)),
        take_char-IsValid v2,
        left ∙ ap rest_of all,
      )
