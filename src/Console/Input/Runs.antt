-- ===== src/Console/Input/Runs.antt =====
-- kern/console.c: runs of the console's input, from poll to poll and from call to call.
use mit_jos_cse.Prelude.{
  some_inj, ℕ, ◌+◌, ◌≤◌, ◌<◌, ◌≡◌, ◌≢◌, refl, sym, ap, ◌∙◌, List, [], ◌∷◌, ◌++◌, Option, some, Bool,
  true, false, arith, ◌==◌, if◌then◌else◌, length, length-append, All, subst, append_assoc,
  append-nil,
}
use mit_jos_cse.Console.Input.{Cons, take_char, serial_intr, kbd_intr, cons_getc}
use mit_jos_cse.Console.Input.Ring.{
  IsValid, queue, first_of, rest_of, take_char_lem, take_char-IsValid,
}
use mit_jos_cse.Console.Input.Intr.{feed, kept, Delivers, Serial, cons_intr-feed}
use mit_jos_cse.Console.Input.Queue.{arrived, feed-arrived, arrived-kept}

-- What a run shows: a device delivered characters, or `cons_getc` returned one, or 0.
pub data Event : Type 0 where
  came : List ℕ → Event
  got : ℕ → Event

module _ {ℓ} {D : Type ℓ} (serial kbd : D → Option ℕ × D) (exists : Bool) where
  -- One action on the devices and the ring: an interrupt's poll of a device, a call of `cons_getc`,
  -- or a change of the devices alone.
  pub data Step : D → Cons → List Event → D → Cons → Type ℓ where
    serial_polled :
        {d d' : D} {r r' : Cons} {cs : List ℕ} (fuel : ℕ)
        → Serial exists serial d cs d'
        → length cs < fuel
        → serial_intr serial kbd exists fuel d r ≡ some (d', r')
        → Step d r (came cs ∷ []) d' r'
    kbd_polled :
        {d d' : D} {r r' : Cons} {cs : List ℕ} (fuel : ℕ)
        → Delivers kbd d cs d'
        → length cs < fuel
        → kbd_intr serial kbd exists fuel d r ≡ some (d', r')
        → Step d r (came cs ∷ []) d' r'
    called :
        {c : ℕ} {d d2 : D} {r r' : Cons} {cs1 cs2 : List ℕ} (fuel : ℕ) (d1 : D)
        → Serial exists serial d cs1 d1
        → Delivers kbd d1 cs2 d2
        → length cs1 < fuel
        → length cs2 < fuel
        → cons_getc serial kbd exists fuel d r ≡ some (c, d2, r')
        → Step d r (came cs1 ∷ came cs2 ∷ got c ∷ []) d2 r'
    changed : {d d' : D} {r : Cons} → Step d r [] d' r

  pub data Runs (d : D) (r : Cons) : List Event → D → Cons → Type ℓ where
    start : Runs d r [] d r
    then_step :
        {es fs : List Event} {d1 d2 : D} {r1 r2 : Cons}
        → Runs d r es d1 r1
        → Step d1 r1 fs d2 r2
        → Runs d r (es ++ fs) d2 r2

-- The queue that drops all its characters when a 512th comes takes these events from `q` to `q'`.
abbrev pub Accepts : List Event → List ℕ → List ℕ → Type 0
Accepts [] q q' = q ≡ q'
Accepts (came cs ∷ es) q q' = Accepts es (arrived cs q) q'
Accepts (got c ∷ es) q q' = (c ≡ first_of q) × Accepts es (rest_of q) q'

Accepts-append :
    (es fs : List Event) (q q1 q2 : List ℕ)
    → Accepts es q q1
    → Accepts fs q1 q2
    → Accepts (es ++ fs) q q2
Accepts-append [] fs q q1 q2 h k = subst (λ x. Accepts fs x q2) (sym h) k
Accepts-append (came cs ∷ es) fs q q1 q2 h k = Accepts-append es fs (arrived cs q) q1 q2 h k
Accepts-append (got c ∷ es) fs q q1 q2 h k = (h.0, Accepts-append es fs (rest_of q) q1 q2 h.1 k)

serial_intr-feed {ℓ} :
    {D : Type ℓ} (serial kbd : D → Option ℕ × D) (exists : Bool) (fuel : ℕ) (d d' : D) (cs : List ℕ)
    (r : Cons)
    → Serial exists serial d cs d'
    → length cs < fuel
    → serial_intr serial kbd exists fuel d r ≡ some (d', feed cs r)
unfolding serial_intr
serial_intr-feed serial kbd true fuel d d' cs r h f = cons_intr-feed fuel serial d d' cs r h f
serial_intr-feed serial kbd false fuel d d' cs r h f =
    ap (λ x. some (x, r)) (sym h.1) ∙ ap (λ x. some (d', feed x r)) (sym h.0)

module _ {ℓ} {D : Type ℓ} (serial kbd : D → Option ℕ × D) (exists : Bool) where
  cons_getc-feed :
      (fuel : ℕ) (d d1 d2 : D) (cs1 cs2 : List ℕ) (r : Cons)
      → Serial exists serial d cs1 d1
      → Delivers kbd d1 cs2 d2
      → length cs1 < fuel
      → length cs2 < fuel
      → let (c, r') = take_char (feed cs2 (feed cs1 r)) in
        cons_getc serial kbd exists fuel d r ≡ some (c, d2, r')
  unfolding cons_getc kbd_intr
  cons_getc-feed fuel d d1 d2 cs1 cs2 r h1 h2 f1 f2 =
      rw
        (
          serial_intr-feed serial kbd exists fuel d d1 cs1 r h1 f1,
          cons_intr-feed fuel kbd d1 d2 cs2 (feed cs1 r) h2 f2,
          cons_getc,
        )
        refl

  polled_lem :
      (d d' : D) (r r' : Cons) (cs : List ℕ)
      → ◌≡◌ {A = Option (D × Cons)} (some (d, feed cs r)) (some (d', r'))
      → IsValid r
      → IsValid r' × (arrived cs (queue r) ≡ queue r')
  polled_lem d d' r r' cs e v =
      let (valid, queued) = feed-arrived cs v in
      let same : feed cs r ≡ r' = ap (λ x. x.1) (some_inj e) in
      (subst (λ x. IsValid x) same valid, sym queued ∙ ap queue same)

  called_lem :
      (c : ℕ) (d d' : D) (r r' : Cons) (cs1 cs2 : List ℕ)
      → let (taken, left) = take_char (feed cs2 (feed cs1 r)) in
        ◌≡◌ {A = Option (ℕ × D × Cons)} (some (taken, d, left)) (some (c, d', r'))
        → IsValid r
        → IsValid r'
          × ((c ≡ first_of (arrived cs2 (arrived cs1 (queue r))))
              × (rest_of (arrived cs2 (arrived cs1 (queue r))) ≡ queue r'))
  called_lem c d d' r r' cs1 cs2 e v =
      let (v1, q1) = feed-arrived cs1 v in
      let (v2, q2) = feed-arrived cs2 v1 in
      let all = q2 ∙ ap (arrived cs2) q1 in
      let (taken, left) = take_char_lem v2 in
      let same = some_inj e in
      (
        subst (λ x. IsValid x.2) same (take_char-IsValid v2),
        (
          sym (ap (λ x. x.0) same) ∙ taken ∙ ap first_of all,
          sym (ap rest_of all) ∙ sym left ∙ ap (λ x. queue x.2) same,
        ),
      )

  Step-Accepts :
      {d d' : D} {r r' : Cons} {es : List Event}
      → Step serial kbd exists d r es d' r'
      → IsValid r
      → IsValid r' × Accepts es (queue r) (queue r')
  unfolding kbd_intr
  Step-Accepts {d} {d'} {r} {r'} (serial_polled {cs} fuel h f e) v =
      polled_lem d' d' r r' cs (sym (serial_intr-feed serial kbd exists fuel d d' cs r h f) ∙ e) v
  Step-Accepts {d} {d'} {r} {r'} (kbd_polled {cs} fuel h f e) v =
      polled_lem d' d' r r' cs (sym (cons_intr-feed fuel kbd d d' cs r h f) ∙ e) v
  Step-Accepts {d} {d'} {r} {r'} (called {c} {cs1} {cs2} fuel d1 h1 h2 f1 f2 e) v =
      called_lem c d' d' r r' cs1 cs2 (sym (cons_getc-feed fuel d d1 d' cs1 cs2 r h1 h2 f1 f2) ∙ e)
        v
  Step-Accepts changed v = (v, refl)

  -- In every run of polls of the serial port, polls of the keyboard, calls of `cons_getc` and changes
  -- of the devices, from a valid ring on, the ring stays valid, and what the run shows is a run of a
  -- queue: the characters that are delivered join its end, the one that would be the 512th empties
  -- it, and each call returns the queue's first character and takes it away, or returns 0 where there
  -- is none.
  pub Runs-Accepts :
      {d : D} {r : Cons} {d' : D} {r' : Cons} {es : List Event}
      → Runs serial kbd exists d r es d' r'
      → IsValid r
      → IsValid r' × Accepts es (queue r) (queue r')
  Runs-Accepts start v = (v, refl)
  Runs-Accepts {r} {r'} (then_step {es} {fs} {r1} h k) v =
      let (v1, before) = Runs-Accepts h v in
      let (v2, last) = Step-Accepts k v1 in
      (v2, Accepts-append es fs (queue r) (queue r1) (queue r') before last)

-- The characters that came in, and those that were returned.
abbrev pub incoming : List Event → List ℕ
incoming [] = []
incoming (came cs ∷ es) = kept cs ++ incoming es
incoming (got c ∷ es) = incoming es

abbrev pub returned : List Event → List ℕ
returned [] = []
returned (came cs ∷ es) = returned es
returned (got c ∷ es) = if c == 0 then returned es else c ∷ returned es

Accepts-in_order :
    (es : List Event) (q q' : List ℕ)
    → Accepts es q q'
    → All (λ c. c ≢ 0) (q ++ incoming es)
    → length (q ++ incoming es) ≤ 511
    → q ++ incoming es ≡ returned es ++ q'
Accepts-in_order [] q q' h n b = append-nil q ∙ h
Accepts-in_order (came cs ∷ es) q q' h n b =
    let same : q ++ (kept cs ++ incoming es) ≡ (q ++ kept cs) ++ incoming es =
      sym (append_assoc q (kept cs) (incoming es)) in
    let sizes : length (q ++ (kept cs ++ incoming es))
        ≡ length q + length (kept cs) + length (incoming es) =
      ap length same
      ∙ length-append (q ++ kept cs) (incoming es)
      ∙ ap (λ k. k + length (incoming es)) (length-append q (kept cs)) in
    let moved : q ++ (kept cs ++ incoming es) ≡ arrived cs q ++ incoming es =
      same ∙ ap (λ x. x ++ incoming es) (sym (arrived-kept cs q (omega (arith, sizes, b)))) in
    moved
    ∙ Accepts-in_order es (arrived cs q) q' h (subst (λ l. All (λ c. c ≢ 0) l) moved n)
        (subst (λ l. length l ≤ 511) moved b)
Accepts-in_order (got c ∷ es) [] q' (e, h) n b = rw e (Accepts-in_order es [] q' h n b)
Accepts-in_order (got c ∷ es) (x ∷ q) q' (e, h) (n, ns) b =
    let char : (x == 0) ≡ false = ground (arith, n) in
    rw (e, char) (ap (λ l. x ∷ l) (Accepts-in_order es q q' h ns (omega arith)))

-- In a run from a valid ring on, if what waits at first and the kept characters that are delivered
-- are at most 511 and none is 0, then what the calls of `cons_getc` returned, without the zeros, and
-- what waits at the end are exactly these characters, in their order: none is lost, none comes twice.
pub Runs-in_order {ℓ} :
    {D : Type ℓ} (serial kbd : D → Option ℕ × D) (exists : Bool) {d : D} {r : Cons} {d' : D}
    {r' : Cons} {es : List Event}
    → Runs serial kbd exists d r es d' r'
    → IsValid r
    → All (λ c. c ≢ 0) (queue r ++ incoming es)
    → length (queue r ++ incoming es) ≤ 511
    → queue r ++ incoming es ≡ returned es ++ queue r'
Runs-in_order serial kbd exists {r} {r'} {es} h v n b =
    let (valid, accepted) = Runs-Accepts serial kbd exists h v in
    Accepts-in_order es (queue r) (queue r') accepted n b
