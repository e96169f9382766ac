-- ===== src/Console/Input/Queue.antt =====
-- `put` of kern/console.c on the queue of the characters that wait, also when the ring is full.
use native.Mathlib.Decide.{ℕ_discrete}
use mit_jos_cse.Prelude.{
  ℕ, ◌+◌, ◌%◌, ◌^◌, ◌≤◌, ◌<◌, ◌≡◌, refl, sym, ap, ◌∙◌, List, [], ◌∷◌, ◌++◌, append_assoc,
  append-nil, Bool-cases, inl, inr, arith, suc, true, false, ◌==◌, if◌then◌else◌, length,
  length-append,
}
use mit_jos_cse.Console.Input.{Cons, put}
use mit_jos_cse.Console.Input.Ring.{
  IsValid, waiting, queue, put-IsValid, queue-put, queue-put_full, length-queue,
}
use mit_jos_cse.Console.Input.Intr.{feed, kept}

-- What a character does to the queue that the ring stands for: the one that does not fit empties it.
abbrev pub arrive : ℕ → List ℕ → List ℕ
arrive c q = if c == 0 then q else if length q == 511 then [] else q ++ (c % 2 ^ 8 ∷ [])

abbrev pub arrived : List ℕ → List ℕ → List ℕ
arrived [] q = q
arrived (c ∷ cs) q = arrived cs (arrive c q)

waiting-bound : (r : Cons) → waiting r ≤ 511
waiting-bound r = ground arith

put-queued :
    (c : ℕ) {r : Cons}
    → IsValid r
    → queue (put c r) ≡ (if length (queue r) == 511 then [] else queue r ++ (c % 2 ^ 8 ∷ []))
put-queued c {r} v = elim (ℕ_discrete (waiting r) 511) [
  | yes full ↦
      let size : (length (queue r) == 511) ≡ true = ground (arith, length-queue r) in
      rw size (queue-put_full c v full)
  | no room ↦
      let size : (length (queue r) == 511) ≡ false = ground (arith, length-queue r) in
      let fits : waiting r < 511 = omega (arith, waiting-bound r) in rw size (queue-put c v fits)
]

arrive_lem :
    (c : ℕ) {r : Cons}
    → IsValid r
    → let r' = if c == 0 then r else put c r in IsValid r' × (queue r' ≡ arrive c (queue r))
arrive_lem c {r} v = elim (Bool-cases (c == 0)) [
  | inl nothing ↦ rw nothing (v, refl)
  | inr char ↦ rw char (put-IsValid c v, put-queued c v)
]

-- A ring into which characters are put stands for the queue in which they arrived.
pub feed-arrived :
    (cs : List ℕ) {r : Cons}
    → IsValid r
    → IsValid (feed cs r) × (queue (feed cs r) ≡ arrived cs (queue r))
feed-arrived [] v = (v, refl)
feed-arrived (c ∷ cs) {r} v =
    let (valid, queued) = arrive_lem c v in
    let (valid', queued') = feed-arrived cs {r = if c == 0 then r else put c r} valid in
    (valid', queued' ∙ ap (arrived cs) queued)

-- While there is room, a queue takes the characters in their order.
pub arrived-kept : (cs q : List ℕ) → length q + length (kept cs) ≤ 511 → arrived cs q ≡ q ++ kept cs
arrived-kept [] q room = sym (append-nil q)
arrived-kept (c ∷ cs) q room = elim (Bool-cases (c == 0)) [
  | inl nothing ↦ rw nothing (arrived-kept cs q (rw nothing at room))
  | inr char ↦
      let fits : length q + suc (length (kept cs)) ≤ 511 = rw char at room in
      let size : (length q == 511) ≡ false = ground (arith, fits) in
      let one : length (q ++ (c % 2 ^ 8 ∷ [])) ≡ length q + 1 = length-append q (c % 2 ^ 8 ∷ []) in
      rw (char, size)
        (arrived-kept cs (q ++ (c % 2 ^ 8 ∷ [])) (omega arith)
          ∙ append_assoc q (c % 2 ^ 8 ∷ []) (kept cs))
]
