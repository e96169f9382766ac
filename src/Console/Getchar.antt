-- ===== src/Console/Getchar.antt =====
-- kern/console.c: `getchar` waits until the console has a character.
use mit_jos_cse.Prelude.{
  ℕ, zero, suc, ◌+◌, ◌<◌, ◌≡◌, ◌≢◌, refl, sym, ap, ◌∙◌, subst, List, [], ◌++◌, length, Option, none,
  some, Bool, false, ◌==◌, if◌then◌else◌, arith,
}
use mit_jos_cse.Console.Input.{Cons, cons_getc}
use mit_jos_cse.Console.Input.Ring.{IsValid, waiting, queue, first_of, rest_of, length-queue}
use mit_jos_cse.Console.Input.Intr.{kept, Delivers, Serial, cons_getc_lem}

module _ {ℓ} {D : Type ℓ} (serial kbd : D → Option ℕ × D) (exists : Bool) where
  -- `while ((c = cons_getc()) == 0)`, with fuel for the rounds
  unfoldable pub getchar : ℕ → ℕ → D → Cons → Option (ℕ × D × Cons)
  getchar zero fuel d r = none
  getchar (suc rounds) fuel d r = elim (cons_getc serial kbd exists fuel d r) [
    | none ↦ none
    | some (c, d', r') ↦
        let rest = getchar rounds fuel d' r' in if c == 0 then rest else some (c, d', r')
  ]

  -- For `n` rounds of polling no device has a character.
  abbrev pub Quiet : ℕ → D → D → Type ℓ
  Quiet zero d d' = d ≡ d'
  Quiet (suc n) d d' =
      (d1 : D) × (d2 : D) × Serial exists serial d [] d1 × Delivers kbd d1 [] d2 × Quiet n d2 d'

  getchar_round :
      (rounds fuel : ℕ) (d d' : D) (r r' : Cons)
      → cons_getc serial kbd exists fuel d r ≡ some (0, d', r')
      → getchar (suc rounds) fuel d r ≡ getchar rounds fuel d' r'
  unfolding getchar
  getchar_round rounds fuel d d' r r' e = rw (e, getchar) refl

  getchar_last :
      (rounds fuel c : ℕ) (d d' : D) (r r' : Cons)
      → cons_getc serial kbd exists fuel d r ≡ some (c, d', r')
      → c ≢ 0
      → getchar (suc rounds) fuel d r ≡ some (c, d', r')
  unfolding getchar
  getchar_last rounds fuel c d d' r r' e n =
      let other : (c == 0) ≡ false = ground (arith, n) in rw (e, other, getchar) refl

  -- On an empty ring, `getchar` polls while the devices are quiet. Once the serial port (where it
  -- exists) delivers `cs1` and the keyboard `cs2`, which fit the ring and of which a character is
  -- kept, it returns the first that is kept, and the others wait in a valid ring.
  pub getchar_lem :
      (n rounds fuel : ℕ) (d d0 d1 d2 : D) (cs1 cs2 : List ℕ) {r : Cons}
      → IsValid r
      → queue r ≡ []
      → Quiet n d d0
      → Serial exists serial d0 cs1 d1
      → Delivers kbd d1 cs2 d2
      → first_of (kept cs1 ++ kept cs2) ≢ 0
      → length (kept cs1) + length (kept cs2) < 512
      → length cs1 + length cs2 < fuel
      → n < rounds
      → (r' : Cons) × (getchar rounds fuel d r ≡ some (first_of (kept cs1 ++ kept cs2), d2, r'))
        × IsValid r'
        × (queue r' ≡ rest_of (kept cs1 ++ kept cs2))
  getchar_lem n zero fuel d d0 d1 d2 cs1 cs2 v e q s k c b f m = absurd (omega arith)
  getchar_lem zero (suc rounds) fuel d d0 d1 d2 cs1 cs2 {r} v e q s k c b f m =
      let size : waiting r ≡ 0 = sym (length-queue r) ∙ ap length e in
      let all : (queue r ++ kept cs1) ++ kept cs2 ≡ kept cs1 ++ kept cs2 =
        ap (λ x. (x ++ kept cs1) ++ kept cs2) e in
      let (r', got, v', left) =
        cons_getc_lem fuel serial kbd exists d d1 d2 cs1 cs2 {r = r} v
          (subst (λ x. Serial exists serial x cs1 d1) (sym q) s) k (omega arith) (omega arith)
          (omega arith) in
      (
        r',
        getchar_last rounds fuel (first_of (kept cs1 ++ kept cs2)) d d2 r r'
            (got ∙ ap (λ x. some (first_of x, d2, r')) all) c,
        v',
        left ∙ ap rest_of all,
      )
  getchar_lem (suc n) (suc rounds) fuel d d0 d1 d2 cs1 cs2 {r} v e (x, y, nothing, none_typed, q) s
        k c b f m =
      let size : waiting r ≡ 0 = sym (length-queue r) ∙ ap length e in
      let all : (queue r ++ []) ++ [] ≡ [] = ap (λ z. (z ++ []) ++ []) e in
      let (r1, got, v1, left) =
        cons_getc_lem fuel serial kbd exists d x y [] [] {r = r} v nothing none_typed (omega arith)
          (omega arith) (omega arith) in
      let (r', rest, v', q') =
        getchar_lem n rounds fuel y d0 d1 d2 cs1 cs2 {r = r1} v1 (left ∙ ap rest_of all) q s k c b f
          (omega arith) in
      (
        r',
        getchar_round rounds fuel d y r r1 (got ∙ ap (λ z. some (first_of z, y, r1)) all) ∙ rest,
        v',
        q',
      )
