-- ===== src/Kdebug/Listing.antt =====
-- kern/kdebug.c: the units of the debug data as a list, and one round of their search.
use mit_jos_cse.Prelude.{
  ℕ, suc, ◌+◌, ◌≡◌, refl, ap, ◌∙◌, List, [], ◌∷◌, length, Option, none, some, true, false, Memory,
  pos, ok,
}
use mit_jos_cse.Kdebug.{
  Ripdebuginfo, Reader, same_status, dw_dle_no_entry, search_dies, search_units,
}
use mit_jos_cse.Kdebug.Unit.{Following, first_around, last_die, last_buffer}

-- A unit as the reader lists it, at the state and the header that it is read with: without a DIE, a
-- DIE without children, or a DIE and the DIEs below it.
pub data Listing (Dbg Cu Die : Type 0) : Type 0 where
  blank : Dbg → Cu → Listing Dbg Cu Die
  childless : Dbg → Cu → Die → Listing Dbg Cu Die
  listing : Dbg → Cu → Die → Die → List Die → Listing Dbg Cu Die

module _ (reader : Reader) where
  open reader use {
    Dbg, Die, Cu, init, set_info, get_next_cu, siblingof, child, attr_find, die_name, link,
  }

  -- The units that follow, up to the one that `_get_next_cu` does not find, with what stands in the
  -- buffers `cudie`, `die` and `die2`.
  abbrev pub Units : Dbg → Cu → Die → Die → Die → List (Listing Dbg Cu Die) → Type 0
  Units dbg cu cudie die die2 [] = same_status (get_next_cu dbg cu).0 (pos 0) ≡ false
  Units dbg cu cudie die die2 (blank g c ∷ us) =
      let (first, cudie') = siblingof g none cudie c in
      (get_next_cu dbg cu ≡ (pos 0, g, c))
      × (same_status first dw_dle_no_entry ≡ true)
      × Units g c cudie' die die2 us
  Units dbg cu cudie die die2 (childless g c u ∷ us) =
      let (first, cudie') = siblingof g none cudie c in
      let (inner, die') = child g c u die in
      (get_next_cu dbg cu ≡ (pos 0, g, c))
      × (same_status first dw_dle_no_entry ≡ false)
      × (link c none cudie' ≡ u)
      × (same_status inner dw_dle_no_entry ≡ true)
      × Units g c u die' die2 us
  Units dbg cu cudie die die2 (listing g c u d ds ∷ us) =
      let (first, cudie') = siblingof g none cudie c in
      let (inner, die') = child g c u die in
      (get_next_cu dbg cu ≡ (pos 0, g, c))
      × (same_status first dw_dle_no_entry ≡ false)
      × (link c none cudie' ≡ u)
      × (same_status inner dw_dle_no_entry ≡ false)
      × (link c (some u) die' ≡ d)
      × Following reader g c u d die2 ds
      × Units g c u (last_die reader d ds) (last_buffer reader g c d die2 ds) us

  -- How many units and DIEs there are.
  abbrev pub size : List (Listing Dbg Cu Die) → ℕ
  size [] = 0
  size (blank g c ∷ us) = 1 + size us
  size (childless g c u ∷ us) = 1 + size us
  size (listing g c u d ds ∷ us) = 2 + length ds + size us

  -- The first function around the address, with the reader's state, the header and the DIE of its
  -- unit.
  abbrev pub first_in : ℕ → List (Listing Dbg Cu Die) → Option (Dbg × Cu × Die × Die)
  first_in addr [] = none
  first_in addr (blank g c ∷ us) = first_in addr us
  first_in addr (childless g c u ∷ us) = first_in addr us
  first_in addr (listing g c u d ds ∷ us) = elim (first_around reader addr (d ∷ ds)) [
    | some f ↦ some (g, c, u, f)
    | none ↦ first_in addr us
  ]

  pub first_in-here :
      (addr : ℕ) (g : Dbg) (c : Cu) (u d f : Die) (ds : List Die) (us : List (Listing Dbg Cu Die))
      → first_around reader addr (d ∷ ds) ≡ some f
      → first_in addr (listing g c u d ds ∷ us) ≡ some (g, c, u, f)
  first_in-here addr g c u d f ds us e =
      ap
        (λ o. elim o as (λ _. Option (Dbg × Cu × Die × Die)) [
          | some x ↦ some (g, c, u, x)
          | none ↦ first_in addr us
        ])
        e

  pub first_in-later :
      (addr : ℕ) (g : Dbg) (c : Cu) (u d : Die) (ds : List Die) (us : List (Listing Dbg Cu Die))
      → first_around reader addr (d ∷ ds) ≡ none
      → first_in addr (listing g c u d ds ∷ us) ≡ first_in addr us
  first_in-later addr g c u d ds us e =
      ap
        (λ o. elim o as (λ _. Option (Dbg × Cu × Die × Die)) [
          | some x ↦ some (g, c, u, x)
          | none ↦ first_in addr us
        ])
        e

  module _ (m : Memory) (stale : Die) (addr : ℕ) (info : Ripdebuginfo) where
    pub search_units_blank :
        (fuel : ℕ) (dbg g : Dbg) (cu c : Cu) (cudie die die2 : Die)
        → get_next_cu dbg cu ≡ (pos 0, g, c)
        → same_status (siblingof g none cudie c).0 dw_dle_no_entry ≡ true
        → search_units reader (suc fuel) m dbg cu stale cudie die die2 addr info
          ≡ search_units reader fuel m g c stale (siblingof g none cudie c).1 die die2 addr info
    unfolding search_units
    search_units_blank fuel dbg g cu c cudie die die2 e f = rw (search_units, e, f) refl

    pub search_units_childless :
        (fuel : ℕ) (dbg g : Dbg) (cu c : Cu) (cudie die die2 u : Die)
        → get_next_cu dbg cu ≡ (pos 0, g, c)
        → same_status (siblingof g none cudie c).0 dw_dle_no_entry ≡ false
        → link c none (siblingof g none cudie c).1 ≡ u
        → same_status (child g c u die).0 dw_dle_no_entry ≡ true
        → search_units reader (suc fuel) m dbg cu stale cudie die die2 addr info
          ≡ search_units reader fuel m g c stale u (child g c u die).1 die2 addr info
    unfolding search_units
    search_units_childless fuel dbg g cu c cudie die die2 u e f l n =
        rw (search_units, e, f, l, n) refl

    pub search_units_found :
        (fuel : ℕ) (dbg g : Dbg) (cu c : Cu) (cudie die die2 u d a b : Die) (info' : Ripdebuginfo)
        → get_next_cu dbg cu ≡ (pos 0, g, c)
        → same_status (siblingof g none cudie c).0 dw_dle_no_entry ≡ false
        → link c none (siblingof g none cudie c).1 ≡ u
        → same_status (child g c u die).0 dw_dle_no_entry ≡ false
        → link c (some u) (child g c u die).1 ≡ d
        → search_dies reader fuel m g c u stale d die2 addr info ≡ ok (some info', a, b)
        → search_units reader (suc fuel) m dbg cu stale cudie die die2 addr info ≡ ok (some info')
    unfolding search_units
    search_units_found fuel dbg g cu c cudie die die2 u d a b info' e f l n k s =
        rw (search_units, e, f, l, n, k, s) refl

    pub search_units_more :
        (fuel : ℕ) (dbg g : Dbg) (cu c : Cu) (cudie die die2 u d a b : Die)
        → get_next_cu dbg cu ≡ (pos 0, g, c)
        → same_status (siblingof g none cudie c).0 dw_dle_no_entry ≡ false
        → link c none (siblingof g none cudie c).1 ≡ u
        → same_status (child g c u die).0 dw_dle_no_entry ≡ false
        → link c (some u) (child g c u die).1 ≡ d
        → search_dies reader fuel m g c u stale d die2 addr info ≡ ok (none, a, b)
        → search_units reader (suc fuel) m dbg cu stale cudie die die2 addr info
          ≡ search_units reader fuel m g c stale u a b addr info
    unfolding search_units
    search_units_more fuel dbg g cu c cudie die die2 u d a b e f l n k s =
        rw (search_units, e, f, l, n, k, s)
          (ap
              (λ x.
                search_units reader fuel m x.1 x.2 stale
                  (link x.2 none (siblingof x.1 none cudie x.2).1) a b addr info)
              e
            ∙ ap (λ y. search_units reader fuel m g c stale y a b addr info) l)
