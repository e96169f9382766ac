-- ===== src/Kdebug/Units.antt =====
-- kern/kdebug.c: the search of the units of the debug data.
use mit_jos_cse.Prelude.{
  some_inj, some_ne_none, Option-cases, ℕ, zero, suc, ◌+◌, ◌^◌, ◌≤◌, ◌<◌, ◌≡◌, inl, inr, refl, sym,
  ap, ◌∙◌, List, [], ◌∷◌, length, none, some, subst, arith, Memory, IsStr, ok,
}
use mit_jos_cse.Kdebug.{Ripdebuginfo, Reader, dw_at_low_pc, search_units}
use mit_jos_cse.Kdebug.Args.{Params}
use mit_jos_cse.Kdebug.Function.{described}
use mit_jos_cse.Kdebug.Unit.{first_around, last_die, last_buffer, search_dies_lem, search_dies-none}
use mit_jos_cse.Kdebug.Listing.{
  Listing, blank, childless, listing, Units, size, first_in, first_in-here, first_in-later,
  search_units_blank, search_units_childless, search_units_found, search_units_more,
}

module _ (reader : Reader) where
  open reader use {Dbg, Die, Cu, siblingof, child, attr_find, die_name}

  module _ (m : Memory) (stale : Die) (addr : ℕ) (info : Ripdebuginfo) where
    pub search_units-none :
        (fuel : ℕ) (dbg : Dbg) (cu : Cu) (cudie die die2 : Die) (us : List (Listing Dbg Cu Die))
        → Units reader dbg cu cudie die die2 us
        → first_in reader addr us ≡ none
        → size reader us < fuel
        → search_units reader fuel m dbg cu stale cudie die die2 addr info ≡ ok none
    unfolding search_units
    search_units-none zero dbg cu cudie die die2 us h e f = absurd (omega arith)
    search_units-none (suc fuel) dbg cu cudie die die2 [] h e f = rw (search_units, h) refl
    search_units-none (suc fuel) dbg cu cudie die die2 (blank g c ∷ us) (next, n, h) e f =
        search_units_blank reader m stale addr info fuel dbg g cu c cudie die die2 next n
        ∙ search_units-none fuel g c (siblingof g none cudie c).1 die die2 us h e (omega arith)
    search_units-none (suc fuel) dbg cu cudie die die2 (childless g c u ∷ us) (next, n, l, k, h) e
          f =
        search_units_childless reader m stale addr info fuel dbg g cu c cudie die die2 u next n l k
        ∙ search_units-none fuel g c u (child g c u die).1 die2 us h e (omega arith)
    search_units-none (suc fuel) dbg cu cudie die die2 (listing g c u d ds ∷ us)
          (next, n, l, k, start, h, later) e f =
        elim (Option-cases (first_around reader addr (d ∷ ds))) [
          | inl here ↦
              let searched =
                search_dies-none reader fuel m g c u stale d die2 ds addr info h here
                  (omega arith) in
              search_units_more reader m stale addr info fuel dbg g cu c cudie die die2 u d
                (last_die reader d ds) (last_buffer reader g c d die2 ds) next n l k start searched
              ∙ search_units-none fuel g c u (last_die reader d ds)
                  (last_buffer reader g c d die2 ds) us later
                  (sym (first_in-later reader addr g c u d ds us here) ∙ e) (omega arith)
          | inr (x, here) ↦
              absurd (some_ne_none (sym (first_in-here reader addr g c u d x ds us here) ∙ e))
        ]

    pub search_units_lem :
        (fuel k : ℕ) (dbg g : Dbg) (cu c : Cu) (cudie die die2 u f : Die)
        (us : List (Listing Dbg Cu Die)) (low : ℕ) (name vs : List ℕ)
        → Units reader dbg cu cudie die die2 us
        → first_in reader addr us ≡ some (g, c, u, f)
        → attr_find f dw_at_low_pc ≡ some low
        → IsStr m (die_name f) name
        → length name < 2 ^ 31
        → Params reader g c f stale k vs
        → length vs ≤ 10
        → size reader us + k + length vs + length name + 2 < fuel
        → search_units reader fuel m dbg cu stale cudie die die2 addr info
          ≡ ok (some (described reader u f (length name) low addr vs info))
    search_units_lem zero k dbg g cu c cudie die die2 u f us low name vs h e l s b p n fu =
        absurd (omega arith)
    search_units_lem (suc fuel) k dbg g cu c cudie die die2 u f [] low name vs h e l s b p n fu =
        absurd (some_ne_none (sym e))
    search_units_lem (suc fuel) k dbg g cu c cudie die die2 u f (blank g0 c0 ∷ us) low name vs
          (next, first, h) e l s b p n fu =
        search_units_blank reader m stale addr info fuel dbg g0 cu c0 cudie die die2 next first
        ∙ search_units_lem fuel k g0 g c0 c (siblingof g0 none cudie c0).1 die die2 u f us low name
            vs h e l s b p n (omega arith)
    search_units_lem (suc fuel) k dbg g cu c cudie die die2 u f (childless g0 c0 u0 ∷ us) low name
          vs (next, first, same, inner, h) e l s b p n fu =
        search_units_childless reader m stale addr info fuel dbg g0 cu c0 cudie die die2 u0 next
          first same inner
        ∙ search_units_lem fuel k g0 g c0 c u0 (child g0 c0 u0 die).1 die2 u f us low name vs h e l
            s b p n (omega arith)
    search_units_lem (suc fuel) k dbg g cu c cudie die die2 u f (listing g0 c0 u0 d ds ∷ us) low
          name vs (next, first, same, inner, start, h, later) e l s b p n fu =
        elim (Option-cases (first_around reader addr (d ∷ ds))) [
          | inl here ↦
              let searched =
                search_dies-none reader fuel m g0 c0 u0 stale d die2 ds addr info h here
                  (omega arith) in
              search_units_more reader m stale addr info fuel dbg g0 cu c0 cudie die die2 u0 d
                (last_die reader d ds) (last_buffer reader g0 c0 d die2 ds) next first same inner
                start searched
              ∙ search_units_lem fuel k g0 g c0 c u0 (last_die reader d ds)
                  (last_buffer reader g0 c0 d die2 ds) u f us low name vs later
                  (sym (first_in-later reader addr g0 c0 u0 d ds us here) ∙ e) l s b p n
                  (omega arith)
          | inr (x, here) ↦
              let enough : length ds + k + length vs + length name + 2 < fuel = omega arith in
              let q : (g0, c0, u0, x) ≡ (g, c, u, f) =
                some_inj (sym (first_in-here reader addr g0 c0 u0 d x ds us here) ∙ e) in
              let (a, z, searched) =
                search_dies_lem reader fuel k m g0 c0 u0 stale d die2 ds addr low x name vs info h
                  here (ap (λ t. attr_find t.3 dw_at_low_pc) q ∙ l)
                  (subst (λ t. IsStr m (die_name t.3) name) (sym q) s) b
                  (subst (λ t. Params reader t.0 t.1 t.3 stale k vs) (sym q) p) n enough in
              search_units_found reader m stale addr info fuel dbg g0 cu c0 cudie die die2 u0 d a z
                (described reader u0 x (length name) low addr vs info) next first same inner start
                searched
              ∙ ap (λ t. ok (some (described reader t.2 t.3 (length name) low addr vs info))) q
        ]
