-- ===== src/Kdebug/Unit.antt =====
-- kern/kdebug.c: the search of one unit's DIEs for the function that an address lies in.
use mit_jos_cse.Prelude.{
  some_inj, ℕ, zero, suc, ◌+◌, ◌^◌, ◌≤◌, ◌<◌, ◌≡◌, inl, inr, refl, sym, ap, ◌∙◌, List, [], ◌∷◌,
  length, Option, none, some, true, false, if◌then◌else◌, arith, Memory, IsStr, ok, Bool-cases,
}
use mit_jos_cse.Kdebug.{Ripdebuginfo, Reader, is_negative, dw_at_low_pc, list_func_die, search_dies}
use mit_jos_cse.Kdebug.Args.{Params}
use mit_jos_cse.Kdebug.Function.{is_around, covered, described, list_func_die_lem}

module _ (reader : Reader) where
  open reader use {Dbg, Die, Cu, siblingof, attr_find, die_name, link}

  -- The DIEs that follow `die` in its unit, each from the one before; `die2` is the buffer.
  abbrev pub Following : Dbg → Cu → Die → Die → Die → List Die → Type 0
  Following dbg cu unit die die2 [] = is_negative (siblingof dbg (some die) die2 cu).0 ≡ true
  Following dbg cu unit die die2 (d ∷ ds) =
      let (status, next) = siblingof dbg (some die) die2 cu in
      (is_negative status ≡ false)
      × (link cu (some unit) next ≡ d)
      × Following dbg cu unit d next ds

  -- The first of the DIEs that is a function around the address.
  abbrev pub first_around : ℕ → List Die → Option Die
  first_around addr [] = none
  first_around addr (d ∷ ds) = if is_around reader addr d then some d else first_around addr ds

  first_here :
      (addr : ℕ) (d f : Die) (ds : List Die)
      → is_around reader addr d ≡ true
      → first_around addr (d ∷ ds) ≡ some f
      → d ≡ f
  first_here addr d f ds r e =
      some_inj (sym (ap (λ b. if b then some d else first_around addr ds) r) ∙ e)

  first_there :
      (addr : ℕ) (d : Die) (ds : List Die) (o : Option Die)
      → is_around reader addr d ≡ false
      → first_around addr (d ∷ ds) ≡ o
      → first_around addr ds ≡ o
  first_there addr d ds o r e = sym (ap (λ b. if b then some d else first_around addr ds) r) ∙ e

  first_around_lem :
      (addr : ℕ) (f : Die) (ds : List Die)
      → first_around addr ds ≡ some f
      → is_around reader addr f ≡ true
  first_around_lem addr f [] e = ground (arith, e)
  first_around_lem addr f (d ∷ ds) e = elim (Bool-cases (is_around reader addr d)) [
    | inl r ↦ sym (ap (is_around reader addr) (first_here addr d f ds r e)) ∙ r
    | inr r ↦ first_around_lem addr f ds (first_there addr d ds (some f) r e)
  ]

  search_dies_more :
      (fuel : ℕ) (m : Memory) (dbg : Dbg) (cu : Cu) (unit stale die die2 : Die) (addr : ℕ)
      (info : Ripdebuginfo)
      → is_around reader addr die ≡ false
      → is_negative (siblingof dbg (some die) die2 cu).0 ≡ false
      → let next = (siblingof dbg (some die) die2 cu).1 in
        search_dies reader (suc fuel) m dbg cu unit stale die die2 addr info
        ≡ search_dies reader fuel m dbg cu unit stale (link cu (some unit) next) next addr info
  unfolding search_dies
  search_dies_more fuel m dbg cu unit stale die die2 addr info r s =
      rw (search_dies, covered reader addr die false r, s) refl

  search_dies_found :
      (fuel : ℕ) (m : Memory) (dbg : Dbg) (cu : Cu) (unit stale die die2 : Die) (addr : ℕ)
      (info info' : Ripdebuginfo)
      → list_func_die reader fuel m dbg cu unit stale die addr info ≡ ok (some info')
      → search_dies reader (suc fuel) m dbg cu unit stale die die2 addr info
        ≡ ok (some info', die, die2)
  unfolding search_dies
  search_dies_found fuel m dbg cu unit stale die die2 addr info info' e = rw (e, search_dies) refl

  search_dies_here :
      (fuel k : ℕ) (m : Memory) (dbg : Dbg) (cu : Cu) (unit stale die die2 : Die) (ds : List Die)
      (addr low : ℕ) (f : Die) (name vs : List ℕ) (info : Ripdebuginfo)
      → is_around reader addr die ≡ true
      → first_around addr (die ∷ ds) ≡ some f
      → attr_find f dw_at_low_pc ≡ some low
      → IsStr m (die_name f) name
      → length name < 2 ^ 31
      → Params reader dbg cu f stale k vs
      → length vs ≤ 10
      → k + length vs + length name + 1 < fuel
      → (a : Die) × (b : Die) × (search_dies reader
            (suc fuel)
            m
            dbg
            cu
            unit
            stale
            die
            die2
            addr
            info
          ≡ ok (some (described reader unit f (length name) low addr vs info), a, b))
  search_dies_here fuel k m dbg cu unit stale die die2 ds addr low f name vs info r e l s b p n fu =
      (
        die,
        die2,
        search_dies_found fuel m dbg cu unit stale die die2 addr info
            (described reader unit f (length name) low addr vs info)
            (ap (λ x. list_func_die reader fuel m dbg cu unit stale x addr info)
                (first_here addr die f ds r e)
              ∙ list_func_die_lem reader fuel k m dbg cu unit stale f addr low name vs info
                  (first_around_lem addr f (die ∷ ds) e) l s b p n fu),
      )

  -- The DIE at which a search without a find ends, and what then stands in the buffer.
  abbrev pub last_die : Die → List Die → Die
  last_die die [] = die
  last_die die (d ∷ ds) = last_die d ds

  abbrev pub last_buffer : Dbg → Cu → Die → Die → List Die → Die
  last_buffer dbg cu die die2 [] = (siblingof dbg (some die) die2 cu).1
  last_buffer dbg cu die die2 (d ∷ ds) =
      last_buffer dbg cu d (siblingof dbg (some die) die2 cu).1 ds

  -- If no DIE of a unit is a function around the address, the search ends with nothing found.
  pub search_dies-none :
      (fuel : ℕ) (m : Memory) (dbg : Dbg) (cu : Cu) (unit stale die die2 : Die) (ds : List Die)
      (addr : ℕ) (info : Ripdebuginfo)
      → Following dbg cu unit die die2 ds
      → first_around addr (die ∷ ds) ≡ none
      → length ds < fuel
      → search_dies reader fuel m dbg cu unit stale die die2 addr info
        ≡ ok (none, last_die die ds, last_buffer dbg cu die die2 ds)
  unfolding search_dies
  search_dies-none zero m dbg cu unit stale die die2 ds addr info h e f = absurd (omega arith)
  search_dies-none (suc fuel) m dbg cu unit stale die die2 [] addr info h e f =
      let r : is_around reader addr die ≡ false = ground (arith, e) in
      rw (search_dies, covered reader addr die false r, h) refl
  search_dies-none (suc fuel) m dbg cu unit stale die die2 (d ∷ ds) addr info (s, same, h) e f =
      let r : is_around reader addr die ≡ false = ground (arith, e) in
      let next = (siblingof dbg (some die) die2 cu).1 in
      search_dies_more fuel m dbg cu unit stale die die2 addr info r s
      ∙ ap (λ x. search_dies reader fuel m dbg cu unit stale x next addr info) same
      ∙ search_dies-none fuel m dbg cu unit stale d next ds addr info h (ground (arith, e))
          (omega arith)

  -- Over the DIEs of a unit, each found from the one before by `dwarf_siblingof` until that fails,
  -- the search finds the first function with `low_pc < addr < high_pc`, and fills in its file, its
  -- name and the name's length, its address, the line of the address, and the number and the sizes
  -- of its parameters. The function has at most ten parameters, each of whose types leads in at most
  -- `k` references to one with a size, and the fuel is for the DIEs, the parameters, the references
  -- and the name.
  pub search_dies_lem :
      (fuel k : ℕ) (m : Memory) (dbg : Dbg) (cu : Cu) (unit stale die die2 : Die) (ds : List Die)
      (addr low : ℕ) (f : Die) (name vs : List ℕ) (info : Ripdebuginfo)
      → Following dbg cu unit die die2 ds
      → first_around addr (die ∷ ds) ≡ some f
      → attr_find f dw_at_low_pc ≡ some low
      → IsStr m (die_name f) name
      → length name < 2 ^ 31
      → Params reader dbg cu f stale k vs
      → length vs ≤ 10
      → length ds + k + length vs + length name + 2 < fuel
      → (a : Die) × (b : Die) × (search_dies reader fuel m dbg cu unit stale die die2 addr info
          ≡ ok (some (described reader unit f (length name) low addr vs info), a, b))
  unfolding search_dies
  search_dies_lem zero k m dbg cu unit stale die die2 ds addr low f name vs info h e l s b p n fu =
      absurd (omega arith)
  search_dies_lem (suc fuel) k m dbg cu unit stale die die2 [] addr low f name vs info h e l s b p n
        fu =
      elim (Bool-cases (is_around reader addr die)) [
        | inl r ↦
            search_dies_here fuel k m dbg cu unit stale die die2 [] addr low f name vs info r e l s
              b p n (omega arith)
        | inr r ↦ ground (arith, first_there addr die [] (some f) r e)
      ]
  search_dies_lem (suc fuel) k m dbg cu unit stale die die2 (d ∷ ds) addr low f name vs info
        (more, same, h) e l s b p n fu =
      elim (Bool-cases (is_around reader addr die)) [
        | inl r ↦
            search_dies_here fuel k m dbg cu unit stale die die2 (d ∷ ds) addr low f name vs info r
              e l s b p n (omega arith)
        | inr r ↦
            let next = (siblingof dbg (some die) die2 cu).1 in
            let (x, y, done) =
              search_dies_lem fuel k m dbg cu unit stale d next ds addr low f name vs info h
                (first_there addr die (d ∷ ds) (some f) r e) l s b p n (omega arith) in
            (
              x,
              y,
              search_dies_more fuel m dbg cu unit stale die die2 addr info r more
                  ∙ ap (λ z. search_dies reader fuel m dbg cu unit stale z next addr info) same
                  ∙ done,
            )
      ]
