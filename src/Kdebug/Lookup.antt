-- ===== src/Kdebug/Lookup.antt =====
-- kern/kdebug.c: what `debuginfo_rip` returns.
use mit_jos_cse.Prelude.{
  ℕ, ◌+◌, ◌^◌, ◌≤◌, ◌<◌, ◌≡◌, refl, List, length, some, true, ltb, leb, lt→ltb, arith, Memory,
  IsStr, pos, ok,
}
use mit_jos_cse.Kdebug.{Ripdebuginfo, Reader, dw_at_low_pc, debuginfo_rip}
use mit_jos_cse.Mmu.Layout.{kernbase, ulim}
use mit_jos_cse.Sections.{SectionInfo, dwarf_find_section}
use mit_jos_cse.Kdebug.Args.{Params}
use mit_jos_cse.Kdebug.Function.{described}
use mit_jos_cse.Kdebug.Listing.{Listing, Units, size, first_in}
use mit_jos_cse.Kdebug.Units.{search_units_lem}

-- What `debuginfo_rip` stores before it searches.
abbrev pub unknown_at : ℕ → ℕ → Ripdebuginfo → Ripdebuginfo
unknown_at unknown addr info = record info {
  rip_file = unknown;
  rip_line = 0;
  rip_fn_name = unknown;
  rip_fn_namelen = 9;
  rip_fn_addr = addr;
  rip_fn_narg = 0;
}

module _ (reader : Reader) where
  open reader use {Dbg, Die, Cu, init, set_info, attr_find, die_name}

  -- The reader's state when the search begins, for the section at entry `i`.
  abbrev pub opened : SectionInfo → ℕ → Dbg → Dbg
  opened sections i dbg =
      set_info (sections i).ds_data (sections i).ds_size (init (0x10000 + kernbase) dbg)

  -- For an address of the kernel, a section named .debug_info that is not empty, and units that the
  -- reader lists one after the other until there is no further one: `debuginfo_rip` returns 0 and
  -- describes the first function with `low_pc < addr < high_pc` of the first unit that has one: its
  -- file, its name and the name's length, its address, the line of the address, and the number and
  -- the sizes of its parameters. The function has at most ten parameters. The first one's type leads
  -- in `k` references to one with a size, or it has none and counts as 8; a later one's type is
  -- looked at once, and where it has no size itself the size of the parameter before it counts
  -- again. The fuel is for the units, the DIEs, the parameters, the references and the name.
  pub debuginfo_rip_lem :
      (fuel k : ℕ) (m : Memory) (sections : SectionInfo) (unknown name_at i : ℕ) (dbg g : Dbg)
      (cu c : Cu) (stale u f : Die) (us : List (Listing Dbg Cu Die)) (addr low : ℕ)
      (name vs : List ℕ) (info : Ripdebuginfo)
      → ulim ≤ addr
      → dwarf_find_section fuel m sections name_at ≡ some (some i)
      → 0 < (sections i).ds_size
      → Units reader (opened sections i dbg) cu stale stale stale us
      → first_in reader addr us ≡ some (g, c, u, f)
      → attr_find f dw_at_low_pc ≡ some low
      → IsStr m (die_name f) name
      → length name < 2 ^ 31
      → Params reader g c f stale k vs
      → length vs ≤ 10
      → size reader us + k + length vs + length name + 2 < fuel
      → debuginfo_rip reader fuel m sections unknown name_at dbg cu stale addr info
        ≡ ok (pos 0, described reader u f (length name) low addr vs (unknown_at unknown addr info))
  unfolding debuginfo_rip
  debuginfo_rip_lem fuel k m sections unknown name_at i dbg g cu c stale u f us addr low name vs
        info a d z h e l s b p n fu =
      let kernel : leb ulim addr ≡ true = ground (arith, a) in
      let full : ltb 0 (sections i).ds_size ≡ true = lt→ltb 0 (sections i).ds_size z in
      let searched =
        search_units_lem reader m stale addr (unknown_at unknown addr info) fuel k
          (opened sections i dbg) g cu c stale stale stale u f us low name vs h e l s b p n fu in
      rw (kernel, d, full, searched, debuginfo_rip) refl
