-- ===== src/Kdebug/Function.antt =====
-- kern/kdebug.c: what `list_func_die` says of a DIE.
use mit_jos_cse.Prelude.{
  ℕ, ◌+◌, ◌%◌, ◌^◌, ◌≤◌, ◌<◌, ◌≡◌, refl, List, length, Option, none, some, Bool, true, false, ◌&&◌,
  ◌==◌, arith, leb, sym, ap, ◌∙◌, Memory, IsStr, ok,
}
use mit_jos_cse.CString.Scan.{strlen, strlen_lem}
use mit_jos_cse.Kdebug.{
  Ripdebuginfo, Reader, dw_tag_subprogram, dw_at_low_pc, dw_at_high_pc, covers, list_func_die,
}
use mit_jos_cse.Kdebug.Args.{with_args, Params, list_args_lem}

module _ (reader : Reader) where
  open reader use {Dbg, Die, Cu, siblingof, attr_find, srclines, die_tag, die_name, link}

  -- The address lies behind the lowest one and before the highest, where both are given.
  abbrev pub between : Option ℕ → Option ℕ → ℕ → Bool
  between (some l) (some h) addr = leb (l + 1) addr && leb (addr + 1) h
  between _ _ addr = false

  between-covers : (l h : Option ℕ) (addr : ℕ) → between l h addr ≡ covers l h addr
  between-covers none h addr = refl
  between-covers (some l) none addr = refl
  between-covers (some l) (some h) addr = ground arith

  -- The DIE is a function whose addresses lie around `addr`.
  abbrev pub is_around : ℕ → Die → Bool
  is_around addr die =
      die_tag die == dw_tag_subprogram
      && between (attr_find die dw_at_low_pc) (attr_find die dw_at_high_pc) addr

  pub covered :
      (addr : ℕ) (die : Die) (b : Bool)
      → is_around addr die ≡ b
      → (die_tag die == dw_tag_subprogram
          && covers (attr_find die dw_at_low_pc) (attr_find die dw_at_high_pc) addr)
        ≡ b
  covered addr die b r =
      ap (λ x. die_tag die == dw_tag_subprogram && x)
        (sym (between-covers (attr_find die dw_at_low_pc) (attr_find die dw_at_high_pc) addr))
      ∙ r

  -- What a DIE says of the function: its name at `die_name`, of `len` characters, its lowest
  -- address, the line of `addr`, and the sizes of its parameters.
  abbrev pub described : Die → Die → ℕ → ℕ → ℕ → List ℕ → Ripdebuginfo → Ripdebuginfo
  described cudie die len low addr vs info = with_args vs (record info {
    rip_file = die_name cudie;
    rip_fn_name = die_name die;
    rip_fn_namelen = len;
    rip_fn_addr = low;
    rip_line = srclines cudie addr % 2 ^ 32;
    rip_fn_narg = 0;
  })

  pub list_func_die_lem :
      (fuel k : ℕ) (m : Memory) (dbg : Dbg) (cu : Cu) (cudie stale die : Die) (addr low : ℕ)
      (name vs : List ℕ) (info : Ripdebuginfo)
      → is_around addr die ≡ true
      → attr_find die dw_at_low_pc ≡ some low
      → IsStr m (die_name die) name
      → length name < 2 ^ 31
      → Params reader dbg cu die stale k vs
      → length vs ≤ 10
      → k + length vs + length name + 1 < fuel
      → list_func_die reader fuel m dbg cu cudie stale die addr info
        ≡ ok (some (described cudie die (length name) low addr vs info))
  unfolding list_func_die
  list_func_die_lem fuel k m dbg cu cudie stale die addr low name vs info r l s b p n f =
      let len : strlen fuel m (die_name die) ≡ some (length name) =
        strlen_lem fuel m (die_name die) name s (omega arith) b in
      let args =
        list_args_lem reader fuel k dbg cu die stale vs
          (record info {
            rip_file = die_name cudie;
            rip_fn_name = die_name die;
            rip_fn_namelen = length name;
            rip_fn_addr = low;
            rip_line = srclines cudie addr % 2 ^ 32;
            rip_fn_narg = 0;
          })
          p (omega arith) (omega arith) in
      rw (covered addr die true r, l, len, args, list_func_die) refl

  pub list_func_die-none :
      (fuel : ℕ) (m : Memory) (dbg : Dbg) (cu : Cu) (cudie stale die : Die) (addr : ℕ)
      (info : Ripdebuginfo)
      → is_around addr die ≡ false
      → list_func_die reader fuel m dbg cu cudie stale die addr info ≡ ok none
  unfolding list_func_die
  list_func_die-none fuel m dbg cu cudie stale die addr info r =
      rw (covered addr die false r, list_func_die) refl
