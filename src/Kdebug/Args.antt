-- ===== src/Kdebug/Args.antt =====
-- kern/kdebug.c: the parameters of a function, from its children in the debug data.
use mit_jos_cse.Prelude.{
  ℕ, zero, suc, ◌+◌, ◌%◌, ◌^◌, ◌≤◌, ◌<◌, ◌≡◌, ◌⊎◌, inl, inr, refl, sym, ap, List, [], ◌∷◌, length,
  Option, none, some, true, false, ◌&&◌, ◌==◌, ltb, lt→ltb, set, arith, ok, Bool-cases,
}
use mit_jos_cse.Kdebug.{
  Ripdebuginfo, Reader, same_status, dw_dlv_ok, dw_dle_no_entry, dw_tag_formal_parameter,
  dw_at_byte_size, dw_at_type, type_size, type_size_once, more_args, list_args,
}

-- The information with the sizes of more arguments.
abbrev pub with_args : List ℕ → Ripdebuginfo → Ripdebuginfo
with_args [] info = info
with_args (v ∷ vs) info = with_args vs (record info {
  size_fn_arg = set info.size_fn_arg info.rip_fn_narg (v % 2 ^ 32);
  rip_fn_narg = info.rip_fn_narg + 1;
})

module _ (reader : Reader) where
  open reader use {Dbg, Die, Cu, siblingof, child, offdie, attr_find, die_tag, cu_offset}

  -- The type at an attribute has the size `v`, `k` references away; with no type it is `size`.
  abbrev pub TypeSize : Dbg → Cu → ℕ → Option ℕ → Die → ℕ → ℕ → Type 0
  TypeSize dbg cu k none sib size v = v ≡ size
  TypeSize dbg cu zero (some t) sib size v =
      attr_find (offdie dbg ((cu_offset cu + t) % 2 ^ 64) sib cu) dw_at_byte_size ≡ some v
  TypeSize dbg cu (suc k) (some t) sib size v =
      let sib' = offdie dbg ((cu_offset cu + t) % 2 ^ 64) sib cu in
      (attr_find sib' dw_at_byte_size ≡ none)
      × TypeSize dbg cu k (attr_find sib' dw_at_type) sib' size v

  -- The type that a later parameter's attribute refers to has the size `v` itself; where it has none,
  -- or there is no type, the size of the parameter before it counts again.
  abbrev pub LaterSize : Dbg → Cu → Option ℕ → Die → ℕ → ℕ → Type 0
  LaterSize dbg cu none sib size v = v ≡ size
  LaterSize dbg cu (some t) sib size v =
      let type_die = offdie dbg ((cu_offset cu + t) % 2 ^ 64) sib cu in
      (attr_find type_die dw_at_byte_size ≡ some v)
      ⊎ ((attr_find type_die dw_at_byte_size ≡ none) × (v ≡ size))

  -- The siblings behind `sib` are parameters of these sizes, up to the first that is none.
  abbrev pub Later : Dbg → Cu → Die → ℕ → List ℕ → Type 0
  Later dbg cu sib size [] =
      let (status, ret) = siblingof dbg (some sib) sib cu in
      (same_status status dw_dlv_ok && die_tag ret == dw_tag_formal_parameter) ≡ false
  Later dbg cu sib size (v ∷ vs) =
      let (status, ret) = siblingof dbg (some sib) sib cu in
      ((same_status status dw_dlv_ok && die_tag ret == dw_tag_formal_parameter) ≡ true)
      × LaterSize dbg cu (attr_find ret dw_at_type) sib size v
      × Later dbg cu ret v vs

  -- The children of `die` begin with parameters of these sizes.
  abbrev pub Params : Dbg → Cu → Die → Die → ℕ → List ℕ → Type 0
  Params dbg cu die stale k [] =
      let (status, ret) = child dbg cu die stale in
      (same_status status dw_dle_no_entry ≡ true)
      ⊎ ((die_tag ret == dw_tag_formal_parameter) ≡ false)
  Params dbg cu die stale k (v ∷ vs) =
      let (status, ret) = child dbg cu die stale in
      (same_status status dw_dle_no_entry ≡ false)
      × ((die_tag ret == dw_tag_formal_parameter) ≡ true)
      × TypeSize dbg cu k (attr_find ret dw_at_type) die 8 v
      × Later dbg cu ret v vs

  type_size_lem :
      (fuel k : ℕ) (dbg : Dbg) (cu : Cu) (attr : Option ℕ) (sib : Die) (size v : ℕ)
      → TypeSize dbg cu k attr sib size v
      → k + 1 < fuel
      → type_size reader fuel dbg cu attr sib size ≡ ok v
  unfolding type_size
  type_size_lem zero k dbg cu attr sib size v h f = absurd (omega arith)
  type_size_lem (suc fuel) k dbg cu none sib size v h f = ap ok (sym h)
  type_size_lem (suc fuel) zero dbg cu (some t) sib size v h f = rw (h, type_size) refl
  type_size_lem (suc fuel) (suc k) dbg cu (some t) sib size v (n, h) f =
      let sib' = offdie dbg ((cu_offset cu + t) % 2 ^ 64) sib cu in
      rw (n, type_size)
        (type_size_lem fuel k dbg cu (attr_find sib' dw_at_type) sib' size v h (omega arith))

  type_size_once_lem :
      (dbg : Dbg) (cu : Cu) (attr : Option ℕ) (sib : Die) (size v : ℕ)
      → LaterSize dbg cu attr sib size v
      → type_size_once reader dbg cu attr sib size ≡ v
  unfolding type_size_once
  type_size_once_lem dbg cu none sib size v h = sym h
  type_size_once_lem dbg cu (some t) sib size v (inl e) = rw (e, type_size_once) refl
  type_size_once_lem dbg cu (some t) sib size v (inr (e, same)) = rw (e, type_size_once) (sym same)

  more_args_lem :
      (fuel : ℕ) (dbg : Dbg) (cu : Cu) (sib : Die) (size : ℕ) (vs : List ℕ) (info : Ripdebuginfo)
      → Later dbg cu sib size vs
      → length vs < fuel
      → info.rip_fn_narg + length vs ≤ 10
      → more_args reader fuel dbg cu sib size info ≡ ok (with_args vs info)
  unfolding more_args
  more_args_lem zero dbg cu sib size vs info h f b = absurd (omega arith)
  more_args_lem (suc fuel) dbg cu sib size [] info h f b = rw (h, more_args) refl
  more_args_lem (suc fuel) dbg cu sib size (v ∷ vs) info (p, s, h) f b =
      let room : ltb info.rip_fn_narg 10 ≡ true = lt→ltb info.rip_fn_narg 10 (omega arith) in
      let ret = (siblingof dbg (some sib) sib cu).1 in
      let once = type_size_once_lem dbg cu (attr_find ret dw_at_type) sib size v s in
      rw (p, once, room, more_args)
        (more_args_lem fuel dbg cu (siblingof dbg (some sib) sib cu).1 v vs
          (record info {
            size_fn_arg = set info.size_fn_arg info.rip_fn_narg (v % 2 ^ 32);
            rip_fn_narg = info.rip_fn_narg + 1;
          })
          h (omega arith) (omega arith))

  pub list_args_lem :
      (fuel k : ℕ) (dbg : Dbg) (cu : Cu) (die stale : Die) (vs : List ℕ) (info : Ripdebuginfo)
      → Params dbg cu die stale k vs
      → k + length vs + 1 < fuel
      → info.rip_fn_narg + length vs ≤ 10
      → list_args reader fuel dbg cu die stale info ≡ ok (with_args vs info)
  unfolding list_args
  list_args_lem fuel k dbg cu die stale [] info (inl h) f b = rw (h, list_args) refl
  list_args_lem fuel k dbg cu die stale [] info (inr h) f b =
      elim (Bool-cases (same_status (child dbg cu die stale).0 dw_dle_no_entry)) [
        | inl e ↦ rw (e, list_args) refl
        | inr e ↦ rw (e, h, list_args) refl
      ]
  list_args_lem fuel k dbg cu die stale (v ∷ vs) info (e, p, s, h) f b =
      let ret = (child dbg cu die stale).1 in
      let room : ltb info.rip_fn_narg 10 ≡ true = lt→ltb info.rip_fn_narg 10 (omega arith) in
      rw
        (
          e,
          p,
          type_size_lem fuel k dbg cu (attr_find ret dw_at_type) die 8 v s (omega arith),
          room,
          list_args,
        )
        (more_args_lem fuel dbg cu ret v vs
          (record info {
            size_fn_arg = set info.size_fn_arg info.rip_fn_narg (v % 2 ^ 32);
            rip_fn_narg = info.rip_fn_narg + 1;
          })
          h (omega arith) (omega arith))
