-- ===== src/Kdebug.antt =====
-- kern/kdebug.c: what the kernel knows of an instruction address. The reader of the debug data is
-- the library of kern/libdwarf_*.c, so it is a parameter, the record `Reader`.
pub mod Args
pub mod Function
pub mod Unit
pub mod Listing
pub mod Units
pub mod Lookup
mod Tests
use mit_jos_cse.Prelude.{
  ℕ, zero, suc, ◌+◌, ◌%◌, ◌^◌, List, Option, none, some, Bool, true, false, ◌&&◌, leb, ltb, ◌==◌,
  if◌then◌else◌, set, Memory, ℤ, pos, negsuc, Run, ok, stopped, ◌>>=◌, ◌>>◌, panicked, fault,
  unfinished, assert, finished,
}
use mit_jos_cse.CString.Scan.{strlen}
use mit_jos_cse.Mmu.Layout.{kernbase, ulim}
use mit_jos_cse.Sections.{SectionInfo, dwarf_find_section}

abbrev pub dw_tag_formal_parameter : ℕ
dw_tag_formal_parameter = 0x05

abbrev pub dw_tag_subprogram : ℕ
dw_tag_subprogram = 0x2e

abbrev pub dw_at_byte_size : ℕ
dw_at_byte_size = 0x0b

abbrev pub dw_at_low_pc : ℕ
dw_at_low_pc = 0x11

abbrev pub dw_at_high_pc : ℕ
dw_at_high_pc = 0x12

abbrev pub dw_at_type : ℕ
dw_at_type = 0x49

abbrev pub dw_dlv_ok : ℤ
dw_dlv_ok = pos 0

abbrev pub dw_dle_no_entry : ℤ
dw_dle_no_entry = pos 4

-- `struct Ripdebuginfo`, without `reg_table`, which nothing here uses
pub record Ripdebuginfo : Type 0 where
  pub rip_file : ℕ
  pub rip_line : ℕ
  pub rip_fn_name : ℕ
  pub rip_fn_namelen : ℕ
  pub rip_fn_addr : ℕ
  pub rip_fn_narg : ℕ
  pub size_fn_arg : List ℕ

-- The functions of the reader. A function that fills a buffer takes what stood in it and returns
-- what then stands there. `link` stores the two pointers of a DIE to its unit and the unit's DIE,
-- and `set_info` the two fields of `dbg` that `debuginfo_rip` sets.
pub record Reader : Type 1 where
  pub Dbg : Type 0
  pub Die : Type 0
  pub Cu : Type 0
  pub init : ℕ → Dbg → Dbg
  pub set_info : ℕ → ℕ → Dbg → Dbg
  pub get_next_cu : Dbg → Cu → ℤ × Dbg × Cu
  pub siblingof : Dbg → Option Die → Die → Cu → ℤ × Die
  pub child : Dbg → Cu → Die → Die → ℤ × Die
  pub offdie : Dbg → ℕ → Die → Cu → Die
  pub attr_find : Die → ℕ → Option ℕ
  pub srclines : Die → ℕ → ℕ
  pub die_tag : Die → ℕ
  pub die_name : Die → ℕ
  pub cu_offset : Cu → ℕ
  pub link : Cu → Option Die → Die → Die

abbrev pub same_status : ℤ → ℤ → Bool
same_status (pos a) (pos b) = a == b
same_status (negsuc a) (negsuc b) = a == b
same_status _ _ = false

abbrev pub is_negative : ℤ → Bool
is_negative (pos n) = false
is_negative (negsuc n) = true

-- `size_fn_arg[rip_fn_narg] = size; rip_fn_narg++`
abbrev pub add_arg : ℕ → Ripdebuginfo → Run Ripdebuginfo
add_arg size info =
    if ltb info.rip_fn_narg 10
    then ok (record info {
      size_fn_arg = set info.size_fn_arg info.rip_fn_narg (size % 2 ^ 32);
      rip_fn_narg = info.rip_fn_narg + 1;
    })
    else stopped fault

-- `low->u[0].u64 < addr && high->u[0].u64 > addr`, where both are there
abbrev pub covers : Option ℕ → Option ℕ → ℕ → Bool
covers none high addr = false
covers (some l) none addr = false
covers (some l) (some h) addr = ltb l addr && ltb addr h

module _ (reader : Reader) where
  open reader use {
    Dbg, Die, Cu, init, set_info, get_next_cu, siblingof, child, offdie, attr_find, srclines,
    die_tag, die_name, cu_offset, link,
  }

  -- `try_again`: the size of the type at an attribute, through the types that it refers to.
  unfoldable pub type_size : ℕ → Dbg → Cu → Option ℕ → Die → ℕ → Run ℕ
  type_size zero dbg cu attr sib size = stopped unfinished
  type_size (suc fuel) dbg cu none sib size = ok size
  type_size (suc fuel) dbg cu (some t) sib size =
      let sib' = offdie dbg ((cu_offset cu + t) % 2 ^ 64) sib cu in
      elim (attr_find sib' dw_at_byte_size) [
        | some b ↦ ok b
        | none ↦ type_size fuel dbg cu (attr_find sib' dw_at_type) sib' size
      ]

  -- For a later argument the type is looked at once.
  unfoldable pub type_size_once : Dbg → Cu → Option ℕ → Die → ℕ → ℕ
  type_size_once dbg cu none sib size = size
  type_size_once dbg cu (some t) sib size =
      elim (attr_find (offdie dbg ((cu_offset cu + t) % 2 ^ 64) sib cu) dw_at_byte_size) [
        | some b ↦ b
        | none ↦ size
      ]

  -- `while (dwarf_siblingof(dbg, &sib, &ret, cu) == DW_DLV_OK)`, where `sib` and `ret` are equal
  unfoldable pub more_args : ℕ → Dbg → Cu → Die → ℕ → Ripdebuginfo → Run Ripdebuginfo
  unfolding type_size_once
  more_args zero dbg cu sib size info = stopped unfinished
  more_args (suc fuel) dbg cu sib size info =
      let (status, ret) = siblingof dbg (some sib) sib cu in
      let size' = type_size_once dbg cu (attr_find ret dw_at_type) sib size in
      let rest = add_arg size' info >>= λ info'. more_args fuel dbg cu ret size' info' in
      if same_status status dw_dlv_ok && die_tag ret == dw_tag_formal_parameter
      then rest
      else ok info

  -- The arguments of the function `die`; `ret` is what stands in the buffer for its first child.
  unfoldable pub list_args : ℕ → Dbg → Cu → Die → Die → Ripdebuginfo → Run Ripdebuginfo
  unfolding type_size more_args
  list_args fuel dbg cu die stale info =
      let (status, ret) = child dbg cu die stale in
      let args = (do
        size ← type_size fuel dbg cu (attr_find ret dw_at_type) die 8
        info' ← add_arg size info
        more_args fuel dbg cu ret size info') in
      if same_status status dw_dle_no_entry
      then ok info
      else if die_tag ret == dw_tag_formal_parameter
      then args
      else ok info

  -- `cu` and `cudie` are what the DIE's pointers `cu_header` and `cu_die` point to. The result is
  -- `none` for the return value 0.
  unfoldable pub list_func_die :
      ℕ → Memory → Dbg → Cu → Die → Die → Die → ℕ → Ripdebuginfo → Run (Option Ripdebuginfo)
  unfolding list_args
  list_func_die fuel m dbg cu cudie stale die addr info =
      let low = attr_find die dw_at_low_pc in
      let found = (do
        len ← finished (strlen fuel m (die_name die))
        info' ← list_args fuel dbg cu die stale (record info {
          rip_file = die_name cudie;
          rip_fn_name = die_name die;
          rip_fn_namelen = len;
          rip_fn_addr = elim low [ none ↦ 0 | some l ↦ l ];
          rip_line = srclines cudie addr % 2 ^ 32;
          rip_fn_narg = 0;
        })
        ok (some info')) in
      if die_tag die == dw_tag_subprogram && covers low (attr_find die dw_at_high_pc) addr
      then found
      else ok none

  -- `while (1)` over the DIEs of a unit; `die2` is what stands in the buffer for the next one. The
  -- buffers come back with the result, since the next unit uses them again.
  unfoldable pub search_dies :
      ℕ
      → Memory
      → Dbg
      → Cu
      → Die
      → Die
      → Die
      → Die
      → ℕ
      → Ripdebuginfo
      → Run (Option Ripdebuginfo × Die × Die)
  unfolding list_func_die
  search_dies zero m dbg cu cudie stale die die2 addr info = stopped unfinished
  search_dies (suc fuel) m dbg cu cudie stale die die2 addr info = do
    found ← list_func_die fuel m dbg cu cudie stale die addr info
    let (status, next) = siblingof dbg (some die) die2 cu
    let rest = search_dies fuel m dbg cu cudie stale (link cu (some cudie) next) next addr info
    elim found [
      | some info' ↦ ok (some info', die, die2)
      | none ↦ if is_negative status then ok (none, die, next) else rest
    ]

  -- `while (_get_next_cu(dbg, &cu) == 0)`, with the buffers `cu`, `cudie`, `die` and `die2`
  unfoldable pub search_units :
      ℕ → Memory → Dbg → Cu → Die → Die → Die → Die → ℕ → Ripdebuginfo → Run (Option Ripdebuginfo)
  unfolding search_dies
  search_units zero m dbg cu stale cudie die die2 addr info = stopped unfinished
  search_units (suc fuel) m dbg cu stale cudie die die2 addr info =
      let (more, dbg', cu') = get_next_cu dbg cu in
      let (first, cudie') = siblingof dbg' none cudie cu' in
      let unit = link cu' none cudie' in
      let (inner, die') = child dbg' cu' unit die in
      let skip_unit = search_units fuel m dbg' cu' stale cudie' die die2 addr info in
      let skip_dies = search_units fuel m dbg' cu' stale unit die' die2 addr info in
      let searched =
        search_dies fuel m dbg' cu' unit stale (link cu' (some unit) die') die2 addr info
        >>= λ (found, die'', die2'). elim found as (λ _. Run (Option Ripdebuginfo)) [
          | some info' ↦ ok (some info')
          | none ↦ search_units fuel m dbg' cu' stale unit die'' die2' addr info
        ] in
      if same_status more (pos 0)
      then (if same_status first dw_dle_no_entry
          then skip_unit
          else if same_status inner dw_dle_no_entry
          then skip_dies
          else searched)
      else ok none

  -- The result is the return value and `*info`. `unknown` and `name` are the addresses of the
  -- literals "<unknown>" and ".debug_info".
  unfoldable pub debuginfo_rip :
      ℕ → Memory → SectionInfo → ℕ → ℕ → Dbg → Cu → Die → ℕ → Ripdebuginfo → Run (ℤ × Ripdebuginfo)
  unfolding search_units
  debuginfo_rip fuel m sections unknown name dbg cu stale addr info =
      let info0 = record info {
        rip_file = unknown;
        rip_line = 0;
        rip_fn_name = unknown;
        rip_fn_namelen = 9;
        rip_fn_addr = addr;
        rip_fn_narg = 0;
      } in
      do
        (if leb ulim addr then ok tt else stopped panicked)
        entry ← finished (dwarf_find_section fuel m sections name)
        sect ← elim entry [ none ↦ stopped fault | some i ↦ ok (sections i) ]
        assert (ltb 0 sect.ds_size)
        found ←
            search_units fuel m (set_info sect.ds_data sect.ds_size (init (0x10000 + kernbase) dbg))
              cu stale stale stale stale addr info0
        ok (elim found [ none ↦ (negsuc 0, info0) | some info' ↦ (pos 0, info') ])
