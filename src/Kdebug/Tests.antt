-- ===== src/Kdebug/Tests.antt =====
-- kern/kdebug.c over a small reader: units with a variable and a function with one parameter.
use mit_jos_cse.Prelude.{
  ℕ, ◌≡◌, refl, List, [], ◌∷◌, Option, none, some, ◌==◌, if◌then◌else◌, arith, Memory, store, pos,
  negsuc, ok, ◌+◌,
}
use mit_jos_cse.Kdebug.{
  Reader, Ripdebuginfo, debuginfo_rip, dw_tag_subprogram, dw_tag_formal_parameter, dw_at_low_pc,
  dw_at_high_pc, dw_at_type, dw_at_byte_size,
}
use mit_jos_cse.CString.Compare.{strcmp}
use mit_jos_cse.Mmu.Layout.{ulim}
use mit_jos_cse.Sections.{SectionInfo, dwarf_find_section}
use mit_jos_cse.Kdebug.Function.{described}
use mit_jos_cse.Kdebug.Listing.{Listing, Units, blank, listing}
use mit_jos_cse.Kdebug.Lookup.{unknown_at, debuginfo_rip_lem}

abbrev attribute : ℕ → ℕ → Option ℕ
attribute die at =
    if die == 2
    then (if at == dw_at_low_pc
        then some (ulim + 100)
        else if at == dw_at_high_pc
        then some (ulim + 200)
        else none)
    else if die == 5
    then (if at == dw_at_type then some 9 else none)
    else if die == 9
    then (if at == dw_at_byte_size then some 4 else none)
    else none

-- Of the two units one has no DIE. DIE 7 is that of the other, 1 the variable, 2 the function, 5 its
-- parameter and 9 the parameter's type.
abbrev small : Reader
small = record {
  Dbg = ℕ;
  Die = ℕ;
  Cu = ℕ;
  init = λ elf d. d;
  set_info = λ at size d. d;
  get_next_cu = λ d c. if d == 2 then (pos 1, d, c) else (pos 0, d + 1, c);
  siblingof = λ d die buf cu. elim die [
    | none ↦ if d == 1 then (pos 4, buf) else (pos 0, 7)
    | some n ↦ if n == 1 then (pos 0, 2) else (negsuc 0, buf)
  ];
  child = λ d cu die buf.
      if die == 7 then (pos 0, 1) else if die == 2 then (pos 0, 5) else (pos 4, buf);
  offdie = λ d at buf cu. at;
  attr_find = attribute;
  srclines = λ die pc. 42;
  die_tag = λ die.
      if die == 2 then dw_tag_subprogram else if die == 5 then dw_tag_formal_parameter else 0x34;
  die_name = λ die. 50;
  cu_offset = λ cu. 0;
  link = λ cu unit die. die;
}

abbrev text : Memory
text = store (λ a. 0) 50 b'f'

abbrev empty : Ripdebuginfo
empty = record {
  rip_file = 0;
  rip_line = 0;
  rip_fn_name = 0;
  rip_fn_namelen = 0;
  rip_fn_addr = 0;
  rip_fn_narg = 0;
  size_fn_arg = 0 ∷ 0 ∷ 0 ∷ 0 ∷ 0 ∷ 0 ∷ 0 ∷ 0 ∷ 0 ∷ 0 ∷ [];
}

abbrev sections : SectionInfo
sections i = record { ds_name = 50; ds_data = 0; ds_addr = 0; ds_size = 8 }

section_found : dwarf_find_section 12 text sections 50 ≡ some (some 0)
unfolding dwarf_find_section strcmp
section_found = refl

abbrev units : List (Listing ℕ ℕ ℕ)
units = blank 1 0 ∷ listing 2 0 7 1 (2 ∷ []) ∷ []

units_listed : Units small 0 0 0 0 0 units
units_listed = (refl, refl, (refl, refl, refl, refl, refl, (refl, refl, refl), refl))

debuginfo_rip_lem_example :
    debuginfo_rip small 12 text sections 90 50 0 0 0 (ulim + 150) empty
    ≡ ok (
      pos 0,
      described small 7 2 1 (ulim + 100) (ulim + 150) (4 ∷ []) (unknown_at 90 (ulim + 150) empty),
    )
debuginfo_rip_lem_example =
    debuginfo_rip_lem small 12 0 text sections 90 50 0 0 2 0 0 0 7 2 units (ulim + 150) (ulim + 100)
      (b'f' ∷ []) (4 ∷ []) empty (omega arith) section_found (omega arith) units_listed refl refl
      (refl, (λ e. absurd (omega (arith, e))), refl) (omega arith) (refl, refl, refl, refl)
      (omega arith) (omega arith)
