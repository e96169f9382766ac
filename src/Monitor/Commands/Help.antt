-- ===== src/Monitor/Commands/Help.antt =====
-- kern/monitor.c: what `mon_help` prints.
use mit_jos_cse.Prelude.{
  ℕ, ◌+◌, ◌≤◌, ◌≡◌, refl, sym, ap, ◌∙◌, List, [], ◌∷◌, ◌++◌, Option, none, some, false, arith,
  length, All, Memory, IsStr, pos,
}
use mit_jos_cse.Printf.Number.{emit, emit-append}
use mit_jos_cse.Printf.Format.Parse.{no_width, text}
use mit_jos_cse.Printf.Meaning.{Item, plain, escape, format_text, slots, fuel_for, IsItem}
use mit_jos_cse.Printf.Meaning
use mit_jos_cse.Monitor.{Command}
use mit_jos_cse.Monitor.Commands.{Formats, print, mon_help}
use mit_jos_cse.Monitor.Run.{cprintf-printed}

-- "%s - %s\n"
abbrev pub help_items : ℕ → List ℕ → ℕ → List ℕ → List Item
help_items name_at name desc_at desc =
    escape false no_width text name_at name
    ∷ plain b' '
    ∷ plain b'-'
    ∷ plain b' '
    ∷ escape false no_width text desc_at desc
    ∷ plain 10
    ∷ []

-- The names and the descriptions of the commands stand in the memory.
abbrev pub AreDescribed : Memory → ℕ → List Command → List (List ℕ × List ℕ) → Type 0
AreDescribed m fuel [] [] = Unit
AreDescribed m fuel [] (t ∷ ts) = ⊥
AreDescribed m fuel (c ∷ cs) [] = ⊥
AreDescribed m fuel (c ∷ cs) ((name, desc) ∷ ts) =
    All (IsItem m) (help_items c.name name c.desc desc)
    × (length name + length desc + 9 ≤ fuel)
    × AreDescribed m fuel cs ts

-- A line for each command.
abbrev pub help_lines : List Command → List (List ℕ × List ℕ) → List ℕ
help_lines [] ts = []
help_lines (c ∷ cs) [] = []
help_lines (c ∷ cs) ((name, desc) ∷ ts) =
    Meaning.printed (help_items c.name name c.desc desc) ++ help_lines cs ts

module _ {ℓ} {S : Type ℓ} (cputchar : ℕ → S → S) (fuel : ℕ) where
  pub print-printed :
      (m : Memory) (fmt : ℕ) (is : List Item) (s : S)
      → IsStr m fmt (format_text is)
      → All (IsItem m) is
      → fuel_for is ≤ fuel
      → print cputchar fuel m fmt (slots is) s ≡ some (emit cputchar (Meaning.printed is) s)
  print-printed m fmt is s h i f =
      ap (λ o. elim o as (λ _. Option S) [ none ↦ none | some (count, s') ↦ some s' ])
        (cprintf-printed cputchar fuel m fmt is s h i f)

  -- With the format and the texts of the commands in the memory, and fuel for each line, `mon_help`
  -- prints the line "NAME - DESCRIPTION" for each command in the order of the table, and returns 0.
  pub mon_help_lem :
      (formats : Formats) (m : Memory) (cs : List Command) (ts : List (List ℕ × List ℕ)) (s : S)
      → IsStr m formats.help (format_text (help_items 0 [] 0 []))
      → AreDescribed m fuel cs ts
      → mon_help cputchar fuel formats m cs s ≡ some (pos 0, emit cputchar (help_lines cs ts) s)
  unfolding mon_help
  mon_help_lem formats m [] [] s h d = refl
  mon_help_lem formats m [] (t ∷ ts) s h d = absurd d
  mon_help_lem formats m (c ∷ cs) [] s h d = absurd d
  mon_help_lem formats m (c ∷ cs) ((name, desc) ∷ ts) s h (i, f, d) =
      let items = help_items c.name name c.desc desc in
      let line = print-printed m formats.help items s h i (omega arith) in
      rw (line, mon_help)
        (mon_help_lem formats m cs ts (emit cputchar (Meaning.printed items) s) h d
          ∙ ap (λ x. some (pos 0, x))
              (sym (emit-append cputchar (Meaning.printed items) (help_lines cs ts) s)))
