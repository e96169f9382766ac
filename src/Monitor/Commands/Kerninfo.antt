-- ===== src/Monitor/Commands/Kerninfo.antt =====
-- kern/monitor.c: what `mon_kerninfo` prints.
use mit_jos_cse.Prelude.{
  ℕ, ◌+◌, ◌-◌, ◌*◌, ◌/◌, ◌%◌, ◌^◌, ◌≤◌, ◌<◌, ◌≡◌, ◌≢◌, refl, sym, ap, ◌∙◌, List, [], ◌∷◌, ◌++◌,
  Option, none, some, true, false, arith, codes, All, Memory, IsStr, ℤ, pos,
}
use mit_jos_cse.Printf.Number.{emit, emit-append}
use mit_jos_cse.Printf.Format.Parse.{no_width, width, decimal, hexadecimal}
use mit_jos_cse.Printf.Meaning.{Item, plain, escape, format_text, slots, fuel_for, IsItem}
use mit_jos_cse.Printf.Meaning
use mit_jos_cse.Mmu.Layout.{kernbase}
use mit_jos_cse.Mmu.Round.{round_up, round_up_lem}
use mit_jos_cse.Monitor.Commands.{Formats, Symbols, print_all, mon_kerninfo}
use mit_jos_cse.Monitor.Commands.Help.{print-printed}
use mit_jos_cse.Monitor.Run.{plains, plains-IsItem}

-- "%08x"
abbrev pub hex8 : ℕ → Item
hex8 x = escape true (width b'8' []) hexadecimal x []

abbrev pub physical : ℕ → ℕ
physical a = (a + 2 ^ 64 - kernbase) % 2 ^ 64

abbrev newline : List Item
newline = plain 10 ∷ []

abbrev special_items : List Item
special_items = plains (codes "Special kernel symbols:") newline

abbrev start_items : ℕ → List Item
start_items a =
    plains (codes "  _start                  ") (hex8 a ∷ plains (codes " (phys)") newline)

abbrev symbol_items : List ℕ → ℕ → List Item
symbol_items label a =
    plains label
      (hex8 a ∷ plains (codes " (virt)  ") (hex8 (physical a) ∷ plains (codes " (phys)") newline))

abbrev footprint_items : ℕ → List Item
footprint_items kb =
    plains (codes "Kernel executable memory footprint: ")
      (escape false no_width decimal kb [] ∷ plains (codes "KB") newline)

-- The lines, each with the address of its format.
abbrev pub kerninfo_lines : Formats → Symbols → ℕ → List (ℕ × List Item)
kerninfo_lines formats symbols kb =
    (formats.special, special_items)
    ∷ (formats.start, start_items symbols.start)
    ∷ (formats.entry, symbol_items (codes "  entry  ") symbols.entry)
    ∷ (formats.etext, symbol_items (codes "  etext  ") symbols.etext)
    ∷ (formats.edata, symbol_items (codes "  edata  ") symbols.edata)
    ∷ (formats.end, symbol_items (codes "  end    ") symbols.end)
    ∷ (formats.footprint, footprint_items kb)
    ∷ []

abbrev pub lines_text : List (ℕ × List Item) → List ℕ
lines_text [] = []
lines_text ((fmt, is) ∷ ls) = Meaning.printed is ++ lines_text ls

-- The formats stand in the memory, and there is fuel for each.
abbrev pub AreLines : Memory → ℕ → List (ℕ × List Item) → Type 0
AreLines m fuel [] = Unit
AreLines m fuel ((fmt, is) ∷ ls) =
    IsStr m fmt (format_text is) × (fuel_for is ≤ fuel) × AreLines m fuel ls

-- A line's format and arguments.
abbrev calls : List (ℕ × List Item) → List (ℕ × List ℕ)
calls [] = []
calls ((fmt, is) ∷ ls) = (fmt, slots is) ∷ calls ls

symbol_items-IsItem :
    (m : Memory) (label : List ℕ) (a : ℕ)
    → All (λ c. c ≢ b'%') label
    → a < 2 ^ 64
    → All (IsItem m) (symbol_items label a)
symbol_items-IsItem m label a h b =
    let tail = plains (codes " (phys)") newline in
    let more = plains (codes " (virt)  ") (hex8 (physical a) ∷ tail) in
    let last = plains-IsItem m (codes " (phys)") newline (omega arith) (omega arith) in
    plains-IsItem m label (hex8 a ∷ more) h (
      (omega arith, b),
      plains-IsItem m (codes " (virt)  ") (hex8 (physical a) ∷ tail) (omega arith)
          ((omega arith, omega arith), last),
    )

start_items-IsItem : (m : Memory) (a : ℕ) → a < 2 ^ 64 → All (IsItem m) (start_items a)
start_items-IsItem m a b =
    plains-IsItem m (codes "  _start                  ") (hex8 a ∷ plains (codes " (phys)") newline)
      (omega arith)
      ((omega arith, b), plains-IsItem m (codes " (phys)") newline (omega arith) (omega arith))

footprint_items-IsItem : (m : Memory) (kb : ℕ) → kb < 2 ^ 64 → All (IsItem m) (footprint_items kb)
footprint_items-IsItem m kb b =
    plains-IsItem m (codes "Kernel executable memory footprint: ")
      (escape false no_width decimal kb [] ∷ plains (codes "KB") newline) (omega arith)
      ((tt, b), plains-IsItem m (codes "KB") newline (omega arith) (omega arith))

module _ {ℓ} {S : Type ℓ} (cputchar : ℕ → S → S) (fuel : ℕ) (formats : Formats) (m : Memory) where
  print_all_lem :
      (ls : List (ℕ × List Item)) (s : S)
      → AreLines m fuel ls
      → All (λ l. All (IsItem m) l.1) ls
      → print_all cputchar fuel formats m (calls ls) s ≡ some (emit cputchar (lines_text ls) s)
  print_all_lem [] s h i = refl
  print_all_lem ((fmt, is) ∷ ls) s (h, f, hs) (i, rest) =
      let one = print-printed cputchar fuel m fmt is s h i f in
      ap
        (λ o. elim o as (λ _. Option S) [
          | none ↦ none
          | some s' ↦ print_all cputchar fuel formats m (calls ls) s'
        ])
        one
      ∙ print_all_lem ls (emit cputchar (Meaning.printed is) s) hs rest
      ∙ ap some (sym (emit-append cputchar (Meaning.printed is) (lines_text ls) s))

  -- Where the formats stand in the memory and the symbols are addresses with the kernel's entry not
  -- above its end, `mon_kerninfo` prints the symbols, and behind each but the first its physical
  -- address, and returns 0. The footprint that it prints is the number of kilobytes from the entry
  -- to the end, rounded up.
  pub mon_kerninfo_lem :
      (symbols : Symbols) (s : S)
      → AreLines m fuel (kerninfo_lines formats symbols 0)
      → symbols.start < 2 ^ 64
      → symbols.etext < 2 ^ 64
      → symbols.edata < 2 ^ 64
      → symbols.entry ≤ symbols.end
      → symbols.end + 1024 < 2 ^ 64
      → (kb : ℕ) × (mon_kerninfo cputchar fuel formats m symbols s
          ≡ some (pos 0, emit cputchar (lines_text (kerninfo_lines formats symbols kb)) s))
        × (symbols.end - symbols.entry ≤ kb * 1024)
        × (kb * 1024 < symbols.end - symbols.entry + 1024)
  unfolding mon_kerninfo
  mon_kerninfo_lem symbols s h b1 b2 b3 o b4 =
      let size = symbols.end - symbols.entry in
      let wrapped : (symbols.end + 2 ^ 64 - symbols.entry) % 2 ^ 64 ≡ size = omega arith in
      let kb = round_up ((symbols.end + 2 ^ 64 - symbols.entry) % 2 ^ 64) 1024 / 1024 in
      let (whole, above, near) =
        round_up_lem ((symbols.end + 2 ^ 64 - symbols.entry) % 2 ^ 64) 1024 (omega arith)
          (omega (arith, wrapped)) in
      let lines = kerninfo_lines formats symbols kb in
      let items : All (λ l. All (IsItem m) l.1) lines = (
        plains-IsItem m (codes "Special kernel symbols:") newline (omega arith) (omega arith),
        (
          start_items-IsItem m symbols.start b1,
          (
            symbol_items-IsItem m (codes "  entry  ") symbols.entry (omega arith) (omega arith),
            (
              symbol_items-IsItem m (codes "  etext  ") symbols.etext (omega arith) b2,
              (
                symbol_items-IsItem m (codes "  edata  ") symbols.edata (omega arith) b3,
                (
                  symbol_items-IsItem m (codes "  end    ") symbols.end (omega arith) (omega arith),
                  (footprint_items-IsItem m kb (omega (arith, whole, near)), tt),
                ),
              ),
            ),
          ),
        ),
      ) in
      (
        kb,
        ap (λ o. elim o as (λ _. Option (ℤ × S)) [ none ↦ none | some s' ↦ some (pos 0, s') ])
            (print_all_lem lines s h items),
        omega (arith, wrapped, whole, above),
        omega (arith, wrapped, whole, near),
      )
