-- ===== src/Console/Terminal/Tests.antt =====
-- kern/printf.c over kern/console.c at concrete inputs.
use mit_jos_cse.Prelude.{
  ℕ, ◌<◌, ◌≡◌, refl, inl, inr, List, [], ◌∷◌, some, false, arith, ◌-ℤ◌, replicate, get_or, All,
  Memory, IsStr,
}
use mit_jos_cse.Printf.Format.{literal}
use mit_jos_cse.Printf.Number.{numeral}
use mit_jos_cse.Printf.Cprintf.{cprintf}
use mit_jos_cse.Printf.Format.Parse.{no_width, decimal}
use mit_jos_cse.Printf.Meaning
use mit_jos_cse.Printf.Meaning.{Item, plain, escape, format_text, IsItem}
use mit_jos_cse.Console.Display.{Crt, cputchar}
use mit_jos_cse.Console.Display.Screen.{IsValid}
use mit_jos_cse.Console.Display.Roll.{Roll, written, Shows, IsText, get_or-replicate}
use mit_jos_cse.Console.Terminal.{cprintf-Shows}

-- The devices are ready, and remember the last write.
abbrev ready : ℕ → ℕ → ℕ × ℕ
ready port d = (0xff, d)

abbrev remember : ℕ → ℕ → ℕ → ℕ
remember port v d = v

-- The cursor is two cells before the end of the display.
abbrev blank : Crt
blank = record { buf = replicate 2000 0x720; pos = 1998 }

abbrev roll : Roll
roll = record { cells = λ _. 0x720; cursor = 1998; top = 0 }

blank_cell : (i : ℕ) → i < 2000 → ◌≡◌ {A = ℕ} (get_or (replicate 2000 0x720) i 0) 0x720
blank_cell i b = get_or-replicate 2000 0x720 i b

roll-Shows : Shows roll blank
roll-Shows = record { size = refl; place = refl; same = blank_cell; below = λ i b. refl }

-- "n=%d\n" with 42
abbrev items : List Item
items = plain b'n' ∷ plain b'=' ∷ escape false no_width decimal 42 [] ∷ plain 10 ∷ []

abbrev text : Memory
text = literal (format_text items)

text-IsStr : IsStr text 0 (format_text items)
text-IsStr = ground arith

items-IsItem : All (IsItem text) items
items-IsItem = ground arith

printed-IsText : All IsText (Meaning.printed items)
unfolding numeral ◌-ℤ◌
printed-IsText = (
  inl (omega arith, omega arith),
  (
    inl (omega arith, omega arith),
    (inl (omega arith, omega arith), (inl (omega arith, omega arith), (inr refl, tt))),
  ),
)

cprintf-Shows_example :
    (s' : ℕ × Crt) × (cprintf (cputchar ready remember 0x3d4) 20 text 0 (42 ∷ []) (0, blank)
      ≡ some (0, s'))
    × Shows (written (Meaning.printed items) roll) s'.1
    × IsValid s'.1
cprintf-Shows_example =
    cprintf-Shows ready remember 0x3d4 20 text 0 items (0, blank) roll text-IsStr items-IsItem
      (omega arith) printed-IsText roll-Shows (record { cells = refl; inside = omega arith })
