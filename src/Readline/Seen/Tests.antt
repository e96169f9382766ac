-- ===== src/Readline/Seen/Tests.antt =====
-- lib/readline.c on the display, at concrete inputs.
use mit_jos_cse.Prelude.{
  ℕ, ◌<◌, ◌≡◌, refl, inl, List, [], ◌∷◌, some, arith, codes, replicate, get_or, Memory, IsStr, pos,
}
use mit_jos_cse.Console.Display.{Crt, cputchar}
use mit_jos_cse.Console.Display.Screen.{IsValid}
use mit_jos_cse.Console.Display.Roll.{Roll, write, written, Shows, get_or-replicate}
use mit_jos_cse.Console.Display.Line.{with_line}
use mit_jos_cse.Readline.{readline}
use mit_jos_cse.Readline.Line.{typed, turned, input_of}
use mit_jos_cse.Readline.Seen.{readline-Shows}

-- The devices are ready, and remember the last write.
abbrev ready : ℕ → ℕ → ℕ × ℕ
ready port d = (0xff, d)

abbrev remember : ℕ → ℕ → ℕ → ℕ
remember port v d = v

-- The cursor is two cells before the end of the display.
abbrev low : Crt
low = record { buf = replicate 2000 0x720; pos = 1998 }

abbrev roll : Roll
roll = record { cells = λ _. 0x720; cursor = 1998; top = 0 }

blank_cell : (i : ℕ) → i < 2000 → ◌≡◌ {A = ℕ} (get_or (replicate 2000 0x720) i 0) 0x720
blank_cell i b = get_or-replicate 2000 0x720 i b

roll-Shows : Shows roll low
roll-Shows = record { size = refl; place = refl; same = blank_cell; below = λ i b. refl }

abbrev sevens : Memory
sevens a = 7

-- "a", "b", a backspace and "c"
abbrev keys : List ℕ
keys = b'a' ∷ b'b' ∷ 8 ∷ b'c' ∷ []

line : turned (typed keys []) [] ≡ codes "ac"
line = refl

readline-Shows_example :
    (m' : Memory) × (s' : ℕ × Crt) × (row : ℕ) × (readline
        (cputchar ready remember 0x3d4)
        30
        100
        (some (codes "K> "))
        (input_of keys (pos 10 ∷ []))
        sevens
        (0, low)
      ≡ some (some 100, m', [], s'))
    × IsStr m' 100 (turned (typed keys []) [])
    × Shows (write 10 (with_line (typed keys []) row (written (codes "K> ") roll))) s'.1
    × IsValid s'.1
readline-Shows_example =
    readline-Shows ready remember 0x3d4 30 100 (codes "K> ") keys 10 [] sevens (0, low) roll
      (ground arith) (omega arith) (omega arith) (ground arith) (inl refl) roll-Shows
      (record { cells = refl; inside = omega arith }) (λ i b. refl)
