-- ===== src/Console/Terminal.antt =====
-- `cprintf` on the display: kern/printf.c over kern/console.c.
mod Tests
use mit_jos_cse.Prelude.{ℕ, ◌≤◌, ◌≡◌, List, some, All, Memory, IsStr}
use mit_jos_cse.Printf.Cprintf.{cprintf}
use mit_jos_cse.Printf.Number.{emit}
use mit_jos_cse.Printf.Meaning.{Item, format_text, slots, fuel_for, IsItem}
use mit_jos_cse.Printf.Meaning
use mit_jos_cse.Monitor.Run.{cprintf-printed}
use mit_jos_cse.Console.Display.{Crt, cputchar}
use mit_jos_cse.Console.Display.Screen.{IsValid}
use mit_jos_cse.Console.Display.Roll.{Roll, written, Shows, IsText, emit-Shows}

-- On a valid display that shows a window of a roll of text, `cprintf` of a format whose text has only
-- printable characters and newlines ends, and the display is valid and shows the window of the roll
-- on which that text was written behind the rest: character by character, a new row after 80 cells or
-- at a newline, and the window moved down by a row whenever the place for the next character leaves
-- it.
pub cprintf-Shows :
    {D : Type 0} (inb : ℕ → D → ℕ × D) (outb : ℕ → ℕ → D → D) (addr fuel : ℕ) (m : Memory) (fmt : ℕ)
    (is : List Item) (s : D × Crt) (p : Roll)
    → IsStr m fmt (format_text is)
    → All (IsItem m) is
    → fuel_for is ≤ fuel
    → All IsText (Meaning.printed is)
    → Shows p s.1
    → IsValid s.1
    → (s' : D × Crt) × (cprintf (cputchar inb outb addr) fuel m fmt (slots is) s ≡ some (0, s'))
      × Shows (written (Meaning.printed is) p) s'.1
      × IsValid s'.1
cprintf-Shows inb outb addr fuel m fmt is s p f i b x h v =
    let (h', v') = emit-Shows inb outb addr (Meaning.printed is) s p x h v in
    (
      emit (cputchar inb outb addr) (Meaning.printed is) s,
      cprintf-printed (cputchar inb outb addr) fuel m fmt is s f i b,
      h',
      v',
    )
