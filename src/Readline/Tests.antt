-- ===== src/Readline/Tests.antt =====
-- lib/readline.c at concrete inputs.
use mit_jos_cse.Prelude.{
  ℕ, ◌-◌, ◌-ℤ◌, ◌<◌, ◌≡◌, refl, sym, subst, inl, inr, List, [], ◌∷◌, ◌++◌, Option, none, some, true,
  false, arith, codes, length, replicate, Memory, IsStr, Outside, bytes, ℤ, pos, negsuc,
}
use mit_jos_cse.CString.Scan.{strnlen}
use mit_jos_cse.Printf.Number.{emit, printnum}
use mit_jos_cse.Printf.Format.{reswitch, getint, put_string, error_string}
use mit_jos_cse.Printf.Engine.{vprintfmt}
use mit_jos_cse.Printf.Output.{collect}
use mit_jos_cse.Printf.Escape.{shown_chars}
use mit_jos_cse.Printf.Cprintf.{cprintf}
use mit_jos_cse.Console.Input.{Cons}
use mit_jos_cse.Console.Input.Ring.{IsValid, queue}
use mit_jos_cse.Console.Display.{
  Crt, cputchar, wait_for, serial_putc, lpt_putc, move_cursor, put_glyph, scroll, cga_glyph,
  cga_putc,
}
use mit_jos_cse.Readline.{buflen, readline}
use mit_jos_cse.Readline.Line.{typed, turned, input_of, shown_keys}
use mit_jos_cse.Readline.Prompt.{readline_lem}
use mit_jos_cse.Readline.Live.{readline_live}
use mit_jos_cse.Readline.Typing.{
  console_getchar, console_putchar, Struck, Strokes, readline_live_lem,
}

abbrev blank : Memory
blank a = 7

-- What a call returned, the first bytes of the buffer at 100, and what was shown.
abbrev outcome : Option (Option ℕ × Memory × List ℤ × List ℕ) → Option (Option ℕ × List ℕ × List ℕ)
outcome none = none
outcome (some (r, m, input, s)) = some (r, bytes m 100 4, s)

abbrev typed_in : List ℕ → Option (Option ℕ × List ℕ × List ℕ)
typed_in keys = outcome (readline collect 30 100 (some (codes "K> ")) (input_of keys []) blank [])

edited :
    typed_in (b'a' ∷ b'b' ∷ 8 ∷ 1 ∷ b'c' ∷ 13 ∷ [])
    ≡ some (some 100, codes "ac" ++ 0 ∷ 7 ∷ [], codes "K> ab" ++ 8 ∷ b'c' ∷ 10 ∷ [])
unfolding readline cprintf vprintfmt reswitch put_string strnlen ◌-ℤ◌
edited = refl

waiting : typed_in (b'a' ∷ []) ≡ none
unfolding readline cprintf vprintfmt reswitch put_string strnlen ◌-ℤ◌
waiting = refl

delete_first :
    typed_in (127 ∷ 10 ∷ []) ≡ some (some 100, 127 ∷ 0 ∷ 7 ∷ 7 ∷ [], codes "K> " ++ 127 ∷ 10 ∷ [])
unfolding readline cprintf vprintfmt reswitch put_string strnlen ◌-ℤ◌
delete_first = refl

failed :
    outcome (readline collect 60 100 none (pos b'a' ∷ negsuc 2 ∷ []) blank [])
    ≡ some (none, b'a' ∷ 7 ∷ 7 ∷ 7 ∷ [], codes "aread error: invalid parameter\n")
unfolding readline cprintf vprintfmt reswitch put_string strnlen error_string printnum getint ◌-ℤ◌
failed = refl

abbrev keys : List ℕ
keys = b'a' ∷ b'b' ∷ 8 ∷ b'c' ∷ []

readline_lem_example :
    (m' : Memory) × (readline collect 30 100
        (some (codes "K> "))
        (input_of keys (pos 10 ∷ []))
        blank
        []
      ≡ some (
        some 100,
        m',
        [],
        collect 10 (shown_keys collect true keys [] (emit collect (shown_chars (codes "K> ")) [])),
      ))
    × IsStr m' 100 (turned (typed keys []) [])
    × (length (typed keys []) < buflen)
    × ((a : ℕ) → Outside 100 buflen a → m' a ≡ blank a)
readline_lem_example =
    readline_lem collect 30 100 (codes "K> ") keys 10 [] blank [] (ground arith) (omega arith)
      (omega arith) (ground arith) (inl refl)

-- A keyboard whose polls find these, and a display of three cells.
abbrev Polls : Type 0
Polls = List (Option ℕ)

abbrev poll : Polls → Option ℕ × Polls
poll [] = (none, [])
poll (p ∷ ps) = (p, ps)

abbrev no_port : Polls → Option ℕ × Polls
no_port d = (none, d)

abbrev ready : ℕ → Polls → ℕ × Polls
ready p d = (0xFF, d)

abbrev ignore : ℕ → ℕ → Polls → Polls
ignore p v d = d

abbrev empty_ring : Cons
empty_ring = record { buf = replicate 512 0; rpos = 0; wpos = 0 }

empty_ring-IsValid : IsValid empty_ring
empty_ring-IsValid = record { storage = refl; read_in = omega arith; write_in = omega arith }

-- The first cells are written, of three.
abbrev at : List ℕ → Crt
at t = record { buf = t ++ replicate (3 - length t) 0x720; pos = length t }

-- "a" is struck after a poll that finds nothing, and then Enter.
abbrev script : Polls
script = none ∷ some b'a' ∷ none ∷ none ∷ some 13 ∷ none ∷ []

abbrev quiet_script : Polls
quiet_script = some b'a' ∷ none ∷ none ∷ some 13 ∷ none ∷ []

abbrev enter_script : Polls
enter_script = none ∷ some 13 ∷ none ∷ []

-- What is shown fills a cell, and leaves the keyboard's polls.
abbrev screen_after : ℕ → Polls → Crt → Polls × Crt
screen_after c d t = cputchar ready ignore 0x3D4 c (d, t)

prompt_shown : screen_after b'>' script (at []) ≡ (script, at (0x73e ∷ []))
unfolding cputchar wait_for serial_putc lpt_putc move_cursor put_glyph scroll cga_glyph cga_putc
prompt_shown = refl

key_shown :
    screen_after b'a' enter_script (at (0x73e ∷ [])) ≡ (enter_script, at (0x73e ∷ 0x761 ∷ []))
unfolding cputchar wait_for serial_putc lpt_putc move_cursor put_glyph scroll cga_glyph cga_putc
key_shown = refl

a-Struck : Struck ready ignore 0x3D4 no_port poll false 9 9 script b'a' enter_script
a-Struck = (
  1,
  quiet_script,
  quiet_script,
  omega arith,
  (script, quiet_script, (refl, refl), refl, refl),
  (refl, refl),
  (none ∷ enter_script, refl, refl),
)

enter-Struck : Struck ready ignore 0x3D4 no_port poll false 9 9 enter_script 13 []
enter-Struck = (
  1,
  some 13 ∷ none ∷ [],
  some 13 ∷ none ∷ [],
  omega arith,
  (enter_script, some 13 ∷ none ∷ [], (refl, refl), refl, refl),
  (refl, refl),
  (none ∷ [], refl, refl),
)

readline_live_lem_example :
    (r' : Cons) × (m' : Memory) × (readline_live
        (console_getchar ready ignore 0x3D4 no_port poll false 9 9)
        (console_putchar ready ignore 0x3D4 no_port poll false 9 9)
        9
        9
        100
        (some (codes ">"))
        blank
        ((script, at []), empty_ring)
      ≡ some (some 100, m', (screen_after 10 [] (at (0x73e ∷ 0x761 ∷ [])), r')))
    × IsStr m' 100 (codes "a")
    × (1 < buflen)
    × ((a : ℕ) → Outside 100 buflen a → m' a ≡ blank a)
    × IsValid r'
    × (queue r' ≡ [])
readline_live_lem_example =
    readline_live_lem ready ignore 0x3D4 no_port poll false 9 9 9 100 (codes ">") (codes "a") 13
      blank (script, at []) enter_script [] (at (0x73e ∷ 0x761 ∷ [])) empty_ring-IsValid refl
      ((omega arith), tt) (omega arith) (omega arith) ((omega arith), tt) (inr refl)
      (subst
        (λ x.
          Strokes ready ignore 0x3D4 no_port poll false 9 9 [] x (codes "a")
            (enter_script, at (0x73e ∷ 0x761 ∷ [])))
        (sym prompt_shown) (enter_script, a-Struck, key_shown))
      enter-Struck (omega arith)
