-- ===== src/Monitor/Tests.antt =====
-- kern/monitor.c at concrete lines.
use mit_jos_cse.Prelude.{
  ℕ, ◌≡◌, refl, List, [], ◌∷◌, ◌++◌, Option, some, false, arith, length, codes, Memory, IsStr,
  Outside, blit, ℤ, pos,
}
use mit_jos_cse.Printf.Number.{emit}
use mit_jos_cse.Printf.Meaning.{format_text}
use mit_jos_cse.Printf.Meaning
use mit_jos_cse.Printf.Output.{collect}
use mit_jos_cse.Monitor.{Strings, Command, runcmd}
use mit_jos_cse.Monitor.Words.{words}
use mit_jos_cse.Monitor.Args.{white_text}
use mit_jos_cse.Monitor.Held.{AllStr}
use mit_jos_cse.Monitor.Run.{lookup, dispatched, unknown_items, too_many_items}
use mit_jos_cse.Monitor.Line.{runcmd_lem, runcmd-too_many}
use mit_jos_cse.Monitor.Apart.{AreStrings}

abbrev strings : Strings
strings = record { whitespace = 20; too_many_fmt = 60; unknown_fmt = 30 }

abbrev commands : List Command
commands = record { name = 10; desc = 10; func = 7 } ∷ []

abbrev put : ℕ → List ℕ → Memory → Memory
put a t m = blit m a (t ++ 0 ∷ [])

abbrev memory_of : List ℕ → Memory
memory_of line = put 10 (codes "help") (
    put 20 white_text (
      put 30 (format_text (unknown_items 0 []))
        (put 60 (format_text too_many_items) (put 100 line (λ a. 1)))))

-- What a command does here: it returns its number and shows its arguments' addresses.
abbrev call : ℕ → ℕ → List ℕ → Memory → List ℕ → Option (ℤ × Memory × List ℕ)
call func argc argv m s = some (pos func, m, argv)

abbrev line : List ℕ
line = codes " help  me"

two_words : words false line ≡ codes "help" ∷ codes "me" ∷ []
two_words = refl

line-IsStr : IsStr (memory_of line) 100 line
line-IsStr = ground arith

line-AreStrings : AreStrings (memory_of line) strings commands (codes "help" ∷ []) 100 9
line-AreStrings = record {
  white = ground arith;
  unknown = ground arith;
  many = ground arith;
  named = ground arith;
  white_apart = ground arith;
  unknown_apart = ground arith;
  many_apart = ground arith;
  named_apart = ground arith;
}

runcmd_lem_example :
    (arg : ℕ) × (args : List ℕ) × (m' : Memory) × AllStr m'
      (arg ∷ args)
      (codes "help" ∷ codes "me" ∷ [])
    × ((x : ℕ) → Outside 100 (length line) x → m' x ≡ memory_of line x)
    × (runcmd collect call 40 strings commands (memory_of line) 100 []
        ≡ dispatched collect call
            (lookup (codes "help") commands (codes "help" ∷ []))
            arg
            args
            (codes "help")
            m'
            [])
runcmd_lem_example =
    runcmd_lem collect call 40 strings commands (codes "help" ∷ []) (memory_of line) 100 line []
      (codes "help") (codes "me" ∷ []) line-IsStr line-AreStrings (omega arith) (omega arith)
      (omega arith) two_words (omega arith)

abbrev long_line : List ℕ
long_line = codes "a b c d e f g h i j k l m n o p"

long_line-IsStr : IsStr (memory_of long_line) 100 long_line
long_line-IsStr = ground arith

long_line-AreStrings : AreStrings (memory_of long_line) strings commands (codes "help" ∷ []) 100 31
long_line-AreStrings = record {
  white = ground arith;
  unknown = ground arith;
  many = ground arith;
  named = ground arith;
  white_apart = ground arith;
  unknown_apart = ground arith;
  many_apart = ground arith;
  named_apart = ground arith;
}

runcmd-too_many_example :
    (m' : Memory) × ((x : ℕ) → Outside 100 (length long_line) x → m' x ≡ memory_of long_line x)
    × (runcmd collect call 40 strings commands (memory_of long_line) 100 []
        ≡ some (pos 0, m', emit collect (Meaning.printed too_many_items) []))
runcmd-too_many_example =
    runcmd-too_many collect call 40 strings commands (codes "help" ∷ []) (memory_of long_line) 100
      long_line [] long_line-IsStr long_line-AreStrings (omega arith) (omega arith) (omega arith)
