-- ===== src/Init/Tests.antt =====
-- kern/init.c at a concrete memory.
use mit_jos_cse.Prelude.{
  ℕ, ◌≡◌, refl, sym, ap, Option, none, some, some_inj, some_ne_none, zero, suc, ℤ, List, [], ◌∷◌,
  ◌++◌, arith, codes, pos, Memory, blit, ok,
}
use mit_jos_cse.Printf.Number.{emit}
use mit_jos_cse.Printf.Output.{collect}
use mit_jos_cse.Printf.Meaning.{plain, format_text, slots}
use mit_jos_cse.Printf.Meaning
use mit_jos_cse.Readline.{buflen}
use mit_jos_cse.Monitor.{Strings, Command}
use mit_jos_cse.Monitor.Args.{white_text}
use mit_jos_cse.Monitor.Run.{unknown_items, too_many_items}
use mit_jos_cse.Monitor.Apart.{AreStrings}
use mit_jos_cse.Monitor.Answer.{CallKeeps}
use mit_jos_cse.Init.{Texts, panic, test_backtrace, monitor}
use mit_jos_cse.Init.Session.{session, reached, monitor_lem}
use mit_jos_cse.Init.Lines.{Typed, inputs, welcome_items, help_items}
use mit_jos_cse.Monitor.Commands.{Formats, commands, mon_help}
use mit_jos_cse.Init.Trace.{entering_items, leaving_items, entered, left, test_backtrace_lem}
use mit_jos_cse.Init.Panic.{panic_items, panic_lem}

abbrev texts : Texts
texts = record {
  entering = 1;
  leaving = 1;
  octal = 1;
  kernel_panic = 10;
  kernel_warning = 1;
  newline = 40;
  welcome = 1;
  type_help = 1;
}

abbrev put : ℕ → List ℕ → Memory → Memory
put a t m = blit m a (t ++ 0 ∷ [])

abbrev memory : Memory
memory =
    put 10 (format_text (panic_items 0 [] 0))
      (put 40 (10 ∷ []) (put 50 (codes "a.c") (put 60 (codes "oh") (λ a. 1))))

panic_lem_example :
    (panic collect 40 texts (λ s. s) memory 50 7 60 [] (0, [])
      ≡ ok (
        60,
        emit collect (10 ∷ []) (
            emit collect
              (codes "oh")
              (emit collect (Meaning.printed (panic_items 50 (codes "a.c") 7)) [])),
      ))
    × (panic collect 40 texts (λ s. s) memory 50 8 60 [] (60, codes "!") ≡ ok (60, codes "!"))
panic_lem_example =
    panic_lem collect 40 texts (λ s. s) memory 50 7 60 50 8 60 (codes "a.c") []
      (plain b'o' ∷ plain b'h' ∷ []) [] (codes "!") (ground arith) (ground arith) (ground arith)
      (ground arith) (omega arith) (omega arith) (omega arith) (omega arith) (omega arith)
      (omega arith) (omega arith)

abbrev traced_texts : Texts
traced_texts = record texts { entering = 100; leaving = 200 }

abbrev traced_memory : Memory
traced_memory =
    put 100 (format_text (entering_items 0)) (put 200 (format_text (leaving_items 0)) (λ a. 1))

test_backtrace_lem_example :
    test_backtrace collect 40 traced_texts (λ s. ok (collect b'!' s)) traced_memory (pos 1) []
    ≡ ok (emit collect (left 1) (collect b'!' (emit collect (entered 1) [])))
test_backtrace_lem_example =
    test_backtrace_lem collect 40 traced_texts (λ s. ok (collect b'!' s)) (collect b'!')
      traced_memory 1 [] (λ s. refl) (ground arith) (ground arith) (omega arith) (omega arith)

-- The kernel's commands, of which `help` prints what it does.
abbrev monitor_texts : Texts
monitor_texts = record texts { welcome = 100; type_help = 200 }

abbrev strings : Strings
strings = record { whitespace = 20; too_many_fmt = 60; unknown_fmt = 30 }

abbrev help_name : List ℕ
help_name = codes "help"

abbrev kerninfo_name : List ℕ
kerninfo_name = codes "kerninfo"

abbrev backtrace_name : List ℕ
backtrace_name = codes "backtrace"

abbrev kernel_names : List (List ℕ)
kernel_names = help_name ∷ kerninfo_name ∷ backtrace_name ∷ []

abbrev table : List Command
table = commands 300 320 340 360 380 400

abbrev formats : Formats
formats = record {
  help = 420;
  special = 1;
  start = 1;
  entry = 1;
  etext = 1;
  edata = 1;
  end = 1;
  footprint = 1;
  frame = 1;
  location = 1;
  argument = 1;
  newline = 1;
}

abbrev monitor_memory : Memory
monitor_memory = put 20 white_text (
    put 30 (format_text (unknown_items 0 [])) (
      put 60 (format_text too_many_items) (
        put 100 (format_text welcome_items) (
          put 200 (format_text help_items) (
            put 300 help_name (
              put 320 (codes "commands") (
                put 340 kerninfo_name (
                  put 360 (codes "kernel") (
                    put 380 backtrace_name
                      (put 400 (codes "stack") (put 420 (codes "%s - %s\n") (λ a. 1))))))))))))

-- The other two commands print nothing here.
abbrev after_help : Memory → Option (ℤ × List ℕ) → Option (ℤ × Memory × List ℕ)
after_help m none = none
after_help m (some (r, s)) = some (r, m, s)

abbrev kernel_call : ℕ → ℕ → List ℕ → Memory → List ℕ → Option (ℤ × Memory × List ℕ)
kernel_call zero argc argv m s = after_help m (mon_help collect 100 formats m table s)
kernel_call (suc func) argc argv m s = some (pos 0, m, s)

after_help-kept :
    (m m' : Memory) (o : Option (ℤ × List ℕ)) (r : ℤ) (s' : List ℕ)
    → after_help m o ≡ some (r, m', s')
    → (x : ℕ) → m' x ≡ m x
after_help-kept m m' none r s' e x = absurd (some_ne_none (sym e))
after_help-kept m m' (some (k, s)) r s' e x = ap (λ t. t.1 x) (some_inj (sym e))

kernel_call-CallKeeps : CallKeeps collect kernel_call table kernel_names 2000 buflen
kernel_call-CallKeeps zero argc argv m s r m' s' e x o =
    after_help-kept m m' (mon_help collect 100 formats m table s) r s' e x
kernel_call-CallKeeps (suc func) argc argv m s r m' s' e x o = ap (λ t. t.1 x) (some_inj (sym e))

monitor_memory-AreStrings : AreStrings monitor_memory strings table kernel_names 2000 buflen
monitor_memory-AreStrings = record {
  white = ground arith;
  unknown = ground arith;
  many = ground arith;
  named = ground arith;
  white_apart = ground arith;
  unknown_apart = ground arith;
  many_apart = ground arith;
  named_apart = ground arith;
}

-- "x" is not known, and "help" prints the table.
abbrev typed_lines : List Typed
typed_lines = (codes "x", 10) ∷ (codes "help", 13) ∷ []

abbrev greeted : List ℕ
greeted =
    emit collect (Meaning.printed help_items) (emit collect (Meaning.printed welcome_items) [])

monitor_lem_example :
    monitor collect 1050 monitor_texts kernel_call 5 2000 strings table monitor_memory
      (inputs typed_lines (pos b'y' ∷ []))
      []
    ≡ reached collect 1050 monitor_texts kernel_call 2000 strings table kernel_names 3
        (pos b'y' ∷ [])
        (session collect 1050 monitor_texts kernel_call 2000 strings table kernel_names
          monitor_memory greeted typed_lines)
monitor_lem_example =
    monitor_lem collect 1050 monitor_texts kernel_call 2000 strings table kernel_names 3 typed_lines
      (pos b'y' ∷ []) monitor_memory [] (ground arith) (ground arith) monitor_memory-AreStrings
      kernel_call-CallKeeps (omega arith) (omega arith) (omega arith)
