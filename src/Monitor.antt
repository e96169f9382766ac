-- ===== src/Monitor.antt =====
-- kern/monitor.c: the kernel monitor's command interpreter. The strings of the program stand in
-- the memory, at the addresses of a record; what a command does is a parameter.
pub mod Words
pub mod Args
pub mod Split
pub mod Parse
pub mod Held
pub mod Run
pub mod Apart
pub mod Line
pub mod Answer
pub mod Commands
mod Tests
use mit_jos_cse.Prelude.{
  ℕ, zero, suc, ◌+◌, ◌-◌, List, [], ◌∷◌, ◌++◌, Option, none, some, Bool, true, false, not, ◌==◌,
  if◌then◌else◌, length, Memory, store, ℤ, pos, negsuc,
}
use mit_jos_cse.CString.Scan.{strchr}
use mit_jos_cse.CString.Compare.{strcmp}
use mit_jos_cse.Printf.Cprintf.{cprintf}

abbrev pub maxargs : ℕ
maxargs = 16

-- Where the literals stand: `WHITESPACE`, and the formats of the two messages.
pub record Strings : Type 0 where
  pub whitespace : ℕ
  pub too_many_fmt : ℕ
  pub unknown_fmt : ℕ

-- `struct Command`; `func` is an index for what the command does.
pub record Command : Type 0 where
  pub name : ℕ
  pub desc : ℕ
  pub func : ℕ

-- The line with its arguments, or one with too many of them.
pub data Parsed : Type 0 where
  parsed : Memory → List ℕ → Parsed
  too_many : Memory → Parsed

-- `strchr(WHITESPACE, c)` as a truth value, with fuel for the four characters and the terminator
unfoldable pub is_white : Strings → Memory → ℕ → Option Bool
is_white strings m c = elim (strchr 5 m strings.whitespace c) [
  | none ↦ none
  | some none ↦ some false
  | some (some at) ↦ some true
]

-- `while (*buf && strchr(WHITESPACE, *buf)) *buf++ = 0;`
unfoldable pub gobble : ℕ → Strings → Memory → ℕ → Option (Memory × ℕ)
unfolding is_white
gobble zero strings m buf = none
gobble (suc fuel) strings m buf =
    let rest = gobble fuel strings (store m buf 0) (buf + 1) in
    if m buf == 0 then some (m, buf) else elim (is_white strings m (m buf)) [
      | none ↦ none
      | some white ↦ if white then rest else some (m, buf)
    ]

-- `while (*buf && !strchr(WHITESPACE, *buf)) buf++;`
unfoldable pub scan_word : ℕ → Strings → Memory → ℕ → Option ℕ
unfolding is_white
scan_word zero strings m buf = none
scan_word (suc fuel) strings m buf =
    let rest = scan_word fuel strings m (buf + 1) in
    if m buf == 0 then some buf else elim (is_white strings m (m buf)) [
      | none ↦ none
      | some white ↦ if white then some buf else rest
    ]

-- `while (1)`, where `args` are the entries of `argv` so far; the null pointer behind them is the
-- end of the list.
unfoldable pub parse_args : ℕ → ℕ → Strings → Memory → ℕ → List ℕ → Option Parsed
unfolding gobble scan_word
parse_args fuel zero strings m buf args = none
parse_args fuel (suc rounds) strings m buf args = elim (gobble fuel strings m buf) [
  | none ↦ none
  | some (m', word) ↦
      let next = elim (scan_word fuel strings m' word) as (λ _. Option Parsed) [
        | none ↦ none
        | some behind ↦ parse_args fuel rounds strings m' behind (args ++ (word ∷ []))
      ] in
      if m' word == 0
      then some (parsed m' args)
      else if length args == maxargs - 1
      then some (too_many m')
      else next
]

-- The first command of that name.
unfoldable pub find_command : ℕ → Memory → ℕ → List Command → Option (Option Command)
find_command fuel m arg [] = some none
find_command fuel m arg (c ∷ cs) = elim (strcmp fuel m arg c.name) [
  | none ↦ none
  | some (pos zero) ↦ some (some c)
  | some _ ↦ find_command fuel m arg cs
]

module _ {ℓ} {S : Type ℓ} (cputchar : ℕ → S → S)
    (call : ℕ → ℕ → List ℕ → Memory → S → Option (ℤ × Memory × S)) where
  unfoldable pub run_args :
      ℕ → Strings → List Command → Memory → List ℕ → S → Option (ℤ × Memory × S)
  unfolding find_command
  run_args fuel strings commands m [] s = some (pos 0, m, s)
  run_args fuel strings commands m (arg ∷ args) s = elim (find_command fuel m arg commands) [
    | none ↦ none
    | some (some c) ↦ call c.func (length (arg ∷ args)) (arg ∷ args) m s
    | some none ↦ elim (cprintf cputchar fuel m strings.unknown_fmt (arg ∷ []) s) [
      | none ↦ none
      | some (printed, s') ↦ some (pos 0, m, s')
    ]
  ]

  unfoldable pub runcmd : ℕ → Strings → List Command → Memory → ℕ → S → Option (ℤ × Memory × S)
  unfolding parse_args run_args
  runcmd fuel strings commands m buf s = elim (parse_args fuel fuel strings m buf []) [
    | none ↦ none
    | some (too_many m') ↦ elim (cprintf cputchar fuel m' strings.too_many_fmt (maxargs ∷ []) s) [
      | none ↦ none
      | some (printed, s') ↦ some (pos 0, m', s')
    ]
    | some (parsed m' args) ↦ run_args fuel strings commands m' args s
  ]
