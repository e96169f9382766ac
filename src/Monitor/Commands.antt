-- ===== src/Monitor/Commands.antt =====
-- kern/monitor.c: the commands `help`, `kerninfo` and `backtrace`. The formats and the texts stand
-- in the memory, at the addresses of a record. The linker's symbols, `rbp` and `rip` are parameters.
pub mod Help
pub mod Kerninfo
pub mod Backtrace
pub mod Walk
mod Tests
use mit_jos_cse.Prelude.{
  ℕ, zero, suc, ◌+◌, ◌-◌, ◌*◌, ◌/◌, ◌%◌, ◌^◌, List, [], ◌∷◌, Option, none, some, ◌==◌,
  if◌then◌else◌, Memory, ℤ, pos, Run, ok, stopped, unfinished, fault, ◌>>=◌, finished,
}
use mit_jos_cse.Printf.Cprintf.{cprintf}
use mit_jos_cse.Mmu.Layout.{kernbase}
use mit_jos_cse.Mmu.Round.{round_up}
use mit_jos_cse.Elf.{read_le}
use mit_jos_cse.Kdebug.{Ripdebuginfo}
use mit_jos_cse.Monitor.{Command}

abbrev pub cmdbuf_size : ℕ
cmdbuf_size = 80

-- The literals of the three functions, in the order of the source.
pub record Formats : Type 0 where
  pub help : ℕ
  pub special : ℕ
  pub start : ℕ
  pub entry : ℕ
  pub etext : ℕ
  pub edata : ℕ
  pub end : ℕ
  pub footprint : ℕ
  pub frame : ℕ
  pub location : ℕ
  pub argument : ℕ
  pub newline : ℕ

pub record Symbols : Type 0 where
  pub start : ℕ
  pub entry : ℕ
  pub etext : ℕ
  pub edata : ℕ
  pub end : ℕ

-- The table `commands`: the addresses of its names and descriptions, and `func` 0, 1 and 2.
abbrev pub commands : ℕ → ℕ → ℕ → ℕ → ℕ → ℕ → List Command
commands help help_desc kerninfo kerninfo_desc backtrace backtrace_desc =
    record { name = help; desc = help_desc; func = 0 }
    ∷ record { name = kerninfo; desc = kerninfo_desc; func = 1 }
    ∷ record { name = backtrace; desc = backtrace_desc; func = 2 }
    ∷ []

-- `cprintf`, without its result
abbrev pub print {ℓ} :
    {S : Type ℓ} (cputchar : ℕ → S → S) (fuel : ℕ) → Memory → ℕ → List ℕ → S → Option S
print cputchar fuel m fmt args s = elim (cprintf cputchar fuel m fmt args s) [
  | none ↦ none
  | some (count, s') ↦ some s'
]

module _ {ℓ} {S : Type ℓ} (cputchar : ℕ → S → S) (fuel : ℕ) (formats : Formats) (m : Memory) where
  unfoldable pub mon_help : List Command → S → Option (ℤ × S)
  mon_help [] s = some (pos 0, s)
  mon_help (c ∷ cs) s = elim (print cputchar fuel m formats.help (c.name ∷ c.desc ∷ []) s) [
    | none ↦ none
    | some s' ↦ mon_help cs s'
  ]

  -- A symbol's address, and the physical one.
  abbrev pub both : ℕ → List ℕ
  both a = a ∷ (a + 2 ^ 64 - kernbase) % 2 ^ 64 ∷ []

  abbrev pub print_all : List (ℕ × List ℕ) → S → Option S
  print_all [] s = some s
  print_all ((fmt, args) ∷ rest) s = elim (print cputchar fuel m fmt args s) [
    | none ↦ none
    | some s' ↦ print_all rest s'
  ]

  unfoldable pub mon_kerninfo : Symbols → S → Option (ℤ × S)
  unfolding round_up
  mon_kerninfo symbols s =
      elim (print_all
        ((formats.special, [])
          ∷ (formats.start, symbols.start ∷ [])
          ∷ (formats.entry, both symbols.entry)
          ∷ (formats.etext, both symbols.etext)
          ∷ (formats.edata, both symbols.edata)
          ∷ (formats.end, both symbols.end)
          ∷ (
            formats.footprint,
            round_up ((symbols.end + 2 ^ 64 - symbols.entry) % 2 ^ 64) 1024 / 1024 ∷ [],
          )
          ∷ [])
        s) [ none ↦ none | some s' ↦ some (pos 0, s') ]

  -- `while (count--)`, with the argument slots from `i` on
  unfoldable pub print_args : (ℕ → ℕ) → ℕ → ℕ → S → Option S
  print_args slot i zero s = some s
  print_args slot i (suc count) s = elim (print cputchar fuel m formats.argument (slot i ∷ []) s) [
    | none ↦ none
    | some s' ↦ print_args slot (i + 1) count s'
  ]

  -- The lines of one frame: two numbers, the place, and the arguments' slots.
  unfoldable pub print_frame : ℕ → ℕ → ℕ → (ℕ → ℕ) → Ripdebuginfo → S → Option S
  unfolding print_args
  print_frame rbp rip y slot info s =
      elim (print cputchar fuel m formats.frame (rbp ∷ rip ∷ []) s) [
        | none ↦ none
        | some s1 ↦
            elim (print cputchar fuel m formats.location
              (info.rip_file
                ∷ info.rip_line
                ∷ info.rip_fn_name
                ∷ (y + 2 ^ 64 - info.rip_fn_addr) % 2 ^ 64
                ∷ info.rip_fn_narg
                ∷ [])
              s1) [
                | none ↦ none
                | some s2 ↦ elim (print_args slot 0 info.rip_fn_narg s2) [
                  | none ↦ none
                  | some s3 ↦ print cputchar fuel m formats.newline [] s3
                ]
              ]
      ]

  -- `debuginfo_rip` with the structure that `info` points to
  module _ (debuginfo : ℕ → Ripdebuginfo → Run Ripdebuginfo) where
    -- `while (x)`
    unfoldable pub walk : ℕ → ℕ → Ripdebuginfo → S → Run (Ripdebuginfo × S)
    unfolding print_frame read_le
    walk zero x info s = stopped unfinished
    walk (suc rounds) x info s =
        let caller = read_le 8 m (x + 8) in
        let frame = (do
          info' ← debuginfo caller info
          s' ← finished (
              print_frame (read_le 8 m x) caller caller
                (λ i. read_le 8 m (x + 8 * (3 + i)) / 2 ^ 32) info' s)
          walk rounds (read_le 8 m x) info' s') in
        if x == 0 then ok (info, s) else frame

    -- `info` is the null pointer: `null` is the structure that stands at address 0, if memory is
    -- mapped there, and apart from all that is read through other pointers.
    unfoldable pub mon_backtrace : ℕ → ℕ → ℕ → Option Ripdebuginfo → S → Run (ℤ × Ripdebuginfo × S)
    unfolding walk print_frame
    mon_backtrace rounds rbp rip none s = stopped fault
    mon_backtrace rounds rbp rip (some info) s = do
      info1 ← debuginfo rip info
      s1 ← finished (
          print_frame ((rip + 2 ^ 64 - 1) % 2 ^ 64) rip rip (λ i. (rip + 3 + i) % 2 ^ 64 / 2 ^ 32)
            info1 s)
      (info2, s2) ← walk rounds rbp info1 s1
      ok (pos 0, info2, s2)
