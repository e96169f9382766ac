-- ===== src/Init.antt =====
-- kern/init.c: the start of the kernel, `_panic` and `_warn`; the loop of `monitor` of
-- kern/monitor.c. The formats stand in the memory, at the addresses of a record. The state `S` is
-- what `cputchar` acts on.
pub mod Panic
pub mod Trace
pub mod Lines
pub mod Session
pub mod Start
pub mod Booted
mod Tests
use mit_jos_cse.Prelude.{
  ℕ, zero, suc, ◌-◌, ◌^◌, List, [], ◌∷◌, Option, none, some, ◌==◌, if◌then◌else◌, codes, Memory, ℤ,
  pos, negsuc, Run, ok, stopped, unfinished, ◌>>=◌, finished,
}
use mit_jos_cse.Printf.Cprintf.{vcprintf}
use mit_jos_cse.Readline.{readline}
use mit_jos_cse.Monitor.{Strings, Command, runcmd}
use mit_jos_cse.Monitor.Commands.{print}

-- The literals of the functions here, in the order of the source.
pub record Texts : Type 0 where
  pub entering : ℕ
  pub leaving : ℕ
  pub octal : ℕ
  pub kernel_panic : ℕ
  pub kernel_warning : ℕ
  pub newline : ℕ
  pub welcome : ℕ
  pub type_help : ℕ

-- An `int` in an argument's slot.
abbrev pub slot_of : ℤ → ℕ
slot_of (pos n) = n
slot_of (negsuc n) = 2 ^ 32 - 1 - n

module _ {ℓ} {S : Type ℓ} (cputchar : ℕ → S → S) (fuel : ℕ) (texts : Texts) where
  abbrev pub say : Memory → ℕ → List ℕ → S → Run S
  say m fmt args s = finished (print cputchar fuel m fmt args s)

  -- `test_backtrace(n)` for an `n` that is not negative
  unfoldable pub test_backtrace_down : (S → Run S) → Memory → ℕ → S → Run S
  test_backtrace_down mon_backtrace m zero s = do
    s1 ← say m texts.entering (0 ∷ []) s
    s2 ← mon_backtrace s1
    say m texts.leaving (0 ∷ []) s2
  test_backtrace_down mon_backtrace m (suc n) s = do
    s1 ← say m texts.entering (suc n ∷ []) s
    s2 ← test_backtrace_down mon_backtrace m n s1
    say m texts.leaving (suc n ∷ []) s2

  unfoldable pub test_backtrace : (S → Run S) → Memory → ℤ → S → Run S
  unfolding test_backtrace_down
  test_backtrace mon_backtrace m (pos n) s = test_backtrace_down mon_backtrace m n s
  test_backtrace mon_backtrace m (negsuc n) s = do
    s1 ← say m texts.entering (slot_of (negsuc n) ∷ []) s
    s2 ← mon_backtrace s1
    say m texts.leaving (slot_of (negsuc n) ∷ []) s2

  -- `panicstr` and the console, when the endless loop of `monitor` is entered; `cli` is the effect of
  -- the two instructions.
  unfoldable pub panic : (S → S) → Memory → ℕ → ℕ → ℕ → List ℕ → ℕ × S → Run (ℕ × S)
  panic cli m file line fmt args (panicstr, s) =
      let first = (do
        s1 ← say m texts.kernel_panic (file ∷ line ∷ []) (cli s)
        (count, s2) ← finished (vcprintf cputchar fuel m fmt args s1)
        s3 ← say m texts.newline [] s2
        ok (fmt, s3)) in
      if panicstr == 0 then first else ok (panicstr, s)

  unfoldable pub warn : Memory → ℕ → ℕ → ℕ → List ℕ → S → Run S
  warn m file line fmt args s = do
    s1 ← say m texts.kernel_warning (file ∷ line ∷ []) s
    (count, s2) ← finished (vcprintf cputchar fuel m fmt args s1)
    say m texts.newline [] s2

  -- `while (1)` of `monitor`, which ends with a command that returns a negative number. The line is
  -- read to the address `buf`.
  unfoldable pub monitor_loop :
      (ℕ → ℕ → List ℕ → Memory → S → Option (ℤ × Memory × S))
      → ℕ
      → ℕ
      → Strings
      → List Command
      → Memory
      → List ℤ
      → S
      → Run (Memory × List ℤ × S)
  monitor_loop call zero buf strings commands m input s = stopped unfinished
  monitor_loop call (suc rounds) buf strings commands m input s = do
    (line, m1, input', s1) ← finished (readline cputchar fuel buf (some (codes "K> ")) input m s)
    elim line [
      | none ↦ monitor_loop call rounds buf strings commands m1 input' s1
      | some at ↦ do
        (status, m2, s2) ← finished (runcmd cputchar call fuel strings commands m1 at s1)
        elim status [
          | negsuc n ↦ ok (m2, input', s2)
          | pos n ↦ monitor_loop call rounds buf strings commands m2 input' s2
        ]
    ]

  unfoldable pub monitor :
      (ℕ → ℕ → List ℕ → Memory → S → Option (ℤ × Memory × S))
      → ℕ
      → ℕ
      → Strings
      → List Command
      → Memory
      → List ℤ
      → S
      → Run (Memory × List ℤ × S)
  unfolding monitor_loop
  monitor call rounds buf strings commands m input s = do
    s1 ← say m texts.welcome [] s
    s2 ← say m texts.type_help [] s1
    monitor_loop call rounds buf strings commands m input s2
