-- ===== src/Readline.antt =====
-- lib/readline.c: `readline`, and `iscons` of kern/console.c. What `getchar` returns, call by call,
-- is a list; at its end `getchar` waits, and the result is `none`. The state `S` is what `cputchar`
-- acts on.
pub mod Line
pub mod Prompt
pub mod Live
pub mod Typing
pub mod Seen
mod Tests
use mit_jos_cse.Prelude.{
  ℕ, zero, suc, ◌+◌, ◌-◌, ◌%◌, ◌^◌, List, [], ◌∷◌, ◌++◌, Option, none, some, Bool, true, false,
  ◌&&◌, ◌||◌, leb, ltb, ◌==◌, if◌then◌else◌, codes, Memory, store, ℤ, pos, negsuc,
}
use mit_jos_cse.Printf.Format.{literal}
use mit_jos_cse.Printf.Cprintf.{cprintf}

abbrev pub buflen : ℕ
buflen = 1024

abbrev pub iscons : ℕ → Bool
iscons fdnum = true

-- The line, or null after a read error; the memory, what is still to be read, and the console.
abbrev pub Line {ℓ} : Type ℓ → Type ℓ
Line S = Option (Option ℕ × Memory × List ℤ × S)

module _ {ℓ} {S : Type ℓ} (cputchar : ℕ → S → S) where
  abbrev pub echo : Bool → ℕ → S → S
  echo echoing c s = if echoing then cputchar c s else s

  -- `cprintf("read error: %e\n", c)` for the number -(n + 1)
  unfoldable pub read_error : ℕ → ℕ → Memory → List ℤ → S → Line S
  read_error fuel n m input s =
      elim (cprintf cputchar fuel (literal (codes "read error: %e\n")) 0 ((2 ^ 64 - 1 - n) ∷ [])
        s) [ none ↦ none | some (printed, s') ↦ some (none, m, input, s') ]

  -- `while (1)`, with the buffer at the address `buf`
  unfoldable pub read_keys : ℕ → Bool → ℕ → List ℤ → Memory → ℕ → S → Line S
  unfolding read_error
  read_keys fuel echoing buf [] m i s = none
  read_keys fuel echoing buf (negsuc n ∷ input) m i s = read_error fuel n m input s
  read_keys fuel echoing buf (pos c ∷ input) m i s =
      let erased = read_keys fuel echoing buf input m (i - 1) (echo echoing 8 s) in
      let stored = store m (buf + i) (c % 2 ^ 8) in
      let inserted = read_keys fuel echoing buf input stored (i + 1) (echo echoing c s) in
      let ignored = read_keys fuel echoing buf input m i s in
      if (c == 8 || c == 127) && ltb 0 i
      then erased
      else if leb b' ' c && ltb i (buflen - 1)
      then inserted
      else if c == 10 || c == 13
      then some (some buf, store m (buf + i) 0, input, echo echoing 10 s)
      else ignored

  -- `readline`, with the text of the prompt, or null
  unfoldable pub readline : ℕ → ℕ → Option (List ℕ) → List ℤ → Memory → S → Line S
  unfolding read_keys
  readline fuel buf none input m s = read_keys fuel (iscons 0) buf input m 0 s
  readline fuel buf (some prompt) input m s =
      elim (cprintf cputchar fuel (literal (codes "%s" ++ 0 ∷ prompt)) 0 (3 ∷ []) s) [
        | none ↦ none
        | some (printed, s') ↦ read_keys fuel (iscons 0) buf input m 0 s'
      ]
