-- ===== src/Init/Trace.antt =====
-- kern/init.c: what `test_backtrace` prints.
use mit_jos_cse.Prelude.{
  ℕ, zero, suc, ◌^◌, ◌≤◌, ◌<◌, ◌≡◌, ◌≢◌, refl, sym, ap, ◌∙◌, List, [], ◌∷◌, ◌++◌, false, codes, All,
  Memory, IsStr, arith, pos, Run, ok,
}
use mit_jos_cse.Printf.Number.{emit, emit-append}
use mit_jos_cse.Printf.Format.Parse.{no_width, decimal}
use mit_jos_cse.Printf.Meaning.{Item, plain, escape, format_text, slots, fuel_for, IsItem}
use mit_jos_cse.Printf.Meaning
use mit_jos_cse.Monitor.Run.{plains, plains-IsItem}
use mit_jos_cse.Init.{Texts, test_backtrace_down, test_backtrace}
use mit_jos_cse.Init.Panic.{say-printed}

-- "entering test_backtrace %d\n" and "leaving test_backtrace %d\n"
abbrev pub numbered : List ℕ → ℕ → List Item
numbered word n = plains word (escape false no_width decimal n [] ∷ plain 10 ∷ [])

abbrev pub entering_items : ℕ → List Item
entering_items = numbered (codes "entering test_backtrace ")

abbrev pub leaving_items : ℕ → List Item
leaving_items = numbered (codes "leaving test_backtrace ")

-- The lines of the calls, from the outermost in, and from the innermost out.
abbrev pub entered : ℕ → List ℕ
entered zero = Meaning.printed (entering_items 0)
entered (suc n) = Meaning.printed (entering_items (suc n)) ++ entered n

abbrev pub left : ℕ → List ℕ
left zero = Meaning.printed (leaving_items 0)
left (suc n) = left n ++ Meaning.printed (leaving_items (suc n))

numbered-IsItem :
    (m : Memory) (word : List ℕ) (n : ℕ)
    → All (λ c. c ≢ b'%') word
    → n < 2 ^ 31
    → All (IsItem m) (numbered word n)
numbered-IsItem m word n h b =
    plains-IsItem m word (escape false no_width decimal n [] ∷ plain 10 ∷ []) h
      ((tt, omega arith), omega arith)

module _ {ℓ} {S : Type ℓ} (cputchar : ℕ → S → S) (fuel : ℕ) (texts : Texts) where
  test_backtrace_down_lem :
      (mon_backtrace : S → Run S) (trace : S → S) (m : Memory) (n : ℕ) (s : S)
      → ((x : S) → mon_backtrace x ≡ ok (trace x))
      → IsStr m texts.entering (format_text (entering_items 0))
      → IsStr m texts.leaving (format_text (leaving_items 0))
      → n < 2 ^ 31
      → 40 ≤ fuel
      → test_backtrace_down cputchar fuel texts mon_backtrace m n s
        ≡ ok (emit cputchar (left n) (trace (emit cputchar (entered n) s)))
  unfolding test_backtrace_down
  test_backtrace_down_lem mon_backtrace trace m zero s bt he hl b f =
      let into =
        say-printed cputchar fuel texts m texts.entering (entering_items 0) s he
          (numbered-IsItem m (codes "entering test_backtrace ") 0 (omega arith) b) (omega arith) in
      let out =
        say-printed cputchar fuel texts m texts.leaving (leaving_items 0)
          (trace (emit cputchar (entered 0) s)) hl
          (numbered-IsItem m (codes "leaving test_backtrace ") 0 (omega arith) b) (omega arith) in
      rw (into, bt (emit cputchar (entered 0) s), out, test_backtrace_down) refl
  test_backtrace_down_lem mon_backtrace trace m (suc n) s bt he hl b f =
      let s1 = emit cputchar (Meaning.printed (entering_items (suc n))) s in
      let into =
        say-printed cputchar fuel texts m texts.entering (entering_items (suc n)) s he
          (numbered-IsItem m (codes "entering test_backtrace ") (suc n) (omega arith) b)
          (omega arith) in
      let inner = test_backtrace_down_lem mon_backtrace trace m n s1 bt he hl (omega arith) f in
      let s2 = emit cputchar (left n) (trace (emit cputchar (entered n) s1)) in
      let out =
        say-printed cputchar fuel texts m texts.leaving (leaving_items (suc n)) s2 hl
          (numbered-IsItem m (codes "leaving test_backtrace ") (suc n) (omega arith) b)
          (omega arith) in
      let e = Meaning.printed (entering_items (suc n)) in
      let o = Meaning.printed (leaving_items (suc n)) in
      rw (into, inner, out, test_backtrace_down)
        (ap ok (
          sym (emit-append cputchar (left n) o (trace (emit cputchar (entered n) s1)))
          ∙ ap (λ y. emit cputchar (left n ++ o) (trace y))
              (sym (emit-append cputchar e (entered n) s))))

  -- For a number that is not negative and a `mon_backtrace` that ends, `test_backtrace` ends. It
  -- prints the line "entering test_backtrace i" for each i from the number down to 0, calls
  -- `mon_backtrace` once, and prints "leaving test_backtrace i" for each i from 0 up to the number.
  pub test_backtrace_lem :
      (mon_backtrace : S → Run S) (trace : S → S) (m : Memory) (n : ℕ) (s : S)
      → ((x : S) → mon_backtrace x ≡ ok (trace x))
      → IsStr m texts.entering (format_text (entering_items 0))
      → IsStr m texts.leaving (format_text (leaving_items 0))
      → n < 2 ^ 31
      → 40 ≤ fuel
      → test_backtrace cputchar fuel texts mon_backtrace m (pos n) s
        ≡ ok (emit cputchar (left n) (trace (emit cputchar (entered n) s)))
  unfolding test_backtrace
  test_backtrace_lem mon_backtrace trace m n s bt he hl b f =
      test_backtrace_down_lem mon_backtrace trace m n s bt he hl b f
