-- ===== src/Init/Panic.antt =====
-- kern/init.c: what `_panic` prints.
use mit_jos_cse.Prelude.{
  ℕ, ◌+◌, ◌^◌, ◌≤◌, ◌<◌, ◌≡◌, ◌≢◌, refl, ap, List, [], ◌∷◌, some, false, ◌==◌, codes, All, Memory,
  IsStr, Option, none, arith, length, ok, finished,
}
use mit_jos_cse.Printf.Number.{emit}
use mit_jos_cse.Printf.Format.Parse.{no_width, text, decimal}
use mit_jos_cse.Printf.Cprintf.{cprintf, vcprintf}
use mit_jos_cse.Printf.Meaning.{Item, plain, escape, format_text, slots, fuel_for, IsItem}
use mit_jos_cse.Printf.Meaning
use mit_jos_cse.Monitor.Run.{plains, plains-IsItem, cprintf-printed}
use mit_jos_cse.Init.{Texts, say, panic}

-- "kernel panic at %s:%d: " and "\n"
abbrev pub panic_items : ℕ → List ℕ → ℕ → List Item
panic_items at file line = plains (codes "kernel panic at ") (
    escape false no_width text at file
    ∷ plain b':'
    ∷ escape false no_width decimal line []
    ∷ plain b':'
    ∷ plain b' '
    ∷ [])

abbrev pub newline_items : List Item
newline_items = plain 10 ∷ []

panic_items-IsItem :
    (m : Memory) (at : ℕ) (file : List ℕ) (line : ℕ)
    → at ≢ 0
    → IsStr m at file
    → length file < 2 ^ 31
    → line < 2 ^ 31
    → All (IsItem m) (panic_items at file line)
panic_items-IsItem m at file line n h b l =
    plains-IsItem m (codes "kernel panic at ")
      (escape false no_width text at file
        ∷ plain b':'
        ∷ escape false no_width decimal line []
        ∷ plain b':'
        ∷ plain b' '
        ∷ [])
      (omega arith) ((tt, (n, h, b)), (omega arith, ((tt, omega arith), omega arith)))

module _ {ℓ} {S : Type ℓ} (cputchar : ℕ → S → S) (fuel : ℕ) (texts : Texts) where
  pub say-printed :
      (m : Memory) (fmt : ℕ) (is : List Item) (s : S)
      → IsStr m fmt (format_text is)
      → All (IsItem m) is
      → fuel_for is ≤ fuel
      → say cputchar fuel texts m fmt (slots is) s ≡ ok (emit cputchar (Meaning.printed is) s)
  say-printed m fmt is s h i f =
      ap (λ o. finished (elim o as (λ _. Option S) [ none ↦ none | some (count, s') ↦ some s' ]))
        (cprintf-printed cputchar fuel m fmt is s h i f)

  -- The first panic prints "kernel panic at FILE:LINE: ", the message that its format and arguments
  -- stand for, and a newline, and remembers the format; each later one prints nothing. Here the
  -- format is a text of the items that vprintfmt's theorem covers, and fuel is given for the texts.
  pub panic_lem :
      (cli : S → S) (m : Memory) (at line fmt at2 line2 fmt2 : ℕ) (file args2 : List ℕ)
      (is : List Item) (s s2 : S)
      → IsStr m texts.kernel_panic (format_text (panic_items at file line))
      → IsStr m texts.newline (10 ∷ [])
      → IsStr m fmt (format_text is)
      → IsStr m at file
      → at ≢ 0
      → fmt ≢ 0
      → length file < 2 ^ 31
      → line < 2 ^ 31
      → All (IsItem m) is
      → fuel_for is ≤ fuel
      → length file + 24 ≤ fuel
      → (panic cputchar fuel texts cli m at line fmt (slots is) (0, s)
          ≡ ok (
            fmt,
            emit cputchar (10 ∷ []) (
                emit cputchar
                  (Meaning.printed is)
                  (emit cputchar (Meaning.printed (panic_items at file line)) (cli s))),
          ))
        × (panic cputchar fuel texts cli m at2 line2 fmt2 args2 (fmt, s2) ≡ ok (fmt, s2))
  unfolding panic cprintf
  panic_lem cli m at line fmt at2 line2 fmt2 file args2 is s s2 hp hn hf ha at0 fmt0 b l items f1
        f2 =
      let s1 = emit cputchar (Meaning.printed (panic_items at file line)) (cli s) in
      let head : say cputchar fuel texts m texts.kernel_panic (at ∷ line ∷ []) (cli s) ≡ ok s1 =
        say-printed m texts.kernel_panic (panic_items at file line) (cli s) hp
          (panic_items-IsItem m at file line at0 ha b l) (omega arith) in
      let message : vcprintf cputchar fuel m fmt (slots is) s1
          ≡ some (0, emit cputchar (Meaning.printed is) s1) =
        cprintf-printed cputchar fuel m fmt is s1 hf items f1 in
      let last =
        say-printed m texts.newline newline_items (emit cputchar (Meaning.printed is) s1) hn
          (omega arith) (omega arith) in
      let again : (fmt == 0) ≡ false = ground (arith, fmt0) in
      (rw (head, message, last, panic) refl, rw (again, panic) refl)
