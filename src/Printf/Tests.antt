-- ===== src/Printf/Tests.antt =====
-- lib/printfmt.c at concrete inputs.
use mit_jos_cse.Prelude.{
  ◌+◌, pos, arith, ◌⊎◌, inl, All, ℕ, ◌-◌, ◌^◌, ◌-ℤ◌, ◌≡◌, refl, List, [], ◌∷◌, ◌++◌, Option, some,
  codes, true, false, Memory, IsStr, blit, length, take, ◌%◌,
}
use mit_jos_cse.CString.Scan.{strnlen}
use mit_jos_cse.CString.Number.Laws.{value, IsDigit}
use mit_jos_cse.Printf.Number.{printnum, emit, padded}
use mit_jos_cse.Printf.Number.Numeral.{printnum_lem, NoZero}
use mit_jos_cse.Printf.Output.{collect}
use mit_jos_cse.Printf.Buffer.{snprintf, low_bytes}
use mit_jos_cse.Printf.Cprintf.{cprintf, cprintf_lem}
use mit_jos_cse.Printf.Format.{
  literal, getint, getuint, reswitch, error_string, rewind, put_string, int_of,
}
use mit_jos_cse.Printf.Cprintf
use mit_jos_cse.Printf.Format.Parse.{no_width, width, decimal, hexadecimal, percent}
use mit_jos_cse.Printf.Bounded.{snprintf-printed}
use mit_jos_cse.Printf.Engine.{vprintfmt}
use mit_jos_cse.Printf.Meaning.{
  Item, plain, escape, format_text, printed, IsItem, vprintfmt-printed,
}

abbrev run : List ℕ → List ℕ → Option (List ℕ)
run fmt args = vprintfmt collect 40 (literal fmt) 0 args []

octal : run (codes "%d is %o!") (6828 ∷ 6828 ∷ []) ≡ some (codes "6828 is 15254!")
unfolding vprintfmt reswitch printnum getint getuint ◌-ℤ◌
octal = refl

widths :
    run (codes "[%08x|%5d|%-5d]") (0xbeef ∷ 42 ∷ 42 ∷ []) ≡ some (codes "[0000beef|   42|---42]")
unfolding vprintfmt reswitch printnum getint getuint ◌-ℤ◌
widths = refl

texts :
    run (codes "%5s|%-5s|%.1s" ++ 0 ∷ codes "abc") (14 ∷ 14 ∷ 14 ∷ [])
    ≡ some (codes "  abc|abc  |a")
unfolding vprintfmt reswitch put_string strnlen ◌-ℤ◌
texts = refl

errors :
    run (codes "%e, %e, %e") (4 ∷ 7 ∷ (2 ^ 32 - 3) ∷ [])
    ≡ some (codes "out of memory, error 7, invalid parameter")
unfolding vprintfmt reswitch put_string strnlen error_string printnum getint ◌-ℤ◌
errors = refl

unknown : run (codes "%5q%") [] ≡ some (codes "%5q%")
unfolding vprintfmt reswitch rewind
unknown = refl

printnum_lem_example :
    (t : List ℕ) × (printnum collect 64 255 16 (pos 4) b'0' []
      ≡ some (emit collect (padded (pos 4) b'0' t) []))
    × (value 16 0 t ≡ 255)
    × All (IsDigit 16) t
    × ((◌≡◌ {A = ℕ} 255 0) ⊎ NoZero t)
printnum_lem_example =
    printnum_lem collect 255 16 (pos 4) b'0' [] (omega arith) (omega arith) (omega arith)

abbrev count : ℕ → ℕ → ℕ
count c n = n + 1

cprintf_lem_example :
    cprintf count 9 (literal (codes "%d!")) 0 (42 ∷ []) 0
    ≡ Cprintf.printed count 0 (vprintfmt collect 9 (literal (codes "%d!")) 0 (42 ∷ []) [])
cprintf_lem_example = cprintf_lem count 9 (literal (codes "%d!")) 0 (42 ∷ []) 0

-- "%d|%08x%%" with 42 and 48879
abbrev items : List Item
items =
    escape false no_width decimal 42 []
    ∷ plain b'|'
    ∷ escape true (width b'8' []) hexadecimal 48879 []
    ∷ escape false no_width percent 0 []
    ∷ []

abbrev items_memory : Memory
items_memory = literal (format_text items)

items_memory-IsStr : IsStr items_memory 0 (format_text items)
items_memory-IsStr = ground arith

items-IsItem : All (IsItem items_memory) items
items-IsItem = ground arith

vprintfmt-printed_example :
    vprintfmt count 20 items_memory 0 (42 ∷ 48879 ∷ []) 0 ≡ some (emit count (printed items) 0)
vprintfmt-printed_example =
    vprintfmt-printed count 20 items_memory 0 items 0 items_memory-IsStr items-IsItem (omega arith)

snprintf-printed_example :
    (snprintf 20 items_memory 100 (pos 9) 0 (42 ∷ 48879 ∷ [])
      ≡ some (
        int_of (length (printed items) % 2 ^ 32),
        blit items_memory 100 (low_bytes (take 8 (printed items)) ++ 0 ∷ []),
      ))
    × IsStr (blit items_memory 100 (codes "42|")) 0 (format_text items)
    × All (IsItem (blit items_memory 100 (codes "42|"))) items
snprintf-printed_example =
    snprintf-printed 20 items_memory 100 8 0 items (codes "42|") (omega arith) items_memory-IsStr
      items-IsItem (omega arith) (inl (omega arith)) (tt, (tt, (tt, (tt, tt)))) (omega arith)
