-- ===== src/Sections/Load/Sample.antt =====
-- An image with two section headers, of .debug_info and of the names, for tests.
use mit_jos_cse.Prelude.{
  ℕ, ◌+◌, ◌*◌, List, [], ◌∷◌, ◌++◌, codes, Memory, store, blit, ◌==◌, if◌then◌else◌,
}
use mit_jos_cse.Sections.{kelfhdr}
use mit_jos_cse.Sections.Table.{Header}

abbrev pub texts : ℕ → List ℕ
texts i =
    if i == 0
    then codes ".debug_info"
    else if i == 1
    then codes ".debug_abbrev"
    else if i == 2
    then codes ".eh_frame"
    else if i == 3
    then codes ".debug_line"
    else codes ".debug_str"

abbrev pub names : ℕ → ℕ
names i = 100 + 20 * i

abbrev pub put : ℕ → List ℕ → Memory → Memory
put a t m = blit m a (t ++ 0 ∷ [])

abbrev pub header : Header
header = record { name = codes ".debug_info"; addr = 0; offset = 500; size = 600 }

abbrev pub names_header : Header
names_header = record { name = codes ".shstrtab"; addr = 0; offset = 3000; size = 22 }

-- The headers stand at 1024 of the file, and the names at 3000.
abbrev pub image : Memory
image =
    store
      (store
        (store
          (store
            (store
              (store
                (store
                  (store (put 3524 (codes ".shstrtab") (put 3512 (texts 0) (λ a. 0))) 1560 0xF4)
                  1561 1)
                1568 0x58)
              1569 2)
            1600 12)
          1624 0xB8)
        1625 0x0B)
      1632 22

abbrev pub memory : Memory
memory =
    store
      (store
        (store
          (store
            (put 100 (texts 0) (
              put 120 (texts 1)
                (put 140 (texts 2) (put 160 (texts 3) (put 180 (texts 4) (λ a. 0))))))
            (kelfhdr + 41) 4)
          (kelfhdr + 60) 2)
        (kelfhdr + 58) 64)
      (kelfhdr + 62) 1

abbrev pub to_va : ℕ
to_va = 0x8004100000
