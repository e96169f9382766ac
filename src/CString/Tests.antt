-- ===== src/CString/Tests.antt =====
-- lib/string.c at concrete inputs.
use mit_jos_cse.Prelude.{
  [], ◌∷◌, ◌++◌, ◌-◌, ◌^◌, ◌≡◌, refl, inl, inr, some, arith, Memory, blit, IsStr, codes,
}
use mit_jos_cse.CString.Copy.{strcat, strlcpy, strcat_lem, strlcpy_lem}
use mit_jos_cse.CString.Compare.{strncmp, Orders, strncmp_lem}
use mit_jos_cse.CString.Block.{memset, memmove, memset_lem, memmove_lem}
use mit_jos_cse.CString.Search.{strstr, strstr_lem}
use mit_jos_cse.CString.Number.{strtol}
use mit_jos_cse.CString.Number.Laws.{minus, hex_any, strtol_lem}

-- "abcab" at 10 and "ab" at 20
abbrev heap : Memory
heap = blit (blit (λ _. 0) 10 (codes "abcab")) 20 (codes "ab")

heap_abcab : IsStr heap 10 (codes "abcab")
heap_abcab = omega arith

heap_ab : IsStr heap 20 (codes "ab")
heap_ab = omega arith

-- " -0x1Fz" at 5
abbrev number : Memory
number = blit (λ _. 0) 5 (codes " -0x1Fz")

abbrev joined : Memory
joined = blit heap 22 (codes "abcab" ++ 0 ∷ [])

strcat_lem_example : (strcat 9 heap 20 10 ≡ some joined) × IsStr joined 20 (codes "ababcab")
strcat_lem_example =
    strcat_lem 9 heap 20 10 (codes "ab") (codes "abcab") (inr (omega arith)) heap_ab heap_abcab
      (omega arith) (omega arith)

strlcpy_lem_example :
    (strlcpy heap 30 10 4 ≡ (blit heap 30 (codes "abc" ++ 0 ∷ []), 3))
    × (strlcpy heap 30 10 0 ≡ (heap, 0))
strlcpy_lem_example = strlcpy_lem heap 30 10 3 (codes "abcab") (inr (omega arith)) heap_abcab

strncmp_lem_example : Orders (strncmp heap 10 20 2) (codes "ab") (codes "ab")
strncmp_lem_example = strncmp_lem heap 10 20 2 (codes "abcab") (codes "ab") heap_abcab heap_ab

memset_lem_example : memset heap 12 0x141 4 ≡ blit heap 12 (codes "AAAA")
memset_lem_example = memset_lem heap 12 0x141 4

-- an overlapping move upwards
memmove_lem_example : memmove heap 12 10 5 ≡ blit heap 12 (codes "abcab")
memmove_lem_example = memmove_lem heap 12 10 5

strstr_lem_example : strstr 9 heap 11 20 ≡ some (some 13)
strstr_lem_example =
    strstr_lem 9 heap 11 20 (codes "bcab") (codes "ab") (omega arith) heap_ab (omega arith)
      (omega arith)

strtol_lem_example : strtol 9 number 5 0 ≡ some (2 ^ 64 - 31, 11)
strtol_lem_example =
    strtol_lem 9 number 5 minus hex_any (codes " ") b'1' (codes "F") (codes "z") (omega arith)
      (inl refl, tt) tt ((refl, omega arith), ((refl, omega arith), tt)) (inr (omega arith))
      (omega arith) (omega arith)
