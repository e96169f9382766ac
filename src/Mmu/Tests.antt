-- ===== src/Mmu/Tests.antt =====
-- inc/types.h and inc/mmu.h at concrete inputs.
use mit_jos_cse.Prelude.{◌+◌, ◌*◌, ◌/◌, ◌%◌, ◌^◌, ◌<◌, ◌≤◌, ◌≡◌, refl, arith}
use mit_jos_cse.Mmu.Round.{round_up, round_up_lem}
use mit_jos_cse.Mmu.Page.{pml4, pdpe, pdx, ptx, pgoff, vpn, pgaddr, pgaddr-parts, parts-pgaddr}
use mit_jos_cse.Mmu.Layout.{utop, upages, ulim, mmiolim, kernbase, pte_user, pte_syscall}
use mit_jos_cse.Mmu.Segment.{
  asm_seg, asm_seg64, asm_seg64user, seg, seg64, seg16, layout, seg_base, seg_limit, asm_seg_lem,
  seg_fields,
}

regions : (utop < upages) × (upages < ulim) × (ulim < mmiolim) × (mmiolim < kernbase)
regions = omega arith

user_flags : (pte_user ≡ 0xE07) × (pte_syscall ≡ pte_user)
user_flags = (refl, refl)

kernel_page : (pml4 kernbase ≡ 1) × (pdpe kernbase ≡ 0) × (pdx kernbase ≡ 32) × (ptx kernbase ≡ 0)
unfolding pml4 pdpe pdx ptx
kernel_page = (refl, refl, refl, refl)

round_up_lem_example :
    (round_up 1000 512 % 512 ≡ 0) × (1000 ≤ round_up 1000 512) × (round_up 1000 512 < 1000 + 512)
round_up_lem_example = round_up_lem 1000 512 (omega arith) (omega arith)

pgaddr-parts_example :
    pgaddr
      (pml4 0x8004000123)
      (pdpe 0x8004000123)
      (pdx 0x8004000123)
      (ptx 0x8004000123)
      (pgoff 0x8004000123)
    ≡ 0x8004000123 % 2 ^ 48
pgaddr-parts_example = pgaddr-parts 0x8004000123

parts-pgaddr_example :
    (pml4 (pgaddr 1 2 3 4 5) ≡ 1)
    × (pdpe (pgaddr 1 2 3 4 5) ≡ 2)
    × (pdx (pgaddr 1 2 3 4 5) ≡ 3)
    × (ptx (pgaddr 1 2 3 4 5) ≡ 4)
    × (pgoff (pgaddr 1 2 3 4 5) ≡ 5)
    × (vpn (pgaddr 1 2 3 4 5) ≡ ((1 * 512 + 2) * 512 + 3) * 512 + 4)
parts-pgaddr_example =
    parts-pgaddr 1 2 3 4 5 (omega arith) (omega arith) (omega arith) (omega arith) (omega arith)

asm_seg_lem_example :
    (asm_seg 0xA 0 0xffffffff ≡ layout (seg 0xA 0 0xffffffff 0))
    × (asm_seg64 0xA 0 0xffffffff ≡ layout (seg64 0xA 0 0xffffffff 0))
    × (asm_seg64user 0xA 0 0xffffffff ≡ layout (seg64 0xA 0 0xffffffff 3))
asm_seg_lem_example = asm_seg_lem 0xA 0 0xffffffff (omega arith) (omega arith) (omega arith)

seg_fields_example :
    (seg_base (seg 0xA 0x12345678 0xfffff 3) ≡ 0x12345678)
    × (seg_limit (seg 0xA 0x12345678 0xfffff 3) ≡ 0xfffff / 4096 * 4096 + 4095)
    × (seg_base (seg64 0xA 0x12345678 0xfffff 3) ≡ 0x12345678)
    × (seg_limit (seg64 0xA 0x12345678 0xfffff 3) ≡ 0xfffff / 4096 * 4096 + 4095)
    × (seg_base (seg16 0xA 0x12345678 0xfffff 3) ≡ 0x12345678)
    × (seg_limit (seg16 0xA 0x12345678 (0xfffff % 2 ^ 20) 3) ≡ 0xfffff % 2 ^ 20)
seg_fields_example = seg_fields 0xA 0x12345678 0xfffff 3 (omega arith) (omega arith)
