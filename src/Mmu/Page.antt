-- ===== src/Mmu/Page.antt =====
-- inc/mmu.h: the parts of a linear address and of a page table entry. An address is a number below
-- 2 ^ 64, `<<` and `>>` are products and quotients by powers of 2.
use Prim.Native.Nat.{bit_and, bit_or}
use mit_jos_cse.Prelude.{
  ℕ, ◌+◌, ◌-◌, ◌*◌, ◌/◌, ◌%◌, ◌^◌, ◌<◌, ◌≡◌, refl, ◌∙◌, arith, bit_and_mask, bit_and_field,
  bit_or_add,
}

abbrev pub ptxshift : ℕ
ptxshift = 12

abbrev pub pdxshift : ℕ
pdxshift = 21

abbrev pub pdpeshift : ℕ
pdpeshift = 30

abbrev pub pml4shift : ℕ
pml4shift = 39

unfoldable pub ppn : ℕ → ℕ
ppn pa = pa / 2 ^ ptxshift

unfoldable pub vpn : ℕ → ℕ
unfolding ppn
vpn la = ppn la

unfoldable pub vpd : ℕ → ℕ
vpd la = la / 2 ^ pdxshift

unfoldable pub vpdpe : ℕ → ℕ
vpdpe la = la / 2 ^ pdpeshift

unfoldable pub vpml4e : ℕ → ℕ
vpml4e la = la / 2 ^ pml4shift

unfoldable pub pml4 : ℕ → ℕ
pml4 la = bit_and (la / 2 ^ pml4shift) 0x1FF

unfoldable pub pdpe : ℕ → ℕ
pdpe la = bit_and (la / 2 ^ pdpeshift) 0x1FF

unfoldable pub pdx : ℕ → ℕ
pdx la = bit_and (la / 2 ^ pdxshift) 0x1FF

unfoldable pub ptx : ℕ → ℕ
ptx la = bit_and (la / 2 ^ ptxshift) 0x1FF

unfoldable pub pgoff : ℕ → ℕ
pgoff la = bit_and la 0xFFF

-- A shift to the left drops what leaves the 64 bits.
abbrev pub shl : ℕ → ℕ → ℕ
shl x k = x * 2 ^ k % 2 ^ 64

unfoldable pub pgaddr : ℕ → ℕ → ℕ → ℕ → ℕ → ℕ
pgaddr m p d t o =
    bit_or
      (bit_or (bit_or (bit_or (shl m pml4shift) (shl p pdpeshift)) (shl d pdxshift))
        (shl t ptxshift))
      o

-- `~0xFFF` in 64 bits.
unfoldable pub pte_addr : ℕ → ℕ
pte_addr pte = bit_and pte (2 ^ 64 - 1 - 0xFFF)

abbrev Index : ℕ → Type 0
Index i = i < 512

pgaddr_sum :
    (m p d t o : ℕ)
    → Index m
    → Index p
    → Index d
    → Index t
    → o < 4096
    → pgaddr m p d t o ≡ m * 2 ^ 39 + p * 2 ^ 30 + d * 2 ^ 21 + t * 2 ^ 12 + o
unfolding pgaddr
pgaddr_sum m p d t o hm hp hd ht ho =
    let m' : shl m pml4shift ≡ m * 2 ^ 39 = omega arith in
    let p' : shl p pdpeshift ≡ p * 2 ^ 30 = omega arith in
    let d' : shl d pdxshift ≡ d * 2 ^ 21 = omega arith in
    let t' : shl t ptxshift ≡ t * 2 ^ 12 = omega arith in
    rw
      (
        m',
        p',
        d',
        t',
        bit_or_add 39 (m * 2 ^ 39) (p * 2 ^ 30) (omega arith) (omega arith),
        bit_or_add 30 (m * 2 ^ 39 + p * 2 ^ 30) (d * 2 ^ 21) (omega arith) (omega arith),
        bit_or_add 21 (m * 2 ^ 39 + p * 2 ^ 30 + d * 2 ^ 21) (t * 2 ^ 12) (omega arith)
            (omega arith),
        bit_or_add 12 (m * 2 ^ 39 + p * 2 ^ 30 + d * 2 ^ 21 + t * 2 ^ 12) o (omega arith)
            (omega arith),
        pgaddr,
      )
      refl

-- The five parts of any address, put together again, are its 48 bits that are translated.
pub pgaddr-parts : (la : ℕ) → pgaddr (pml4 la) (pdpe la) (pdx la) (ptx la) (pgoff la) ≡ la % 2 ^ 48
unfolding pml4 pdpe pdx ptx pgoff
pgaddr-parts la =
    rw
      (
        bit_and_mask 9 (la / 2 ^ 39),
        bit_and_mask 9 (la / 2 ^ 30),
        bit_and_mask 9 (la / 2 ^ 21),
        bit_and_mask 9 (la / 2 ^ 12),
        bit_and_mask 12 la,
        pml4,
        pdpe,
        pdx,
        ptx,
        pgoff,
      )
      (pgaddr_sum (la / 2 ^ 39 % 2 ^ 9) (la / 2 ^ 30 % 2 ^ 9) (la / 2 ^ 21 % 2 ^ 9)
          (la / 2 ^ 12 % 2 ^ 9) (la % 2 ^ 12) (omega arith) (omega arith) (omega arith)
          (omega arith) (omega arith)
        ∙ omega arith)

-- Four indices below 512 and an offset below 4096 are the parts of the address that is built of
-- them, and the index of its page among all pages counts through the four tables.
pub parts-pgaddr :
    (m p d t o : ℕ)
    → m < 512
    → p < 512
    → d < 512
    → t < 512
    → o < 4096
    → (pml4 (pgaddr m p d t o) ≡ m)
      × (pdpe (pgaddr m p d t o) ≡ p)
      × (pdx (pgaddr m p d t o) ≡ d)
      × (ptx (pgaddr m p d t o) ≡ t)
      × (pgoff (pgaddr m p d t o) ≡ o)
      × (vpn (pgaddr m p d t o) ≡ ((m * 512 + p) * 512 + d) * 512 + t)
unfolding pml4 pdpe pdx ptx pgoff vpn
parts-pgaddr m p d t o hm hp hd ht ho =
    let la = m * 2 ^ 39 + p * 2 ^ 30 + d * 2 ^ 21 + t * 2 ^ 12 + o in
    rw (pgaddr_sum m p d t o hm hp hd ht ho) (
      bit_and_mask 9 (la / 2 ^ 39) ∙ omega arith,
      bit_and_mask 9 (la / 2 ^ 30) ∙ omega arith,
      bit_and_mask 9 (la / 2 ^ 21) ∙ omega arith,
      bit_and_mask 9 (la / 2 ^ 12) ∙ omega arith,
      bit_and_mask 12 la ∙ omega arith,
      omega arith,
    )

-- The address in an entry is the entry with its 12 flag bits cleared.
pub pte_addr_lem : (pte : ℕ) → pte < 2 ^ 64 → pte_addr pte + pgoff pte ≡ pte
unfolding pte_addr pgoff
pte_addr_lem pte h = omega (arith, bit_and_field 12 52 pte, bit_and_mask 12 pte)
