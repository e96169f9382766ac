-- ===== src/Mmu/Layout.antt =====
-- inc/memlayout.h: the layout of the virtual address space; inc/mmu.h: the sizes and the flags of
-- page tables.
use Prim.Native.Nat.{bit_or}
use mit_jos_cse.Prelude.{ℕ, ◌+◌, ◌-◌, ◌*◌}

abbrev pub pgsize : ℕ
pgsize = 4096

abbrev pub nptentries : ℕ
nptentries = 512

abbrev pub ptsize : ℕ
ptsize = pgsize * nptentries

abbrev pub kernbase : ℕ
kernbase = 0x8004000000

abbrev pub iophysmem : ℕ
iophysmem = 0x0A0000

abbrev pub extphysmem : ℕ
extphysmem = 0x100000

abbrev pub kstacktop : ℕ
kstacktop = kernbase

abbrev pub kstksize : ℕ
kstksize = 16 * pgsize

abbrev pub kstkgap : ℕ
kstkgap = 8 * pgsize

abbrev pub mmiolim : ℕ
mmiolim = kstacktop - ptsize

abbrev pub mmiobase : ℕ
mmiobase = mmiolim - ptsize

abbrev pub ulim : ℕ
ulim = mmiobase

abbrev pub uvpt : ℕ
uvpt = 0x10000000000

abbrev pub upages : ℕ
upages = ulim - 25 * ptsize

abbrev pub uenvs : ℕ
uenvs = upages - ptsize

abbrev pub utop : ℕ
utop = uenvs

abbrev pub uxstacktop : ℕ
uxstacktop = 0xef800000

abbrev pub ustacktop : ℕ
ustacktop = uxstacktop - 2 * pgsize

abbrev pub utext : ℕ
utext = 4 * ptsize

abbrev pub utemp : ℕ
utemp = 2 * ptsize

abbrev pub pftemp : ℕ
pftemp = utemp + ptsize - pgsize

abbrev pub ustabdata : ℕ
ustabdata = ptsize

abbrev pub pte_p : ℕ
pte_p = 0x1

abbrev pub pte_w : ℕ
pte_w = 0x2

abbrev pub pte_u : ℕ
pte_u = 0x4

abbrev pub pte_pwt : ℕ
pte_pwt = 0x8

abbrev pub pte_pcd : ℕ
pte_pcd = 0x10

abbrev pub pte_a : ℕ
pte_a = 0x20

abbrev pub pte_d : ℕ
pte_d = 0x40

abbrev pub pte_ps : ℕ
pte_ps = 0x80

abbrev pub pte_mbz : ℕ
pte_mbz = 0x180

abbrev pub pte_avail : ℕ
pte_avail = 0xe00

abbrev pub pte_syscall : ℕ
pte_syscall = bit_or (bit_or (bit_or pte_avail pte_p) pte_w) pte_u

abbrev pub pte_user : ℕ
pte_user = bit_or (bit_or (bit_or pte_avail pte_p) pte_w) pte_u
