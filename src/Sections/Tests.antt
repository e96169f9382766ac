-- ===== src/Sections/Tests.antt =====
-- kern/elf_rw.c at a concrete disk.
use mit_jos_cse.Prelude.{ℕ, ◌+◌, ◌-◌, ◌*◌, ◌%◌, ◌≡◌, refl, arith, Memory, bytes, Outside, ok}
use mit_jos_cse.Disk.Toy.{toy_ports, toy-IsIde, Controller, power_on}
use mit_jos_cse.Sections.{readseg}
use mit_jos_cse.Sections.Read.{sectors_read, readseg_loads}

abbrev numbered : Memory
numbered a = a % 251

abbrev blank : Memory
blank a = 0

-- 600 bytes from the offset 500 on lie in three sectors.
readseg_loads_example :
    (k' : ℕ) × (d' : Controller) × (m' : Memory) × (readseg
        (toy_ports numbered)
        2
        10
        4096
        600
        500
        (1024, power_on, blank)
      ≡ ok (k', d', m'))
    × (bytes m' (4096 + 500 % 512) 600 ≡ bytes numbered (512 + 500) 600)
    × (k' ≡ 1024 + sectors_read 600 500 * 512)
    × (k' % 512 ≡ 0)
    × ((x : ℕ) → Outside 4096 (k' - 1024) x → m' x ≡ blank x)
readseg_loads_example =
    readseg_loads (toy_ports numbered) numbered 2 (toy-IsIde numbered) 2 (omega arith) 10 4096 600
      500 1024 power_on blank refl refl (omega arith) (omega arith) (omega arith) (omega arith)
