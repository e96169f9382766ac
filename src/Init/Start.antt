-- ===== src/Init/Start.antt =====
-- kern/init.c: `i386_init`, up to its endless loop of `monitor`.
use mit_jos_cse.Prelude.{ℕ, ◌-◌, List, [], ◌∷◌, Memory, pos, Run, ok, ◌>>=◌, finished}
use mit_jos_cse.CString.Block.{memset}
use mit_jos_cse.Disk.{Ports}
use mit_jos_cse.Console.Display.{Crt, cputchar}
use mit_jos_cse.Console.Setup.{cons_init}
use mit_jos_cse.Sections.{SectionInfo, kelfhdr, initial_info, read_section_headers}
use mit_jos_cse.Init.{Texts, say, test_backtrace}

module _ (ports : Ports) (wait : ℕ) where
  open ports use {Device, inb, outb}

  -- What the kernel has when it enters the loop: `end_debug`, the table of sections, the memory, and
  -- the console with `addr_6845`.
  pub record Started : Type 0 where
    pub end_debug : ℕ
    pub sections : SectionInfo
    pub memory : Memory
    pub addr_6845 : ℕ
    pub console : Device × Crt

  -- `edata` and `end` are the linker's symbols, `cells` what the video memory holds, `backtrace` is
  -- `mon_backtrace` on the stack as it then is, and `names` are the literals of the section names.
  unfoldable pub i386_init :
      ℕ
      → Texts
      → (ℕ → ℕ)
      → (ℕ → Device → ℕ × Device)
      → (ℕ → ℕ → Device → Device)
      → (ℕ → Device → List ℕ)
      → (Device × Crt → Run (Device × Crt))
      → ℕ
      → ℕ
      → Device
      → Memory
      → Run Started
  i386_init fuel texts names peek poke cells backtrace edata end d m = do
    let m0 = memset m edata 0 (end - edata)
    ((exists, addr), s1) ← finished (cons_init inb outb peek poke fuel cells d)
    (d2, crt) ← say (cputchar inb outb addr) fuel texts m0 texts.octal (6828 ∷ []) s1
    (end_debug, ((kvend, d3, m1), info)) ←
        read_section_headers ports wait fuel names kelfhdr end d2 m0 (initial_info names)
    s ← test_backtrace (cputchar inb outb addr) fuel texts backtrace m1 (pos 5) (d3, crt)
    ok (record {
      end_debug = end_debug;
      sections = info;
      memory = m1;
      addr_6845 = addr;
      console = s;
    })
