-- ===== src/Init/Booted/Tests.antt =====
-- kern/init.c: `i386_init` on an image with two section headers.
use mit_jos_cse.Prelude.{ℕ, ◌-◌, Memory, blit, replicate}
use mit_jos_cse.Printf.Meaning.{format_text}
use mit_jos_cse.Printf.Meaning
use mit_jos_cse.Sections.Load.Sample.{put, memory, to_va}
use mit_jos_cse.Init.{Texts}
use mit_jos_cse.Init.Trace.{entering_items, leaving_items}
use mit_jos_cse.Init.Booted.{octal_items}

abbrev messages : Texts
messages = record {
  entering = 2100;
  leaving = 2200;
  octal = 2000;
  kernel_panic = 1;
  kernel_warning = 1;
  newline = 1;
  welcome = 1;
  type_help = 1;
}

abbrev kernel : Memory
kernel =
    put 2000 (format_text octal_items)
      (put 2100 (format_text (entering_items 0)) (put 2200 (format_text (leaving_items 0)) memory))

-- The BSS has eight bytes.
abbrev edata : ℕ
edata = to_va - 8

abbrev started : Memory
started = blit kernel edata (replicate 8 0)
