-- ===== src/Monitor/Commands/Tests.antt =====
-- kern/monitor.c: the commands at concrete memories.
use mit_jos_cse.Prelude.{
  ℕ, ◌+◌, ◌*◌, ◌%◌, ◌/◌, ◌^◌, ◌<◌, ◌≤◌, ◌≡◌, refl, List, [], ◌∷◌, ◌++◌, some, arith, codes, All,
  Memory, blit, pos, ok, stopped, fault, none, store, ◌-ℤ◌,
}
use mit_jos_cse.Printf.Number.{emit}
use mit_jos_cse.Printf.Output.{collect}
use mit_jos_cse.Printf.Meaning.{Item, format_text}
use mit_jos_cse.Kdebug.{Ripdebuginfo}
use mit_jos_cse.Monitor.Commands.{Formats, Symbols, mon_help, mon_kerninfo, mon_backtrace}
use mit_jos_cse.Monitor.Commands.Kerninfo.{AreLines, kerninfo_lines, lines_text, mon_kerninfo_lem}
use mit_jos_cse.Monitor.Commands.Help.{help_items, mon_help_lem}
use mit_jos_cse.Monitor.Commands.Backtrace.{
  AreFormats, frame_items, location_items, argument_items, frame_text,
}
use mit_jos_cse.Elf.{read_le}
use mit_jos_cse.Monitor.Commands.Walk.{IsKnown, mon_backtrace_lem}

abbrev formats : Formats
formats = record {
  help = 10;
  special = 1;
  start = 1;
  entry = 1;
  etext = 1;
  edata = 1;
  end = 1;
  footprint = 1;
  frame = 100;
  location = 200;
  argument = 300;
  newline = 400;
}

abbrev put : ℕ → List ℕ → Memory → Memory
put a t m = blit m a (t ++ 0 ∷ [])

abbrev help_memory : Memory
help_memory =
    put 10 (format_text (help_items 0 [] 0 []))
      (put 50 (codes "help") (put 60 (codes "me") (λ a. 1)))

mon_help_lem_example :
    mon_help collect 20 formats help_memory (record { name = 50; desc = 60; func = 0 } ∷ []) []
    ≡ some (pos 0, emit collect (codes "help - me" ++ 10 ∷ []) [])
unfolding ◌-ℤ◌
mon_help_lem_example =
    mon_help_lem collect 20 formats help_memory (record { name = 50; desc = 60; func = 0 } ∷ [])
      ((codes "help", codes "me") ∷ []) [] (ground arith) (omega arith)

abbrev known : Ripdebuginfo
known = record {
  rip_file = 500;
  rip_line = 7;
  rip_fn_name = 510;
  rip_fn_namelen = 1;
  rip_fn_addr = 4;
  rip_fn_narg = 1;
  size_fn_arg = 4 ∷ [];
}

-- Texts at their addresses, in a memory of zeros.
abbrev laid : List (ℕ × List ℕ) → Memory
laid [] = λ a. 0
laid ((at, t) ∷ ts) = blit (laid ts) at (t ++ 0 ∷ [])

abbrev stack_texts : List (ℕ × List ℕ)
stack_texts =
    (100, format_text (frame_items 0 0))
    ∷ (200, format_text (location_items known [] [] 0))
    ∷ (300, format_text (argument_items 0))
    ∷ (400, 10 ∷ [])
    ∷ (500, codes "f")
    ∷ (510, codes "g")
    ∷ (608, 2 ∷ 1 ∷ [])
    ∷ []

-- One frame at 600, with the return address 258.
abbrev stack : Memory
stack = laid stack_texts

stack-AreFormats : AreFormats stack formats
stack-AreFormats = record {
  frame = ground arith;
  location = λ info. ground arith;
  argument = ground arith;
  newline = ground arith;
}

stack-IsKnown :
    (a : ℕ)
    → IsKnown collect 100 formats stack
        (λ x info. ok known)
        (λ x info. known)
        (λ x. codes "f")
        (λ x. codes "g")
        a
stack-IsKnown a = record {
  tells = λ info. refl;
  held = λ info. record {
    file_item = omega arith;
    name_item = omega arith;
    line_bound = omega arith;
    count_bound = omega arith;
  };
  fits = omega arith;
}

blit-bytes :
    (m : Memory) (d : ℕ) (l : List ℕ)
    → All (λ c. c < 256) l
    → ((a : ℕ) → m a < 256)
    → (a : ℕ) → blit m d l a < 256
blit-bytes m d [] h b a = b a
blit-bytes m d (c ∷ l) h b a =
    blit-bytes (store m d c) (d + 1) l h.1 (λ x. ground (arith, h.0, b x)) a

laid-bytes :
    (ts : List (ℕ × List ℕ))
    → All (λ t. All (λ c. c < 256) (t.1 ++ 0 ∷ [])) ts
    → (a : ℕ) → laid ts a < 256
laid-bytes [] h a = omega arith
laid-bytes ((at, t) ∷ ts) h a = blit-bytes (laid ts) at (t ++ 0 ∷ []) h.0 (laid-bytes ts h.1) a

stack-bytes : (a : ℕ) → stack a < 256
stack-bytes = laid-bytes stack_texts (omega arith)

mon_backtrace_lem_example :
    (mon_backtrace collect 100 formats stack (λ x info. ok known) 2 600 77 none [] ≡ stopped fault)
    × (mon_backtrace collect 100 formats stack (λ x info. ok known) 2 600 77 (some known) []
        ≡ ok (
          pos 0,
          known,
          emit collect
              (frame_text 76 77 (λ i. (77 + 3 + i) % 2 ^ 64 / 2 ^ 32) known (codes "f") (codes "g")
                ++ (frame_text 0 258
                      (λ i. read_le 8 stack (600 + 8 * (3 + i)) / 2 ^ 32)
                      known
                      (codes "f")
                      (codes "g")
                    ++ []))
              [],
        ))
unfolding read_le
mon_backtrace_lem_example =
    mon_backtrace_lem collect 100 formats stack (λ x info. ok known) (λ x info. known)
      (λ x. codes "f") (λ x. codes "g") stack-AreFormats stack-bytes 2 600 77 (600 ∷ []) known []
      (refl, (omega arith), refl) (stack-IsKnown 258, tt) (stack-IsKnown 77) (omega arith)
      (omega arith)

-- The formats of `mon_kerninfo`.
abbrev kerninfo_formats : Formats
kerninfo_formats = record formats {
  special = 2000;
  start = 2100;
  entry = 2200;
  etext = 2300;
  edata = 2400;
  end = 2500;
  footprint = 2600;
}

abbrev symbols : Symbols
symbols = record {
  start = 0x100000;
  entry = 0x8004200000;
  etext = 0x8004208000;
  edata = 0x8004209000;
  end = 0x8004209801;
}

abbrev texts_of : List (ℕ × List Item) → List (ℕ × List ℕ)
texts_of [] = []
texts_of ((at, is) ∷ ls) = (at, format_text is) ∷ texts_of ls

abbrev kerninfo_memory : Memory
kerninfo_memory = laid (texts_of (kerninfo_lines kerninfo_formats symbols 0))

kerninfo_memory-AreLines : AreLines kerninfo_memory 60 (kerninfo_lines kerninfo_formats symbols 0)
kerninfo_memory-AreLines = ground arith

mon_kerninfo_lem_example :
    (kb : ℕ) × (mon_kerninfo collect 60 kerninfo_formats kerninfo_memory symbols []
      ≡ some (pos 0, emit collect (lines_text (kerninfo_lines kerninfo_formats symbols kb)) []))
    × (38913 ≤ kb * 1024)
    × (kb * 1024 < 39937)
mon_kerninfo_lem_example =
    mon_kerninfo_lem collect 60 kerninfo_formats kerninfo_memory symbols [] kerninfo_memory-AreLines
      (omega arith) (omega arith) (omega arith) (omega arith) (omega arith)
