-- ===== src/Init/Booted.antt =====
-- kern/init.c: what `i386_init` leaves when it enters the monitor.
mod Tests
use mit_jos_cse.Prelude.{List, [], ◌∷◌, false, codes, Run}
use mit_jos_cse.Printf.Format.Parse.{no_width, octal}
use mit_jos_cse.Printf.Meaning.{Item, plain, escape, slots}
use mit_jos_cse.Printf.Meaning
use mit_jos_cse.Monitor.Run.{plains}

-- "6828 decimal is %o octal!\n"
abbrev pub octal_items : List Item
octal_items =
    plains (codes "6828 decimal is ")
      (escape false no_width octal 6828 [] ∷ plains (codes " octal!") (plain 10 ∷ []))
