-- ===== src/Console/Keyboard/Tests.antt =====
-- kern/console.c, the keyboard, at concrete inputs.
use mit_jos_cse.Prelude.{◌≡◌, ◌&&◌, refl, true, false, not, arith, ◌==◌}
use mit_jos_cse.Console.Keyboard.{Shift, char, scan, xor}
use mit_jos_cse.Console.Keyboard.Tables.{charcode, key_home, is_shift}
use mit_jos_cse.Console.Keyboard.Keys.{strike, strike_lem}

abbrev idle : Shift
idle = record {
  shift = false;
  ctl = false;
  alt = false;
  capslock = false;
  numlock = false;
  scrolllock = false;
  e0esc = false;
}

capitals : scan 0x1E (record idle { capslock = true }) ≡ char b'A' (record idle { capslock = true })
unfolding scan charcode
capitals = refl

small_again :
    scan 0x1E (record idle { capslock = true; shift = true })
    ≡ char b'a' (record idle { capslock = true; shift = true })
unfolding scan charcode
small_again = refl

home : scan 0x47 (record idle { e0esc = true }) ≡ char key_home idle
unfolding scan charcode
home = refl

-- The entry for the home key stands at 0x97 in the table for control, and at 0xC7 in the others.
control_home :
    scan 0x47 (record idle { e0esc = true; ctl = true }) ≡ char 0 (record idle { ctl = true })
unfolding scan charcode
control_home = refl

strike_lem_example : strike 0x3A idle ≡ record idle {
  shift = idle.shift && not (is_shift 0x3A);
  ctl = idle.ctl && not (◌==◌ 0x3A 0x1D);
  alt = idle.alt && not (◌==◌ 0x3A 0x38);
  capslock = xor idle.capslock (◌==◌ 0x3A 0x3A);
  numlock = xor idle.numlock (◌==◌ 0x3A 0x45);
  scrolllock = xor idle.scrolllock (◌==◌ 0x3A 0x46);
}
strike_lem_example = strike_lem 0x3A idle (omega arith) (omega arith) refl

abbrev held : Shift
held = record idle { ctl = true; alt = true }
