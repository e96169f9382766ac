-- ===== src/Console/Keyboard.antt =====
-- kern/console.c: `kbd_proc_data`, the machine that turns scan codes into characters.
pub mod Tables
pub mod Keys
mod Tests
use Prim.Native.Nat.{bit_and}
use mit_jos_cse.Prelude.{
  ℕ, ◌+◌, ◌-◌, ◌%◌, Option, none, some, Bool, true, false, not, ◌&&◌, ◌||◌, leb, ◌==◌,
  if◌then◌else◌, codes, List, [], ◌∷◌,
}
use mit_jos_cse.Printf.Format.{literal}
use mit_jos_cse.Printf.Cprintf.{cprintf}
use mit_jos_cse.Console.Keyboard.Tables.{
  key_del, is_shift, is_ctl, is_alt, is_capslock, is_numlock, is_scrolllock, charcode,
}

-- The bits of the variable `shift`.
pub record Shift : Type 0 where
  pub shift : Bool
  pub ctl : Bool
  pub alt : Bool
  pub capslock : Bool
  pub numlock : Bool
  pub scrolllock : Bool
  pub e0esc : Bool

-- `shift &= ~(shiftcode[data] | E0ESC)`
abbrev pub release : ℕ → Shift → Shift
release code s = record s {
  shift = s.shift && not (is_shift code);
  ctl = s.ctl && not (is_ctl code);
  alt = s.alt && not (is_alt code);
  e0esc = false;
}

abbrev pub xor : Bool → Bool → Bool
xor a b = if b then not a else a

-- `shift |= shiftcode[data]; shift ^= togglecode[data]`
abbrev pub press : ℕ → Shift → Shift
press code s = record s {
  shift = s.shift || is_shift code;
  ctl = s.ctl || is_ctl code;
  alt = s.alt || is_alt code;
  capslock = xor s.capslock (is_capslock code);
  numlock = xor s.numlock (is_numlock code);
  scrolllock = xor s.scrolllock (is_scrolllock code);
}

-- The change of case with CAPSLOCK on.
abbrev pub change_case : ℕ → ℕ
change_case c =
    if leb b'a' c && leb c b'z'
    then c + b'A' - b'a'
    else if leb b'A' c && leb c b'Z'
    then c + b'a' - b'A'
    else c

-- A scan code is either used up, where 0 is returned, or stands for a character.
pub data Scan : Type 0 where
  used_up : Shift → Scan
  char : ℕ → Shift → Scan

abbrev key_char : ℕ → Shift → Scan
key_char code s =
    let c = charcode s.ctl s.shift code in char (if s.capslock then change_case c else c) s

unfoldable pub scan : ℕ → Shift → Scan
scan code s =
    if code == 0xE0
    then used_up (record s { e0esc = true })
    else if leb 0x80 code
    then used_up (release (if s.e0esc then code else code - 0x80) s)
    else if s.e0esc
    then (let extended = code + 0x80 in
        key_char extended (press extended (record s { e0esc = false })))
    else key_char code (press code s)

module _ {ℓ} {D : Type ℓ} (inb : ℕ → D → ℕ × D) (outb : ℕ → ℕ → D → D) (cputchar : ℕ → D → D) where
  -- The result of the routine, none for its -1; `none` in front if `cprintf` runs out of fuel.
  unfoldable pub kbd_proc_data : ℕ → Shift → D → Option (Option ℕ × Shift × D)
  unfolding scan
  kbd_proc_data fuel s d =
      let (status, d1) = inb 0x64 d in
      let (code, d2) = inb 0x60 d1 in
      if bit_and status 1 == 0 then some (none, s, d1) else elim (scan code s) [
        | used_up s' ↦ some (some 0, s', d2)
        | char c s' ↦
            let reboot : Option (Option ℕ × Shift × D) =
              elim (cprintf cputchar fuel (literal (codes "Rebooting!\n")) 0 [] d2) [
                | none ↦ none
                | some (printed, d3) ↦ some (some c, s', outb 0x92 0x3 d3)
              ] in
            if s'.ctl && s'.alt && c == key_del then reboot else some (some c, s', d2)
      ]
