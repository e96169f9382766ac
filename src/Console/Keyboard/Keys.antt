-- ===== src/Console/Keyboard/Keys.antt =====
-- kern/console.c: what keys do to the state of the keyboard, and to the characters.
use mit_jos_cse.Prelude.{
  ℕ, ◌+◌, ◌-◌, ◌<◌, ◌≡◌, ◌≢◌, refl, Bool, true, false, not, ◌&&◌, ◌||◌, arith, leb, ◌==◌,
}
use mit_jos_cse.Console.Keyboard.Tables.{
  is_shift, is_ctl, is_alt, is_capslock, is_numlock, is_scrolllock,
}
use mit_jos_cse.Console.Keyboard.{Shift, Scan, used_up, char, scan, press, release, xor}

abbrev pub after : Scan → Shift
after (used_up s) = s
after (char c s) = s

-- A key of the main block, struck and let go.
abbrev pub strike : ℕ → Shift → Shift
strike k s = after (scan (k + 0x80) (after (scan k s)))

-- A key with the prefix 0xE0.
abbrev pub strike_extended : ℕ → Shift → Shift
strike_extended k s =
    after (scan (k + 0x80) (after (scan 0xE0 (after (scan k (after (scan 0xE0 s)))))))

pressed : (k : ℕ) (s : Shift) → k < 0x80 → s.e0esc ≡ false → after (scan k s) ≡ press k s
unfolding scan
pressed k s h e =
    let no_prefix : (k == 0xE0) ≡ false = ground arith in
    let make : leb 0x80 k ≡ false = ground arith in rw (no_prefix, make, e, scan) refl

released :
    (k : ℕ) (s : Shift)
    → k < 0x80
    → k ≢ 0x60
    → s.e0esc ≡ false
    → after (scan (k + 0x80) s) ≡ release k s
unfolding scan
released k s h n e =
    let no_prefix : (k + 0x80 == 0xE0) ≡ false = ground (arith, n) in
    let break : leb 0x80 (k + 0x80) ≡ true = ground arith in
    let low : k + 0x80 - 0x80 ≡ k = omega arith in rw (no_prefix, break, e, low, scan) refl

or_false : (a : Bool) → (a || false) ≡ a
or_false true = refl
or_false false = refl

absorbed : (a b : Bool) → (a || b) && not b ≡ a && not b
absorbed true b = refl
absorbed false true = refl
absorbed false false = refl

-- From a state with no prefix pending, striking and letting go a key of the main block, the code
-- 0x60 of the prefix apart, ends with no prefix pending, lets go the modifier of that key and no
-- other, and turns over the lock of that key and no other.
pub strike_lem :
    (k : ℕ) (s : Shift)
    → k < 0x80
    → k ≢ 0x60
    → s.e0esc ≡ false
    → strike k s ≡ record s {
      shift = s.shift && not (is_shift k);
      ctl = s.ctl && not (k == 0x1D);
      alt = s.alt && not (k == 0x38);
      capslock = xor s.capslock (k == 0x3A);
      numlock = xor s.numlock (k == 0x45);
      scrolllock = xor s.scrolllock (k == 0x46);
    }
strike_lem k s h n e =
    let no_right_ctl : (k == 0x9D) ≡ false = ground arith in
    let no_right_alt : (k == 0xB8) ≡ false = ground arith in
    rw
      (
        pressed k s h e,
        released k (press k s) h n e,
        absorbed s.shift (is_shift k),
        absorbed s.ctl (is_ctl k),
        absorbed s.alt (is_alt k),
        no_right_ctl,
        no_right_alt,
        or_false (k == 0x1D),
        or_false (k == 0x38),
        e,
      )
      refl

unmoved : (a : Bool) → (a || false) && not false ≡ a
unmoved true = refl
unmoved false = refl

pressed_extended :
    (k : ℕ) (s : Shift)
    → k < 0x80
    → after (scan k (after (scan 0xE0 s))) ≡ press (k + 0x80) (record s { e0esc = false })
unfolding scan
pressed_extended k s h =
    let no_prefix : (k == 0xE0) ≡ false = ground arith in
    let make : leb 0x80 k ≡ false = ground arith in rw (no_prefix, make, scan) refl

released_extended :
    (k : ℕ) (s : Shift)
    → k < 0x80
    → k ≢ 0x60
    → after (scan (k + 0x80) (after (scan 0xE0 s))) ≡ release (k + 0x80) s
unfolding scan
released_extended k s h n =
    let no_prefix : (k + 0x80 == 0xE0) ≡ false = ground (arith, n) in
    let break : leb 0x80 (k + 0x80) ≡ true = ground arith in rw (no_prefix, break, scan) refl

-- Striking and letting go a key with the prefix, from the same states, ends with no prefix pending
-- and lets go the right control or the right alt key, if it is that, and changes nothing else.
pub strike_extended_lem :
    (k : ℕ) (s : Shift)
    → k < 0x80
    → k ≢ 0x60
    → s.e0esc ≡ false
    → strike_extended k s
      ≡ record s { ctl = s.ctl && not (k == 0x1D); alt = s.alt && not (k == 0x38) }
strike_extended_lem k s h n e =
    let code = k + 0x80 in
    let shift : is_shift code ≡ false = ground arith in
    let ctl : is_ctl code ≡ (k == 0x1D) = ground arith in
    let alt : is_alt code ≡ (k == 0x38) = ground arith in
    let caps : is_capslock code ≡ false = ground arith in
    let num : is_numlock code ≡ false = ground arith in
    let scroll : is_scrolllock code ≡ false = ground arith in
    rw
      (
        pressed_extended k s h,
        released_extended k (press code (record s { e0esc = false })) h n,
        shift,
        ctl,
        alt,
        caps,
        num,
        scroll,
        absorbed s.ctl (k == 0x1D),
        absorbed s.alt (k == 0x38),
        unmoved s.shift,
        e,
      )
      refl
