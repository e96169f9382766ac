-- ===== src/Console/Input.antt =====
-- kern/console.c: the circular input buffer `cons`, `cons_intr`, `serial_intr`, `kbd_intr` and
-- `cons_getc`. A device routine is a function on the state of the devices; its result -1 is `none`.
pub mod Ring
pub mod Intr
pub mod Queue
pub mod Runs
use mit_jos_cse.Prelude.{
  ℕ, zero, suc, ◌+◌, ◌%◌, ◌^◌, List, [], ◌∷◌, Option, none, some, Bool, ◌==◌, if◌then◌else◌, get_or,
  set,
}

abbrev pub consbufsize : ℕ
consbufsize = 512

pub record Cons : Type 0 where
  pub buf : List ℕ
  pub rpos : ℕ
  pub wpos : ℕ

-- The position behind `p` in the ring.
abbrev pub bump : ℕ → ℕ
bump p = if p + 1 == consbufsize then 0 else p + 1

-- `cons.buf[cons.wpos++] = c`, with the wrap of `wpos`
unfoldable pub put : ℕ → Cons → Cons
put c r = record r { buf = set r.buf r.wpos (c % 2 ^ 8); wpos = bump r.wpos }

-- The next character, or 0.
unfoldable pub take_char : Cons → ℕ × Cons
take_char r =
    if r.rpos == r.wpos then (0, r) else (get_or r.buf r.rpos 0, record r { rpos = bump r.rpos })

module _ {ℓ} {D : Type ℓ} where
  -- Fuel bounds the number of characters that the device has at hand.
  unfoldable pub cons_intr : ℕ → (D → Option ℕ × D) → D → Cons → Option (D × Cons)
  unfolding put
  cons_intr zero proc d r = none
  cons_intr (suc fuel) proc d r =
      let (got, d') = proc d in
      elim got [
        | none ↦ some (d', r)
        | some c ↦ cons_intr fuel proc d' (if c == 0 then r else put c r)
      ]

  module _ (serial_proc_data kbd_proc_data : D → Option ℕ × D) (serial_exists : Bool) where
    unfoldable pub serial_intr : ℕ → D → Cons → Option (D × Cons)
    serial_intr fuel d r =
        let polled = cons_intr fuel serial_proc_data d r in
        if serial_exists then polled else some (d, r)

    unfoldable pub kbd_intr : ℕ → D → Cons → Option (D × Cons)
    kbd_intr fuel d r = cons_intr fuel kbd_proc_data d r

    unfoldable pub cons_getc : ℕ → D → Cons → Option (ℕ × D × Cons)
    unfolding serial_intr kbd_intr cons_intr take_char
    cons_getc fuel d r = elim (serial_intr fuel d r) [
      | none ↦ none
      | some (d1, r1) ↦ elim (kbd_intr fuel d1 r1) [
        | none ↦ none
        | some (d2, r2) ↦ let (c, r3) = take_char r2 in some (c, d2, r3)
      ]
    ]
