-- ===== src/Console/Tests.antt =====
-- kern/console.c at concrete inputs.
use mit_jos_cse.Prelude.{
  ℕ, zero, suc, ◌≡◌, refl, false, List, [], ◌∷◌, Option, none, some, true, arith, set, replicate,
  codes,
}
use mit_jos_cse.Console.Input.{Cons, put, take_char, cons_intr, serial_intr, kbd_intr, cons_getc}
use mit_jos_cse.Console.Input.Ring
use mit_jos_cse.Console.Input.Ring.{queue, first_of, rest_of, take_char_lem, queue-put_full}
use mit_jos_cse.Console.Input.Intr.{cons_getc_lem}
use mit_jos_cse.Console.Input.Runs.{
  came, got, kbd_polled, called, Runs, start, then_step, Accepts, Runs-Accepts, Runs-in_order,
}
use mit_jos_cse.Console.Getchar.{getchar, getchar_lem}
use mit_jos_cse.Console.Display.{Crt, cons_putc}
use mit_jos_cse.Console.Display.Screen
use mit_jos_cse.Console.Display.Screen.{scroll_lem, cons_putc-IsValid}

-- A device is the list of the characters that it has at hand.
abbrev poll : List ℕ → Option ℕ × List ℕ
poll [] = (none, [])
poll (c ∷ cs) = (some c, cs)

-- 'x' waits at the end of the buffer.
abbrev near_end : Cons
near_end = record { buf = set (replicate 512 0) 511 b'x'; rpos = 511; wpos = 0 }

near_end-IsValid : Ring.IsValid near_end
near_end-IsValid = record { storage = refl; read_in = omega arith; write_in = omega arith }

abbrev full_ring : Cons
full_ring = record near_end { rpos = 1 }

full_ring-IsValid : Ring.IsValid full_ring
full_ring-IsValid = record { storage = refl; read_in = omega arith; write_in = omega arith }

cons_getc_lem_example :
    (r : Cons) × (cons_getc poll poll true 9 (codes "a") near_end ≡ some (b'x', [], r))
    × Ring.IsValid r
    × (queue r ≡ codes "a")
cons_getc_lem_example =
    cons_getc_lem 9 poll poll true (codes "a") [] [] (codes "a") [] near_end-IsValid
      ([], refl, refl) refl (omega arith) (omega arith) (omega arith)

take_char_lem_example : ((take_char near_end).0 ≡ b'x') × (queue (take_char near_end).1 ≡ [])
take_char_lem_example = take_char_lem near_end-IsValid

-- A keyboard on which nothing is typed for some polls.
abbrev slow : ℕ × List ℕ → Option ℕ × (ℕ × List ℕ)
slow (suc n, cs) = (none, (n, cs))
slow (zero, []) = (none, (0, []))
slow (zero, c ∷ cs) = (some c, (0, cs))

abbrev no_port : ℕ × List ℕ → Option ℕ × (ℕ × List ℕ)
no_port d = (none, d)

abbrev empty_ring : Cons
empty_ring = record { buf = replicate 512 0; rpos = 0; wpos = 0 }

empty_ring-IsValid : Ring.IsValid empty_ring
empty_ring-IsValid = record { storage = refl; read_in = omega arith; write_in = omega arith }

getchar_lem_example :
    (r : Cons) × (getchar no_port slow false 9 9 (2, codes "ab") empty_ring
      ≡ some (b'a', (0, []), r))
    × Ring.IsValid r
    × (queue r ≡ codes "b")
getchar_lem_example =
    getchar_lem no_port slow false 2 9 9 (2, codes "ab") (0, codes "ab") (0, codes "ab") (0, []) []
      (codes "ab") empty_ring-IsValid refl
      (
        (2, codes "ab"),
        (1, codes "ab"),
        (refl, refl),
        refl,
        ((1, codes "ab"), (0, codes "ab"), (refl, refl), refl, refl),
      )
      (refl, refl) ((0, codes "b"), refl, ((0, []), refl, refl)) (omega arith) (omega arith)
      (omega arith) (omega arith)

-- The devices are ready, and remember the last write.
abbrev ready : ℕ → ℕ → ℕ × ℕ
ready port d = (0xff, d)

abbrev write : ℕ → ℕ → ℕ → ℕ
write port v d = v

abbrev last_cell : Crt
last_cell = record { buf = replicate 2000 0x720; pos = 1999 }

last_cell-IsValid : Screen.IsValid last_cell
last_cell-IsValid = record { cells = refl; inside = omega arith }

cons_putc-IsValid_example : Screen.IsValid (cons_putc ready write 0x3d4 b'A' (0, last_cell)).1
cons_putc-IsValid_example =
    cons_putc-IsValid ready write 0x3d4 b'A' (0, last_cell) last_cell-IsValid

-- The keyboard has "ab": it is polled, and then `cons_getc` is called.
abbrev after_poll : Cons
after_poll = record { buf = set (set (replicate 512 0) 0 b'a') 1 b'b'; rpos = 0; wpos = 2 }

abbrev after_call : Cons
after_call = record after_poll { rpos = 1 }

polled : kbd_intr poll poll false 9 (codes "ab") empty_ring ≡ some ([], after_poll)
unfolding kbd_intr cons_intr put
polled = refl

typed_run :
    Runs poll poll false
      (codes "ab")
      empty_ring
      (came (codes "ab") ∷ came [] ∷ came [] ∷ got b'a' ∷ [])
      []
      after_call
unfolding cons_getc serial_intr kbd_intr cons_intr take_char put
typed_run =
    then_step
      (then_step start (kbd_polled 9 (codes "b", refl, ([], refl, refl)) (omega arith) polled))
      (called {c = b'a'} {cs1 = []} {cs2 = []} 9 [] (refl, refl) refl (omega arith) (omega arith)
        refl)

Runs-Accepts_example :
    Ring.IsValid after_call
    × Accepts (came (codes "ab") ∷ came [] ∷ came [] ∷ got b'a' ∷ []) [] (queue after_call)
Runs-Accepts_example = Runs-Accepts poll poll false typed_run empty_ring-IsValid

Runs-in_order_example : codes "ab" ≡ b'a' ∷ queue after_call
Runs-in_order_example =
    Runs-in_order poll poll false typed_run empty_ring-IsValid
      ((λ e. absurd (omega (arith, e))), ((λ e. absurd (omega (arith, e))), tt)) (omega arith)
