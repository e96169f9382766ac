-- ===== src/Prelude/Stopping.antt =====
-- Runs of code that may stop: on a panic, on a fault that the source leaves
-- undefined, or because its fuel ran out.
use mathlib.Core.Bool.{Bool, true, false}
use mathlib.Core.Option.{Option, none, some}

pub data Stop : Type 0 where
  panicked fault unfinished : Stop

pub data Run {ℓ} (A : Type ℓ) : Type ℓ where
  ok : A → Run A
  stopped : Stop → Run A

infixl 5 ◌>>=◌ ◌>>◌
abbrev pub ◌>>=◌ {ℓ κ} : {A : Type ℓ} {B : Type κ} → Run A → (A → Run B) → Run B
ok a >>= f = f a
stopped e >>= f = stopped e

abbrev pub ◌>>◌ {ℓ} : {B : Type ℓ} → Run (Unit {0}) → Run B → Run B
m >> k = m >>= λ _. k

-- `assert(x)`
abbrev pub assert : Bool → Run (Unit {0})
assert true = ok tt
assert false = stopped panicked

-- A part that takes fuel.
abbrev pub finished {ℓ} : {A : Type ℓ} → Option A → Run A
finished none = stopped unfinished
finished (some a) = ok a
