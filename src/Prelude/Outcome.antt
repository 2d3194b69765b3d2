-- ===== src/Prelude/Outcome.antt =====
-- Runs of code that may panic and, where the model gives a loop fuel, not end.
use mathlib.Core.Option.{Option, none, some}

-- A run that may panic or, on fuel, not end.
pub data Run (A : Type 0) : Type 0 where
  done : A → Run A
  panic : Run A
  out_of_fuel : Run A

abbrev pub to_run : {A : Type 0} → Option A → Run A
to_run none = panic
to_run (some a) = done a

abbrev pub then_run : {A B : Type 0} → Run A → (A → Run B) → Run B
then_run (done a) f = f a
then_run panic f = panic
then_run out_of_fuel f = out_of_fuel
