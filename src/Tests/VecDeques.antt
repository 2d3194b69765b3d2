-- ===== src/Tests/VecDeques.antt =====
-- Rings of four slots, one that wraps around and one that is empty.
use kawa.Prelude.{ℕ, ◌+◌, ◌≡◌, refl, Option, none, some, List, [], ◌∷◌, arith, length}
use kawa.Storage.VecDeque.{VecDeque, with_capacity, as_slices}
use kawa.Storage.VecDeque.Ring.{IsLaid, IsRing}
use kawa.Storage.VecDeque.Slices.{as_slices_stale}
use kawa.Storage.VecDeque.Refine.{
  Op, to_back, to_front, from_back, drained, reserved, call_run, spec_run, run_refines,
}

abbrev wrapped : VecDeque ℕ
wrapped = record { tail = 2; head = 1; cap = 4; len = 2; ptr = some 8 ∷ none ∷ none ∷ some 7 ∷ [] }

wrapped-IsLaid : IsLaid wrapped (7 ∷ 8 ∷ [])
wrapped-IsLaid = record {
  exponent = 2;
  power = refl;
  two = omega arith;
  small = omega arith;
  allocated = refl;
  counted = refl;
  fits = omega arith;
  tail_in = omega arith;
  head_at = refl;
  holds = (refl, (refl, tt));
}

wrapped-IsRing : IsRing wrapped (7 ∷ 8 ∷ [])
wrapped-IsRing = record { laid = wrapped-IsLaid; room = omega arith }

abbrev used_up : VecDeque ℕ
used_up = record { tail = 0; head = 1; cap = 4; len = 0; ptr = some 5 ∷ some 6 ∷ none ∷ none ∷ [] }

used_up-IsLaid : IsLaid used_up []
used_up-IsLaid = record {
  exponent = 2;
  power = refl;
  two = omega arith;
  small = omega arith;
  allocated = refl;
  counted = refl;
  fits = omega arith;
  tail_in = omega arith;
  head_at = refl;
  holds = tt;
}

abbrev calls : List (Op ℕ)
calls = to_back 1 ∷ to_front 2 ∷ reserved 5 ∷ from_back ∷ drained ∷ []

run_refines_example :
    (q q' : VecDeque ℕ) × (with_capacity 100 4 ≡ some q)
    × (call_run 100 calls q ≡ some (q', (spec_run calls []).1))
    × IsRing q' (spec_run calls []).0
run_refines_example =
    run_refines 100 10 (omega arith) (omega arith) 1 calls (omega arith)
      (omega arith, (omega arith, (omega arith, (omega arith, (omega arith, tt))))) (omega arith)

as_slices_stale_example :
    (front : List (Option ℕ)) × (back : List (Option ℕ)) × (as_slices used_up ≡ some (front, back))
    × (length front + length back ≡ used_up.cap)
as_slices_stale_example = as_slices_stale used_up used_up-IsLaid (omega arith)
