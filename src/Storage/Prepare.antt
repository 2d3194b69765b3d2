-- ===== src/Storage/Prepare.antt =====
-- The trait `BlockConverter` of `src/storage/mod.rs` and `Kawa::prepare`, which drives one.
use kawa.Prelude.{
  Run, done, panic, out_of_fuel, to_run, then_run, ℕ, zero, suc, Bool, true, false, Option, none,
  some, List, [], ◌∷◌,
}
use kawa.Storage.Repr.{Block}
use kawa.Storage.Kawa.{Kawa}

-- A converter with its own state `C`. Each method returns what it leaves of the state and of the
-- Kawa; `call` also whether to go on. `none` is a panic.
pub record BlockConverter (C : Type 0) : Type 0 where
  pub initialize : C → Kawa → Option (C × Kawa)
  pub call : C → Block → Kawa → Option (C × Kawa × Bool)
  pub finalize : C → Kawa → Option (C × Kawa)

-- The default methods of the trait.
abbrev pub keep : {C : Type 0} → C → Kawa → Option (C × Kawa)
keep c k = some (c, k)

-- `blocks.pop_front()`
unfoldable pub pop_block : Kawa → List Block → Option (Block × Kawa)
pop_block k [] = none
pop_block k (b ∷ blocks) = some (b, record k { blocks = blocks })

-- A converter may push blocks while the loop pops them, so the loop takes fuel.
module _ {C : Type 0} (conv : BlockConverter C) where
  unfoldable pub prepare_loop : ℕ → C → Kawa → Run (C × Kawa)
  prepare_loop zero c k = out_of_fuel
  prepare_loop (suc fuel) c k = elim (pop_block k k.blocks) [
    | none ↦ done (c, k)
    | some (b, k') ↦ elim (conv.call c b k') [
      | none ↦ panic
      | some (c', k'', more) ↦ elim more [
        | true ↦ prepare_loop fuel c' k''
        | false ↦ done (c', k'')
      ]
    ]
  ]

  unfoldable pub prepare : ℕ → C → Kawa → Run (C × Kawa)
  unfolding prepare_loop
  prepare fuel c k =
      then_run (to_run (conv.initialize c k))
        (λ s. then_run (prepare_loop fuel s.0 s.1) (λ t. to_run (conv.finalize t.0 t.1)))
