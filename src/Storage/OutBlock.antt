-- ===== src/Storage/OutBlock.antt =====
-- `OutBlock` of `src/storage/repr.rs`: what a converter queues for sending.
use kawa.Prelude.{ℕ, Option, none}
use kawa.Storage.Store
use kawa.Storage.Store.{Store}

pub data OutBlock : Type 0 where
  delimiter : OutBlock
  store : Store → OutBlock

unfoldable pub push_left : OutBlock → ℕ → OutBlock
push_left (store s) amount = store (Store.push_left s amount)
push_left delimiter amount = delimiter

unfoldable pub consume : OutBlock → ℕ → ℕ × Option Store
consume (store s) amount = Store.consume s amount
consume delimiter amount = (amount, none)
