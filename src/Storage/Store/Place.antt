-- ===== src/Storage/Store/Place.antt =====
-- Where a store lies in the buffer, and that `Store::consume` keeps its end.
use kawa.Prelude.{
  ℕ, ◌+◌, ◌≤◌, ◌<◌, ◌≡◌, refl, inl, inr, Option, none, some, arith, leb, ltb→lt, Bool-cases, max64,
  max32, sub64, length,
}
use kawa.Storage.Slice.{consume_lem as slice_consume_lem}
use kawa.Storage.Store.Content.{Fits}
use kawa.Storage.Store.{
  Store, empty, slice, detached, static, alloc, shared, consume, consume_slice, consume_alloc,
}

-- A slice lies behind `lo`, and where it ends. A `Detached` has no place in the order.
abbrev pub Placed : ℕ → Store → Type 0
Placed lo (slice s) = lo ≤ s.start
Placed lo (detached s) = ⊥
Placed lo empty = Unit
Placed lo (static bytes) = Unit
Placed lo (alloc bytes index) = Unit
Placed lo (shared bytes index) = Unit

abbrev pub next_place : ℕ → Store → ℕ
next_place lo (slice s) = s.start + s.len
next_place lo (detached s) = lo
next_place lo empty = lo
next_place lo (static bytes) = lo
next_place lo (alloc bytes index) = lo
next_place lo (shared bytes index) = lo

abbrev pub KeepsPlace : ℕ → Store → Option Store → Type 0
KeepsPlace lo s none = Unit
KeepsPlace lo s (some t) = Placed lo t × (next_place lo t ≡ next_place lo s)

module _ (size : ℕ) (small : size < max32) (n : ℕ) (word : n < max64) (lo : ℕ) where
  -- What is left of a partly consumed store ends where the store ended.
  pub consume-KeepsPlace : (s : Store) → Fits size s → Placed lo s → KeepsPlace lo s (consume s n).1
  unfolding consume consume_slice consume_alloc
  consume-KeepsPlace empty f p = tt
  consume-KeepsPlace (slice s) f p =
      rw (slice_consume_lem s size n f small word) (elim (Bool-cases (leb s.len n)) [
        | inl all ↦ rw all tt
        | inr part ↦ rw part (omega arith, omega (arith, ltb→lt n s.len (ground arith)))
      ])
  consume-KeepsPlace (detached s) f p = absurd p
  consume-KeepsPlace (static bytes) f p = elim (Bool-cases (leb (length bytes) n)) [
    | inl all ↦ rw all tt
    | inr part ↦ rw part (tt, refl)
  ]
  consume-KeepsPlace (alloc bytes index) f p =
      elim (Bool-cases (leb (sub64 (length bytes) index) n)) [
        | inl all ↦ rw all tt
        | inr part ↦ rw part (tt, refl)
      ]
  consume-KeepsPlace (shared bytes index) f p =
      elim (Bool-cases (leb (sub64 (length bytes) index) n)) [
        | inl all ↦ rw all tt
        | inr part ↦ rw part (tt, refl)
      ]
