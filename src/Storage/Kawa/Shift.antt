-- ===== src/Storage/Kawa/Shift.antt =====
-- The output queue when the buffer under it is shifted.
-- is not visible.
use kawa.Prelude.{
  ℕ, ◌+◌, ◌-◌, ◌≤◌, ◌≡◌, refl, sym, ap₂, subst, inl, inr, Option, none, some, List, [], ◌∷◌, ◌++◌,
  map, arith, Option-cases, sub32-eq-sub, length,
}
use kawa.Storage.Buffer.{Buffer}
use kawa.Storage.Buffer.Valid.{IsValid}
use kawa.Storage.Buffer.Shift.{shifted}
use kawa.Storage.Slice.{Slice}
use kawa.Storage.Store
use kawa.Storage.Store.{Store, empty, slice, detached, static, alloc, shared}
use kawa.Storage.Store.Content.{Fits}
use kawa.Storage.Store.Place.{Placed, next_place}
use kawa.Storage.Store.Modify.{push_left_lem, InData}
use kawa.Storage.OutBlock
use kawa.Storage.OutBlock.{OutBlock, delimiter, store}
use kawa.Storage.Kawa.Stream.{stream, OutFits, InOrder}
use kawa.Storage.Kawa.{Kawa, first_slice, leftmost_ref}

InOrder-le : (out : List OutBlock) (lo hi : ℕ) → InOrder lo hi out → lo ≤ hi
InOrder-le [] lo hi o = o
InOrder-le (delimiter ∷ out) lo hi o = InOrder-le out lo hi o
InOrder-le (store empty ∷ out) lo hi o = InOrder-le out lo hi o.1
InOrder-le (store (slice s) ∷ out) lo hi o =
    omega (arith, o.0, InOrder-le out (s.start + s.len) hi o.1)
InOrder-le (store (detached s) ∷ out) lo hi o = absurd o.0
InOrder-le (store (static bytes) ∷ out) lo hi o = InOrder-le out lo hi o.1
InOrder-le (store (alloc bytes index) ∷ out) lo hi o = InOrder-le out lo hi o.1
InOrder-le (store (shared bytes index) ∷ out) lo hi o = InOrder-le out lo hi o.1

-- Where the first slice starts, or `hi` if there is none.
abbrev pub first_place : ℕ → Option Slice → ℕ
first_place hi none = hi
first_place hi (some s) = s.start

-- In an ordered queue the first slice is the leftmost one.
pub first_place_lem :
    (out : List OutBlock) (lo hi : ℕ)
    → InOrder lo hi out
    → let m = first_place hi (first_slice out) in (lo ≤ m) × (m ≤ hi) × InOrder m hi out
unfolding first_slice
first_place_lem [] lo hi o = (o, omega arith, omega arith)
first_place_lem (delimiter ∷ out) lo hi o = first_place_lem out lo hi o
first_place_lem (store (slice s) ∷ out) lo hi o =
    (o.0, omega (arith, InOrder-le out (s.start + s.len) hi o.1), (omega arith, o.1))
first_place_lem (store (detached s) ∷ out) lo hi o = absurd o.0
first_place_lem (store empty ∷ out) lo hi o =
    let (a, b, c) = first_place_lem out lo hi o.1 in (a, b, (tt, c))
first_place_lem (store (static bytes) ∷ out) lo hi o =
    let (a, b, c) = first_place_lem out lo hi o.1 in (a, b, (tt, c))
first_place_lem (store (alloc bytes index) ∷ out) lo hi o =
    let (a, b, c) = first_place_lem out lo hi o.1 in (a, b, (tt, c))
first_place_lem (store (shared bytes index) ∷ out) lo hi o =
    let (a, b, c) = first_place_lem out lo hi o.1 in (a, b, (tt, c))

pub leftmost_ref-eq-first_place :
    (k : Kawa) → k.blocks ≡ [] → leftmost_ref k ≡ first_place k.storage.head (first_slice k.out)
unfolding leftmost_ref first_slice
leftmost_ref-eq-first_place k e = elim (Option-cases (first_slice k.out)) [
  | inl n ↦ ground arith
  | inr (s, n) ↦ ground arith
]

-- A store between `lo` and `hi` refers to the data of the buffer.
Placed-InData :
    (b : Buffer) (s : Store) (out : List OutBlock) (lo : ℕ)
    → IsValid b
    → b.start ≤ lo
    → InOrder lo b.head (store s ∷ out)
    → InData b s
Placed-InData b empty out lo v h o = tt
Placed-InData b (static bytes) out lo v h o = tt
Placed-InData b (alloc bytes index) out lo v h o = tt
Placed-InData b (shared bytes index) out lo v h o = tt
Placed-InData b (detached s) out lo v h o = absurd o.0
Placed-InData b (slice s) out lo v h o =
    (omega (arith, o.0), omega (arith, InOrder-le out (s.start + s.len) b.head o.1, v.head_end))

-- The place of a store after `push_left`.
push_left-Placed :
    (size a lo : ℕ) (s : Store)
    → Fits size s
    → a ≤ lo
    → Placed lo s
    → Placed (lo - a) (Store.push_left s a)
      × (next_place (lo - a) (Store.push_left s a) ≡ next_place lo s - a)
unfolding Store.push_left
push_left-Placed size a lo empty f h p = (tt, refl)
push_left-Placed size a lo (static bytes) f h p = (tt, refl)
push_left-Placed size a lo (alloc bytes index) f h p = (tt, refl)
push_left-Placed size a lo (shared bytes index) f h p = (tt, refl)
push_left-Placed size a lo (detached s) f h p = absurd p
push_left-Placed size a lo (slice s) f h p =
    let e = sub32-eq-sub s.start a f.start_word (omega arith) in
    (omega (arith, e), omega (arith, e))

-- What the queue stands for after the buffer `b` is shifted.
pub record Synced (b : Buffer) (lo : ℕ) (out moved : List OutBlock) : Type 0 where
  pub bytes : stream (shifted b).buffer.bytes moved ≡ stream b.buffer.bytes out
  pub fits : OutFits (length (shifted b).buffer.bytes) moved
  pub order : InOrder (lo - b.start) (b.head - b.start) moved

module _ (b : Buffer) (v : IsValid b) where
  next-le : (lo : ℕ) (s : Store) → Placed lo s → b.start ≤ lo → b.start ≤ next_place lo s
  next-le lo empty p h = h
  next-le lo (slice s) p h = omega arith
  next-le lo (detached s) p h = h
  next-le lo (static bytes) p h = h
  next-le lo (alloc bytes index) p h = h
  next-le lo (shared bytes index) p h = h

  -- `push_left` on every store of the queue makes up for the shift.
  pub push_left-Synced :
      (out : List OutBlock) (lo : ℕ)
      → b.start ≤ lo
      → OutFits (length b.buffer.bytes) out
      → InOrder lo b.head out
      → Synced b lo out (map (λ o. OutBlock.push_left o b.start) out)
  unfolding OutBlock.push_left
  push_left-Synced [] lo h f o = record { bytes = refl; fits = tt; order = omega arith }
  push_left-Synced (delimiter ∷ out) lo h f o =
      let ih = push_left-Synced out lo h f o in
      record { bytes = ih.bytes; fits = ih.fits; order = ih.order }
  push_left-Synced (store s ∷ out) lo h f o =
      let ih = push_left-Synced out (next_place lo s) (next-le lo s o.0 h) f.1 o.1 in
      let (same, fits, inside) = push_left_lem b s v f.0 (Placed-InData b s out lo v h o) in
      let (place, next) = push_left-Placed (length b.buffer.bytes) b.start lo s f.0 h o.0 in
      record {
        bytes = ap₂ ◌++◌ same ih.bytes;
        fits = (fits, ih.fits);
        order = (
          place,
          subst (λ z. InOrder z (b.head - b.start) (map (λ o. OutBlock.push_left o b.start) out))
              (sym next) ih.order,
        );
      }
