-- ===== src/Storage/Kawa/Consume.antt =====
-- `Kawa::consume`: the output stream loses its first bytes, and the shift of the buffer below it
-- is not visible.
use kawa.Prelude.{
  ℕ, ◌+◌, ◌-◌, ◌≤◌, ◌<◌, min, ◌≡◌, refl, ◌∙◌, subst, inl, inr, true, false, none, some, [], map,
  arith, ltb, ◌==◌, if◌then◌else◌, ==_iff, Bool-cases, max64, max32, sub64, to_u32, sub64-eq-sub,
  length, drop,
}
use mathlib.Core.Option
use kawa.Storage.Buffer
use kawa.Storage.Buffer.{Buffer}
use kawa.Storage.Buffer.Valid.{IsValid, consume_lem as buffer_consume_lem}
use kawa.Storage.Buffer.Shift.{shifted, shift-eq-shifted, shifted-IsValid, capacity-shifted}
use kawa.Storage.OutBlock
use kawa.Storage.OutBlock.{OutBlock, delimiter, store}
use kawa.Storage.Kawa.Stream.{stream, OutFits, InOrder, Remains, consume_out_lem}
use kawa.Storage.Kawa.{Kawa, first_slice, leftmost_ref, consume_out, reclaim, consume, push_left}
use kawa.Storage.Kawa.Shift.{
  first_place, first_place_lem, leftmost_ref-eq-first_place, Synced, push_left-Synced,
}

-- A Kawa whose output can be sent: all blocks are converted, the slices of the output lie in
-- order in the parsed part of the data, and offsets fit a `u32`.
pub record IsSendable (k : Kawa) : Type 0 where
  pub storage : IsValid k.storage
  pub small : length k.storage.buffer.bytes < max32
  pub converted : k.blocks ≡ []
  pub fits : OutFits (length k.storage.buffer.bytes) k.out
  pub order : InOrder k.storage.start k.storage.head k.out

abbrev Reclaimed : Kawa → Kawa → Type 0
Reclaimed k j =
    IsSendable j × (stream j.storage.buffer.bytes j.out ≡ stream k.storage.buffer.bytes k.out)

-- The state between the two halves of `reclaim`.
module _ (k : Kawa) (w : IsSendable k) where
  left : ℕ
  left = first_place k.storage.head (first_slice k.out)

  advanced : Kawa
  advanced = record k { storage = record (k.storage) { start = left } }

  advanced-IsSendable : IsSendable advanced
  unfolding advanced left
  advanced-IsSendable =
      let (a, b, c) = first_place_lem k.out k.storage.start k.storage.head w.order in
      record {
        storage = record {
          placed = w.storage.placed;
          start_head = b;
          head_end = w.storage.head_end;
          end_capacity = w.storage.end_capacity;
        };
        small = w.small;
        converted = w.converted;
        fits = w.fits;
        order = c;
      }

  storage-consume :
      (Buffer.consume k.storage (sub64 (leftmost_ref k) k.storage.start)).0 ≡ advanced.storage
  unfolding advanced left
  storage-consume =
      let (a, b, c) = first_place_lem k.out k.storage.start k.storage.head w.order in
      let h = w.storage.head_end in
      let e : sub64 left k.storage.start ≡ left - k.storage.start =
        sub64-eq-sub left k.storage.start
          (omega (arith, w.storage.placed.small, w.storage.end_capacity)) a in
      let at : k.storage.start + min (left - k.storage.start) (k.storage.end - k.storage.start)
          ≡ left =
        omega arith in
      rw (
        leftmost_ref-eq-first_place k w.converted,
        e,
        buffer_consume_lem k.storage (left - k.storage.start) w.storage,
        at,
      )

shift_needs_start : (b : Buffer) → Buffer.should_shift b ≡ true → 0 < b.start
unfolding Buffer.should_shift
shift_needs_start b h = ground arith

-- Shifting the buffer and moving the queue along changes nothing that can be seen.
shift-Reclaimed :
    (k : Kawa)
    → IsSendable k
    → 0 < k.storage.start
    → (j : Kawa) × (Option.map
          (λ r. push_left (record k { storage = r.0 }) (to_u32 r.1))
          (Buffer.shift k.storage)
        ≡ some j)
      × Reclaimed k j
unfolding push_left
shift-Reclaimed k w pos = (
  record k {
    storage = shifted k.storage;
    out = map (λ o. OutBlock.push_left o k.storage.start) k.out;
  },
  rw (shift-eq-shifted k.storage w.storage pos, word),
  (
    record {
      storage = shifted-IsValid k.storage w.storage;
      small = rw (capacity-shifted k.storage w.storage) w.small;
      converted = w.converted;
      fits = moved.fits;
      order =
          subst
            (λ z.
              InOrder z (k.storage.head - k.storage.start)
                (map (λ o. OutBlock.push_left o k.storage.start) k.out))
            zero_start moved.order;
    },
    moved.bytes,
  ),
)
  where
    word : to_u32 k.storage.start ≡ k.storage.start
    word = omega (arith, w.small, w.storage.start_head, w.storage.head_end, w.storage.end_capacity)

    zero_start : k.storage.start - k.storage.start ≡ 0
    zero_start = omega arith

    moved :
        Synced k.storage k.storage.start k.out
          (map (λ o. OutBlock.push_left o k.storage.start) k.out)
    moved = push_left-Synced k.storage w.storage k.out k.storage.start (omega arith) w.fits w.order

reclaim_lem : (k : Kawa) → IsSendable k → (j : Kawa) × (reclaim k ≡ some j) × Reclaimed k j
unfolding reclaim advanced
reclaim_lem k w =
    rw (storage-consume k w) (elim (Bool-cases (Buffer.should_shift (advanced k w).storage)) [
      | inl yes_shift ↦ rw yes_shift (
          shift-Reclaimed (advanced k w) (advanced-IsSendable k w)
            (shift_needs_start (advanced k w).storage yes_shift))
      | inr no_shift ↦ rw no_shift (advanced k w, refl, (advanced-IsSendable k w, refl))
    ])

module _ (k : Kawa) (amount : ℕ) (w : IsSendable k) (word : amount < max64) where
  queue :
      Remains k.storage.buffer.bytes k.storage.start k.storage.head k.out amount
        (consume_out k.out amount)
  queue =
      consume_out_lem k.storage.buffer.bytes w.small k.storage.head k.out k.storage.start amount
        word w.fits w.order

  -- `consume` of at most as many bytes as are queued does not panic, and the output can still be
  -- sent: the bytes queued are those from before without the first `amount`, although the buffer
  -- may have been shifted.
  pub consume_drops :
      amount ≤ length (stream k.storage.buffer.bytes k.out)
      → (j : Kawa) × (consume k amount ≡ some j)
        × IsSendable j
        × (stream j.storage.buffer.bytes j.out ≡ drop amount (stream k.storage.buffer.bytes k.out))
  unfolding consume
  consume_drops le =
      let z : ((consume_out k.out amount).1 == 0) ≡ true =
        (==_iff _ 0).1 (omega (arith, queue.left)) in
      let (j, e, both) =
        reclaim_lem
          (record k {
            out = (consume_out k.out amount).0;
            consumed = if ltb 0 amount then true else k.consumed;
          })
          (record {
            storage = w.storage;
            small = w.small;
            converted = w.converted;
            fits = queue.fits;
            order = queue.order;
          }) in
      (j, rw z e, both.0, both.1 ∙ queue.bytes)

  -- `consume` of more bytes than are queued panics.
  pub consume_overrun :
      length (stream k.storage.buffer.bytes k.out) < amount → consume k amount ≡ none
  unfolding consume
  consume_overrun lt =
      let z : ((consume_out k.out amount).1 == 0) ≡ false = ground (arith, queue.left) in rw z
