-- ===== src/Storage/Store/Modify.antt =====
-- `Store::modify` and `Store::push_left`: changes of the buffer below a store.
use kawa.Prelude.{
  ℕ, ◌+◌, ◌-◌, ◌≤◌, ◌≡◌, refl, sym, ap, ◌∙◌, ◌⊎◌, inl, inr, some, arith, leb, leb→le, le→leb,
  Bool-cases, add64, sub32, to_u32, sub32-eq-sub, Bytes, length, take, drop, drop_cong, take_prefix,
  drop_prefix, drop-drop, take-drop-take,
}
use kawa.Storage.Span.{overwrite, range-eq-some, length-overwrite, take-overwrite, drop-overwrite}
use kawa.Storage.Slice.{Slice, IsInside, window}
use kawa.Storage.Buffer.{Buffer}
use kawa.Storage.Buffer.Valid.{IsValid}
use kawa.Storage.Buffer.Shift.{shifted, take-drop-shifted, capacity-shifted}
use kawa.Storage.Store.Content.{content, Fits}
use kawa.Storage.Store.{
  Store, empty, slice, detached, static, alloc, shared, modify, modify_slice, push_left,
}

-- The bytes that `t` refers to are none of those of `s`.
abbrev pub Apart : Slice → Store → Type 0
Apart t (slice s) = (t.start + t.len ≤ s.start) ⊎ (s.start + s.len ≤ t.start)
Apart t (detached s) = (t.start + t.len ≤ s.start) ⊎ (s.start + s.len ≤ t.start)
Apart t empty = Unit
Apart t (static bytes) = Unit
Apart t (alloc bytes index) = Unit
Apart t (shared bytes index) = Unit

-- `modify` left the buffer `buf'` and the store `s'`.
abbrev pub Modified : Bytes → Store → Bytes → Bytes × Store → Type 0
Modified buf s value (buf', s') =
    (content buf' s' ≡ value)
    × (length buf' ≡ length buf)
    × ((t : Slice) → Apart t s → IsInside (length buf) t → window buf' t ≡ window buf t)

window-overwrite :
    (buf value : Bytes) (at : ℕ) (t : Slice)
    → at + length value ≤ length buf
    → (t.start + t.len ≤ at) ⊎ (at + length value ≤ t.start)
    → window (overwrite buf at value) t ≡ window buf t
window-overwrite buf value at t h (inl left) =
    sym (take-drop-take t.start t.len at (overwrite buf at value) left)
    ∙ ap (λ z. take t.len (drop t.start z)) (take-overwrite buf at value (omega arith))
    ∙ take-drop-take t.start t.len at buf left
window-overwrite buf value at t h (inr right) = ap (take t.len) (
    drop_cong {m = t.start} {n = at + (t.start - at)} (overwrite buf at value) (omega arith)
    ∙ sym (drop-drop (t.start - at) at (overwrite buf at value))
    ∙ ap (drop (t.start - at)) (drop-overwrite buf at value (omega arith))
    ∙ drop_cong {m = t.start - at} {n = length value + (t.start - at - length value)} _
        (omega arith)
    ∙ sym (drop-drop (t.start - at - length value) (length value) _)
    ∙ ap (drop (t.start - at - length value)) (drop_prefix (length value) value _ refl)
    ∙ drop-drop (t.start - at - length value) (at + length value) buf
    ∙ drop_cong {m = at + length value + (t.start - at - length value)} {n = t.start} buf
        (omega arith))

modify_slice_lem :
    (keep : Slice → Store)
    → ((bytes : Bytes) (s : Slice) → content bytes (keep s) ≡ window bytes s)
    → (s : Slice) (buf value : Bytes) → IsInside (length buf) s
    → ((t : Slice) → Apart t (keep s) → (t.start + t.len ≤ s.start) ⊎ (s.start + s.len ≤ t.start))
    → (p : Bytes × Store) × (modify_slice keep s buf value ≡ some p) × Modified buf (keep s) value p
unfolding modify_slice
modify_slice_lem keep kc s buf value h apart = elim (Bool-cases (leb (length value) s.len)) [
  | inl fits ↦ in_place (leb→le _ _ fits)
  | inr long ↦ ((buf, alloc value 0), rw long, (refl, refl, λ t a i. refl))
]
  where
    start : Slice
    start = record { start = s.start; len = length value }

    in_place :
        length value ≤ s.len
        → (p : Bytes × Store) × (modify_slice keep s buf value ≡ some p)
          × Modified buf (keep s) value p
    in_place le = (
      (overwrite buf s.start value, keep start),
      unfold modify_slice in
          rw (
            le→leb _ _ le,
            stop,
            range-eq-some buf s.start (s.start + length value) (omega arith)
                (omega (arith, h.inside)),
            word,
          ),
      (
        kc _ start
            ∙ ap (take (length value)) (drop-overwrite buf s.start value (omega (arith, h.inside)))
            ∙ take_prefix (length value) value _ refl,
        length-overwrite buf s.start value (omega (arith, h.inside)),
        λ t a i.
            window-overwrite buf value s.start t (omega (arith, h.inside))
              (omega (arith, apart t a)),
      ),
    )
      where
        stop : add64 s.start (length value) ≡ s.start + length value
        stop = omega (arith, h.start_word, h.len_word)

        word : to_u32 (length value) ≡ length value
        word = omega (arith, h.len_word)

modify_lem :
    (s : Store) (buf value : Bytes)
    → Fits (length buf) s
    → (p : Bytes × Store) × (modify s buf value ≡ some p) × Modified buf s value p
unfolding modify
modify_lem (slice s) buf value h = modify_slice_lem slice (λ b s. refl) s buf value h (λ t a. a)
modify_lem (detached s) buf value h =
    modify_slice_lem detached (λ b s. refl) s buf value h (λ t a. a)
modify_lem empty buf value h = ((buf, alloc value 0), refl, (refl, refl, λ t a i. refl))
modify_lem (static bytes) buf value h = ((buf, alloc value 0), refl, (refl, refl, λ t a i. refl))
modify_lem (alloc bytes index) buf value h =
    ((buf, alloc value 0), refl, (refl, refl, λ t a i. refl))
modify_lem (shared bytes index) buf value h =
    ((buf, alloc value 0), refl, (refl, refl, λ t a i. refl))

-- `modify` of a store that fits does not panic. Afterwards the store stands for the new value, the
-- buffer has its length, and a slice that lies in the buffer apart from the store's bytes still
-- stands for what it stood for.
pub modify_writes :
    (s : Store) (buf value : Bytes) (t : Slice)
    → Fits (length buf) s
    → Apart t s
    → IsInside (length buf) t
    → (p : Bytes × Store) × (modify s buf value ≡ some p)
      × (content p.0 p.1 ≡ value)
      × (length p.0 ≡ length buf)
      × (window p.0 t ≡ window buf t)
modify_writes s buf value t f a i =
    let (p, e, m) = modify_lem s buf value f in (p, e, m.0, m.1, m.2 t a i)

-- A store refers only to data between `start` and `end`.
abbrev pub InData : Buffer → Store → Type 0
InData b (slice s) = (b.start ≤ s.start) × (s.start + s.len ≤ b.end)
InData b (detached s) = (b.start ≤ s.start) × (s.start + s.len ≤ b.end)
InData b empty = Unit
InData b (static bytes) = Unit
InData b (alloc bytes index) = Unit
InData b (shared bytes index) = Unit

push_left_slice :
    (b : Buffer) (s : Slice)
    → IsValid b
    → IsInside (length b.buffer.bytes) s
    → (b.start ≤ s.start) × (s.start + s.len ≤ b.end)
    → let t = record s { start = sub32 s.start b.start } in
      (window (shifted b).buffer.bytes t ≡ window b.buffer.bytes s)
      × IsInside (length (shifted b).buffer.bytes) t
      × (0 ≤ t.start)
      × (t.start + t.len ≤ b.end - b.start)
push_left_slice b s v h (left, right) =
    rw (sub32-eq-sub s.start b.start h.start_word left, capacity-shifted b v)
      (
        take-drop-shifted b (s.start - b.start) s.len v (omega arith)
            ∙ ap (take s.len) (drop_cong b.buffer.bytes (omega arith)),
        record {
          inside = omega (arith, h.inside);
          start_word = omega (arith, h.start_word);
          len_word = h.len_word;
        },
        omega arith,
        omega arith,
      )

-- After a shift of the buffer `push_left` by the same amount keeps what the store stands for, and
-- keeps it in the data.
pub push_left_lem :
    (b : Buffer) (s : Store)
    → IsValid b
    → Fits (length b.buffer.bytes) s
    → InData b s
    → (content (shifted b).buffer.bytes (push_left s b.start) ≡ content b.buffer.bytes s)
      × Fits (length (shifted b).buffer.bytes) (push_left s b.start)
      × InData (shifted b) (push_left s b.start)
unfolding push_left
push_left_lem b empty v f d = (refl, tt, tt)
push_left_lem b (static bytes) v f d = (refl, f, tt)
push_left_lem b (alloc bytes index) v f d = (refl, f, tt)
push_left_lem b (shared bytes index) v f d = (refl, f, tt)
push_left_lem b (slice s) v f d =
    let (same, fits, left, right) = push_left_slice b s v f d in (same, fits, (left, right))
push_left_lem b (detached s) v f d =
    let (same, fits, left, right) = push_left_slice b s v f d in (same, fits, (left, right))
