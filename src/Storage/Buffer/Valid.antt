-- ===== src/Storage/Buffer/Valid.antt =====
-- The invariant of `Buffer`, and how `fill`, `consume` and `clear` keep it.
use kawa.Prelude.{ℕ, ◌+◌, ◌-◌, ◌≤◌, min, ◌≡◌, ◌↔◌, arith, length}
use kawa.Storage.Span.{Span, IsPlaced}
use kawa.Storage.Buffer.{Buffer, new, capacity, fill, consume}

-- The picture in the source: `start`, `head` and `end` in this order inside the buffer.
pub record IsValid (b : Buffer) : Type 0 where
  pub placed : IsPlaced b.buffer
  pub start_head : b.start ≤ b.head
  pub head_end : b.head ≤ b.end
  pub end_capacity : b.end ≤ length b.buffer.bytes

pub new-IsValid : (s : Span) → IsPlaced s → IsValid (new s)
unfolding new
new-IsValid s p = ground arith

-- `fill` takes what fits behind `end`, moves `end` by what it returns, and keeps the invariant.
pub fill-IsValid :
    (b : Buffer) (count : ℕ)
    → IsValid b
    → IsValid (fill b count).0
      × ((fill b count).1 ≡ min count (capacity b - b.end))
      × ((fill b count).0.end ≡ b.end + (fill b count).1)
unfolding fill
fill-IsValid b count v = ground arith

pub consume_lem :
    (b : Buffer) (count : ℕ)
    → IsValid b
    → consume b count
      ≡ (record b { start = b.start + min count (b.end - b.start) }, min count (b.end - b.start))
unfolding consume
consume_lem b count v = ground arith

-- `consume` keeps the invariant exactly when what it takes ends at or before `head`.
pub consume-IsValid_iff :
    (b : Buffer) (count : ℕ)
    → IsValid b
    → IsValid (consume b count).0 ↔ (min count (b.end - b.start) ≤ b.head - b.start)
consume-IsValid_iff b count v = rw (consume_lem b count v) (
  (λ w. omega (arith, w.start_head, v.start_head)),
  (λ h. record {
    placed = v.placed;
    start_head = omega (arith, v.start_head);
    head_end = v.head_end;
    end_capacity = v.end_capacity;
  }),
)
