-- ===== src/Storage/Buffer/Shift.antt =====
-- `Buffer::shift`: the data moves to the front, and nothing else about it changes.
use kawa.Prelude.{
  ℕ, ◌+◌, ◌-◌, ◌^◌, ◌≤◌, ◌<◌, ◌≡◌, refl, sym, ap, ◌∙◌, inl, inr, none, some, arith, ◌==◌, lt→ltb,
  lt→leb, ==_iff, Bool-cases, max64, sub64, sub64-eq-sub, Bytes, length, take, drop, length-take,
  length-drop, take_cong, drop_cong, drop-drop, take-drop-append, take-drop-take,
}
use kawa.Storage.Span.{sub_span, sub_span-eq-some, overwrite, range-eq-some, length-overwrite}
use kawa.Storage.Buffer.{Buffer, shift, data_of, unparsed_data}
use mathlib.Core.Option
use kawa.Storage.Buffer.Valid.{IsValid}

-- The bytes that `data` returns on a valid buffer.
abbrev pub live : Buffer → Bytes
live b = take (b.end - b.start) (drop b.start b.buffer.bytes)

-- What `shift` leaves of a buffer with `start > 0`.
abbrev pub shifted : Buffer → Buffer
shifted b = record {
  start = 0;
  head = b.head - b.start;
  end = b.end - b.start;
  buffer = record (b.buffer) { bytes = overwrite b.buffer.bytes 0 (live b) };
}

pub length-live : (b : Buffer) → IsValid b → length (live b) ≡ b.end - b.start
length-live b v = omega (
  arith,
  v.end_capacity,
  v.head_end,
  v.start_head,
  length-take {0} (b.end - b.start) (drop b.start b.buffer.bytes),
  length-drop {0} b.start b.buffer.bytes,
)

pub data_of_lem : (b : Buffer) → IsValid b → data_of b ≡ some (live b)
unfolding data_of
data_of_lem b v = range-eq-some b.buffer.bytes b.start b.end (omega arith) v.end_capacity

pub shift-eq-shifted : (b : Buffer) → IsValid b → 0 < b.start → shift b ≡ some (shifted b, b.start)
unfolding shift
shift-eq-shifted b v h =
    rw (lt→ltb 0 b.start h, sub64-eq-sub b.end b.start ends (omega arith))
      (rw (range-eq-some b.buffer.bytes b.start b.end (omega arith) v.end_capacity) (
        rw (range-eq-some b.buffer.bytes 0 (b.end - b.start) (omega arith) (omega arith))
          (rw (sub64-eq-sub b.head b.start (omega arith) (omega arith)))))
  where
    ends : b.end < max64
    ends = omega (arith, v.placed.small)

pub shift-zero : (b : Buffer) → b.start ≡ 0 → shift b ≡ some (b, b.start)
unfolding shift
shift-zero b e = ground arith

pub capacity-shifted :
    (b : Buffer) → IsValid b → length (shifted b).buffer.bytes ≡ length b.buffer.bytes
capacity-shifted b v = length-overwrite b.buffer.bytes 0 (live b) (omega (arith, length-live b v))

pub shifted-IsValid : (b : Buffer) → IsValid b → IsValid (shifted b)
shifted-IsValid b v = record {
  placed = record { fits = rw same v.placed.fits; small = rw same v.placed.small };
  start_head = omega arith;
  head_end = omega arith;
  end_capacity = rw same (omega arith);
}
  where
    same : length (overwrite b.buffer.bytes 0 (live b)) ≡ length b.buffer.bytes
    same = capacity-shifted b v

-- Byte `start + i` of the buffer is byte `i` of the shifted one.
pub take-drop-shifted :
    (b : Buffer) (i n : ℕ)
    → IsValid b
    → b.start + (i + n) ≤ b.end
    → take n (drop i (shifted b).buffer.bytes) ≡ take n (drop (b.start + i) b.buffer.bytes)
unfolding overwrite
take-drop-shifted b i n v h =
    take-drop-append i n (live b) _ (omega (arith, length-live b v))
    ∙ take-drop-take i n (b.end - b.start) (drop b.start b.buffer.bytes) (omega arith)
    ∙ ap (take n) (drop-drop i b.start b.buffer.bytes)

abbrev pub KeepsData : Buffer → Buffer → Type 0
KeepsData b c =
    IsValid c
    × (c.start ≡ 0)
    × (c.head ≡ b.head - b.start)
    × (data_of c ≡ data_of b)
    × (Option.map (λ s. s.bytes) (unparsed_data c) ≡ Option.map (λ s. s.bytes) (unparsed_data b))

live-shifted : (b : Buffer) → IsValid b → live (shifted b) ≡ live b
live-shifted b v =
    take_cong {m = b.end - b.start - 0} {n = b.end - b.start} _ (omega arith)
    ∙ take-drop-shifted b 0 (b.end - b.start) v (omega arith)
    ∙ ap (take (b.end - b.start))
        (drop_cong {m = b.start + 0} {n = b.start} b.buffer.bytes (omega arith))

unparsed_bytes :
    (b : Buffer)
    → IsValid b
    → Option.map (λ s. s.bytes) (unparsed_data b)
      ≡ some (take (b.end - b.head) (drop b.head b.buffer.bytes))
unfolding unparsed_data
unparsed_bytes b v = rw (sub_span-eq-some b.buffer b.head b.end v.head_end v.end_capacity)

shifted-KeepsData : (b : Buffer) → IsValid b → KeepsData b (shifted b)
shifted-KeepsData b v = (
  shifted-IsValid b v,
  refl,
  refl,
  data_of_lem (shifted b) (shifted-IsValid b v)
      ∙ ap some (live-shifted b v)
      ∙ sym (data_of_lem b v),
  unparsed_bytes (shifted b) (shifted-IsValid b v) ∙ ap some unparsed ∙ sym (unparsed_bytes b v),
)
  where
    size : b.end - b.start - (b.head - b.start) ≡ b.end - b.head
    size = omega (arith, v.start_head, v.head_end)

    place : b.start + (b.head - b.start) ≡ b.head
    place = omega (arith, v.start_head)

    unparsed :
        take
          (b.end - b.start - (b.head - b.start))
          (drop (b.head - b.start) (shifted b).buffer.bytes)
        ≡ take (b.end - b.head) (drop b.head b.buffer.bytes)
    unparsed =
        take_cong _ size
        ∙ take-drop-shifted b (b.head - b.start) (b.end - b.head) v
            (omega (arith, v.start_head, v.head_end))
        ∙ ap (take (b.end - b.head)) (drop_cong b.buffer.bytes place)

-- On a valid buffer `shift` does not panic and returns how far it moved the data: `start`.
-- Afterwards the buffer is valid, starts at 0, and `data` and `unparsed_data` hold the bytes that
-- they held before.
pub shift_lem :
    (b : Buffer) → IsValid b → (c : Buffer) × (shift b ≡ some (c, b.start)) × KeepsData b c
shift_lem b v = elim (Bool-cases (b.start == 0)) [
  | inl z ↦
      let e : b.start ≡ 0 = (==_iff _ _).0 z in
      (b, shift-zero b e, (v, e, omega (arith, e), refl, refl))
  | inr n ↦
      let pos : 0 < b.start = ground arith in
      (shifted b, shift-eq-shifted b v pos, shifted-KeepsData b v)
]

-- With `head` before `start` the subtraction of `shift` wraps around, and `head` ends far behind
-- `end`.
module _ (b : Buffer) (small : length b.buffer.bytes < 2 ^ 63) (over : b.head < b.start)
    (ends : b.start ≤ b.end) (inside : b.end ≤ length b.buffer.bytes) where
  abbrev pub overtaken : Buffer
  overtaken = record (shifted b) { head = max64 + b.head - b.start }

  pub shift-overtaken : shift b ≡ some (overtaken, b.start)
  unfolding shift
  shift-overtaken =
      rw (lt→ltb 0 b.start (omega arith), sub64-eq-sub b.end b.start (omega arith) ends)
        (rw (range-eq-some b.buffer.bytes b.start b.end ends inside) (
          rw (range-eq-some b.buffer.bytes 0 (b.end - b.start) (omega arith) (omega arith))
            (rw wrapped)))
    where
      wrapped : sub64 b.head b.start ≡ max64 + b.head - b.start
      wrapped = omega arith

  pub unparsed_data-overtaken : unparsed_data overtaken ≡ none
  unfolding unparsed_data sub_span
  unparsed_data-overtaken = rw (lt→leb (max64 + b.head - b.start) (b.end - b.start) (omega arith))
