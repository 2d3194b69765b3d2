-- ===== src/Storage/Buffer/Transfer.antt =====
-- `io::Write` and `io::Read` of `Buffer`.
use kawa.Prelude.{
  ℕ, ◌+◌, ◌-◌, ◌^◌, ◌≤◌, ◌<◌, min, ◌≡◌, refl, sym, ap, ◌∙◌, ◌↔◌, inl, inr, none, some, ◌++◌,
  append_assoc, arith, leb, leb→le, Bool-cases, max64, add64, sub64, sub64-eq-sub, Bytes, length,
  take, drop, length-append, length-take, length-drop, take_cong, drop_cong, take_zero, take_prefix,
  take_all, drop_all, drop-drop, take-take, drop-take, drop-append_of_le,
}
use kawa.Storage.Span.{overwrite, range-eq-some, length-overwrite}
use kawa.Storage.Buffer.{Buffer, write, read, space, capacity, unparsed_data, shift}
use kawa.Storage.Buffer.Valid.{IsValid}
use kawa.Storage.Buffer.Shift.{
  live, length-live, overtaken, shift-overtaken, unparsed_data-overtaken,
}

-- What `write` leaves when `size` bytes fit.
abbrev written : Buffer → Bytes → Buffer
written b copied = record b {
  end = b.end + length copied;
  buffer = record (b.buffer) { bytes = overwrite b.buffer.bytes b.end copied };
}

written-IsValid :
    (b : Buffer) (copied : Bytes)
    → IsValid b
    → length copied ≤ capacity b - b.end
    → IsValid (written b copied)
written-IsValid b copied v h = record {
  placed = record { fits = rw same v.placed.fits; small = rw same v.placed.small };
  start_head = v.start_head;
  head_end = omega (arith, v.head_end);
  end_capacity = rw same (omega (arith, v.end_capacity));
}
  where
    same : length (overwrite b.buffer.bytes b.end copied) ≡ length b.buffer.bytes
    same = length-overwrite b.buffer.bytes b.end copied (omega (arith, v.end_capacity))

live-written :
    (b : Buffer) (copied : Bytes)
    → IsValid b
    → length copied ≤ capacity b - b.end
    → live (written b copied) ≡ live b ++ copied
unfolding overwrite
live-written b copied v h =
    ap (take (b.end + length copied - b.start)) (
      drop-append_of_le b.start (take b.end b.buffer.bytes) _ (
        omega
          (arith, v.start_head, v.head_end, v.end_capacity, length-take {0} b.end b.buffer.bytes))
      ∙ ap (λ z. z ++ (copied ++ rest)) (drop-take b.start b.end b.buffer.bytes)
      ∙ sym (append_assoc (live b) copied rest))
    ∙ take_prefix _ (live b ++ copied) rest (
        omega (
          arith,
          length-append {0} (live b) copied,
          length-live b v,
          v.start_head,
          v.head_end,
          v.end_capacity,
        ))
  where
    rest : Bytes
    rest = drop (b.end + length copied) b.buffer.bytes

write-eq-written :
    (b : Buffer) (buf : Bytes)
    → IsValid b
    → write b buf
      ≡ some (
        written b (take (min (length buf) (capacity b - b.end)) buf),
        min (length buf) (capacity b - b.end),
      )
unfolding write space
write-eq-written b buf v =
    rw (range-eq-some b.buffer.bytes b.end (capacity b) v.end_capacity (omega arith))
      (rw (free, fits) refl)
  where
    free : length (take (capacity b - b.end) (drop b.end b.buffer.bytes)) ≡ capacity b - b.end
    free = omega (
      arith,
      length-take {0} (capacity b - b.end) (drop b.end b.buffer.bytes),
      length-drop {0} b.end b.buffer.bytes,
    )

    size : ℕ
    size = min (length buf) (capacity b - b.end)

    copied : length (take size buf) ≡ size
    copied = omega (arith, length-take {0} size buf)

    same : length (overwrite b.buffer.bytes b.end (take size buf)) ≡ length b.buffer.bytes
    same =
        length-overwrite b.buffer.bytes b.end (take size buf)
          (omega (arith, copied, v.end_capacity))

    fits :
        add64 b.end
          (min size (sub64 (length (overwrite b.buffer.bytes b.end (take size buf))) b.end))
        ≡ b.end + length (take size buf)
    fits = omega (arith, copied, same, v.end_capacity, v.placed.small)

read_lem :
    (b : Buffer) (n : ℕ)
    → IsValid b
    → read b n
      ≡ some (
        record b { start = b.start + min (b.end - b.start) n },
        take n (live b),
        min (b.end - b.start) n,
      )
unfolding read
read_lem b n v =
    rw (sub64-eq-sub b.end b.start (omega (arith, v.placed.small)) (omega (arith, v.start_head))) (
      rw stop (
        rw
          (range-eq-some b.buffer.bytes b.start (b.start + len) (omega arith)
            (omega (arith, v.end_capacity, v.start_head, v.head_end)))
          (rw copied)))
  where
    len : ℕ
    len = min (b.end - b.start) n

    stop : add64 b.start len ≡ b.start + len
    stop = omega (arith, v.placed.small, v.end_capacity, v.start_head, v.head_end)

    copied : take (b.start + len - b.start) (drop b.start b.buffer.bytes) ≡ take n (live b)
    copied =
        take_cong {m = b.start + len - b.start} {n = min n (b.end - b.start)} _ (omega arith)
        ∙ sym (take-take n (b.end - b.start) (drop b.start b.buffer.bytes))

-- `write` does not panic on a valid buffer. It takes the bytes that fit behind `end`, appends
-- exactly these to the data, keeps the invariant and returns their number.
pub write_appends :
    (b : Buffer) (buf : Bytes)
    → IsValid b
    → (c : Buffer) × (write b buf ≡ some (c, min (length buf) (capacity b - b.end)))
      × IsValid c
      × (live c ≡ live b ++ take (capacity b - b.end) buf)
      × (c.end ≡ b.end + min (length buf) (capacity b - b.end))
write_appends b buf v = (
  written b copied,
  write-eq-written b buf v,
  written-IsValid b copied v fits,
  live-written b copied v fits ∙ ap (λ z. live b ++ z) (sym same),
  omega (arith, length-take {0} size buf),
)
  where
    size : ℕ
    size = min (length buf) (capacity b - b.end)

    copied : Bytes
    copied = take size buf

    fits : length copied ≤ capacity b - b.end
    fits = omega (arith, length-take {0} size buf)

    same : take (capacity b - b.end) buf ≡ copied
    same =
        ap (take (capacity b - b.end)) (sym (take_all (length buf) buf (omega arith)))
        ∙ take-take (capacity b - b.end) (length buf) buf
        ∙ take_cong buf (omega arith)

-- `read` copies out the front of the data, keeps the rest of it, and keeps the invariant exactly
-- when it does not read past `head`.
pub read_takes :
    (b : Buffer) (n : ℕ)
    → IsValid b
    → (c : Buffer) × (read b n ≡ some (c, take n (live b), min (b.end - b.start) n))
      × (live c ≡ drop n (live b))
      × (IsValid c ↔ (min (b.end - b.start) n ≤ b.head - b.start))
read_takes b n v = (
  record b { start = b.start + min (b.end - b.start) n },
  read_lem b n v,
  rest,
  (
    (λ w. omega (arith, w.start_head, v.start_head)),
    (λ h. record {
      placed = v.placed;
      start_head = omega (arith, v.start_head);
      head_end = v.head_end;
      end_capacity = v.end_capacity;
    }),
  ),
)
  where
    len : ℕ
    len = min (b.end - b.start) n

    rest : take (b.end - (b.start + len)) (drop (b.start + len) b.buffer.bytes) ≡ drop n (live b)
    rest = elim (Bool-cases (leb n (b.end - b.start))) [
      | inl h ↦
          (let small = leb→le n (b.end - b.start) h in
            take_cong {m = b.end - (b.start + len)} {n = b.end - b.start - n} _ (omega arith)
            ∙ ap (take (b.end - b.start - n)) (
                drop_cong {m = b.start + len} {n = b.start + n} b.buffer.bytes (omega arith)
                ∙ sym (drop-drop n b.start b.buffer.bytes))
            ∙ sym (drop-take n (b.end - b.start) (drop b.start b.buffer.bytes)))
      | inr h ↦
          (let big : b.end - b.start < n = ground arith in
            take_zero (b.end - (b.start + len)) _ (omega (arith, v.start_head, v.head_end))
            ∙ sym (drop_all n (live b) (omega (arith, length-live b v))))
    ]

-- Reading past `head`, then shifting, leaves `head` far outside of the buffer: `unparsed_data`,
-- and with it the parser, panics.
pub read_overtakes :
    (b : Buffer) (n : ℕ)
    → IsValid b
    → b.head < b.end
    → b.head - b.start < n
    → (c : Buffer) × (read b n ≡ some (c, take n (live b), min (b.end - b.start) n))
      × (d : Buffer) × (shift c ≡ some (d, c.start))
      × (d.head ≡ max64 + b.head - c.start)
      × (unparsed_data d ≡ none)
read_overtakes b n v h k = (
  c,
  read_lem b n v,
  overtaken c small over ends v.end_capacity,
  shift-overtaken c small over ends v.end_capacity,
  refl,
  unparsed_data-overtaken c small over ends v.end_capacity,
)
  where
    c : Buffer
    c = record b { start = b.start + min (b.end - b.start) n }

    small : length b.buffer.bytes < 2 ^ 63
    small = v.placed.small

    over : b.head < b.start + min (b.end - b.start) n
    over = omega (arith, v.start_head)

    ends : b.start + min (b.end - b.start) n ≤ b.end
    ends = omega (arith, v.start_head, v.head_end)
