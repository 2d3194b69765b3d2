-- ===== src/Storage/Slice.antt =====
-- `Slice` of `src/storage/repr.rs`: a reference into the buffer by `u32` offset and length.
use kawa.Prelude.{
  ℕ, ◌+◌, ◌-◌, ◌≤◌, ◌<◌, ◌≡◌, refl, sym, ap, ◌∙◌, ◌⊎◌, inl, inr, Bool, true, false, ◌&&◌, Option,
  none, some, ◌++◌, arith, leb, ◌==◌, if◌then◌else◌, leb→le, le→leb, Bool-cases, max64, max32,
  add64, sub64, add32, sub32, to_u32, Bytes, length, take, drop, length-append, length-take,
  length-drop, take_prefix, drop_prefix,
}
use mathlib.Core.Option
use kawa.Storage.Span.{Span, sub_span, sub_span-eq-some, IsPlaced, IsPart}

pub record Slice : Type 0 where
  pub start : ℕ
  pub len : ℕ

-- `part` is what the source calls `data`, a part of `buffer`: its offset is the difference of the two addresses.
unfoldable pub new : Span → Span → Slice
new buffer part = record {
  start = to_u32 (sub64 part.addr buffer.addr);
  len = to_u32 (length part.bytes);
}

unfoldable pub data_of : Slice → Span → Option Span
data_of s buffer = sub_span buffer s.start (add64 s.start s.len)

-- The outer option is the panic of the indexing.
unfoldable pub data_opt : Slice → Span → Option (Option Span)
data_opt s buffer =
    let end = add64 s.start s.len in
    if leb s.start (length buffer.bytes) && leb end (length buffer.bytes)
    then Option.map some (sub_span buffer s.start end)
    else some none

unfoldable pub consume : Slice → ℕ → ℕ × Option Slice
consume s amount = if leb s.len amount then (sub64 amount s.len, none) else (
  0,
  some (record { start = add32 s.start (to_u32 amount); len = sub32 s.len (to_u32 amount) }),
)

unfoldable pub is_empty : Slice → Bool
is_empty s = s.len == 0

-- The slice lies inside `n` bytes, and its fields are `u32`s.
pub record IsInside (n : ℕ) (s : Slice) : Type 0 where
  pub inside : s.start + s.len ≤ n
  pub start_word : s.start < max32
  pub len_word : s.len < max32

-- The bytes that a slice stands for.
abbrev pub window : Bytes → Slice → Bytes
window bytes s = take s.len (drop s.start bytes)

pub length-window :
    (bytes : Bytes) (s : Slice) → IsInside (length bytes) s → length (window bytes s) ≡ s.len
length-window bytes s h =
    omega
      (arith, h.inside, length-take {0} s.len (drop s.start bytes), length-drop {0} s.start bytes)

pub data_of_lem :
    (s : Slice) (buffer : Span)
    → IsInside (length buffer.bytes) s
    → data_of s buffer
      ≡ some (record { addr = buffer.addr + s.start; bytes = window buffer.bytes s })
unfolding data_of
data_of_lem s buffer h =
    rw (end, sub_span-eq-some buffer s.start (s.start + s.len) (omega arith) h.inside, size)
  where
    end : add64 s.start s.len ≡ s.start + s.len
    end = omega (arith, h.start_word, h.len_word)

    size : s.start + s.len - s.start ≡ s.len
    size = omega arith

-- `data_opt` never panics on `u32` fields: it returns the bytes exactly when the slice lies inside
-- the buffer.
pub data_opt_lem :
    (s : Slice) (buffer : Span)
    → s.start < max32
    → s.len < max32
    → (IsInside (length buffer.bytes) s
        × (data_opt s buffer
            ≡ some (some (record { addr = buffer.addr + s.start; bytes = window buffer.bytes s }))))
      ⊎ ((length buffer.bytes < s.start + s.len) × (data_opt s buffer ≡ some none))
data_opt_lem s buffer hs hl = elim (Bool-cases (leb (s.start + s.len) (length buffer.bytes))) [
  | inl h ↦ inl (inside h, found h)
  | inr h ↦ inr (ground arith, missing h)
]
  where
    end : add64 s.start s.len ≡ s.start + s.len
    end = omega (arith, hs, hl)

    inside : leb (s.start + s.len) (length buffer.bytes) ≡ true → IsInside (length buffer.bytes) s
    inside h = record { inside = leb→le _ _ h; start_word = hs; len_word = hl }

    found :
        leb (s.start + s.len) (length buffer.bytes) ≡ true
        → data_opt s buffer
          ≡ some (some (record { addr = buffer.addr + s.start; bytes = window buffer.bytes s }))
    found h =
        unfold data_opt data_of in
        rw (end, h, le→leb s.start (length buffer.bytes) (omega (arith, (inside h).inside)))
          (ap (Option.map some) (rw end at (data_of_lem s buffer (inside h))))

    missing : leb (s.start + s.len) (length buffer.bytes) ≡ false → data_opt s buffer ≡ some none
    missing h = unfold data_opt in ground (arith, end)

-- A slice made from a part of the buffer refers to that part, while offset and length fit a `u32`
-- (the assertions on them are commented out in the source).
pub data_of-new :
    (buffer part : Span)
    → IsPlaced buffer
    → IsPart buffer part
    → length buffer.bytes < max32
    → IsInside (length buffer.bytes) (new buffer part)
      × (window buffer.bytes (new buffer part) ≡ part.bytes)
      × (data_of (new buffer part) buffer ≡ some part)
data_of-new buffer part p q h = rw fields (
  inside,
  bytes,
  data_of_lem (record { start = length q.before; len = length part.bytes }) buffer inside
      ∙ ap some (λ i. record { addr = sym q.at i; bytes = bytes i }),
)
  where
    lengths : length buffer.bytes ≡ length q.before + (length part.bytes + length q.after)
    lengths =
        ap length q.splits
        ∙ length-append q.before (part.bytes ++ q.after)
        ∙ ap (λ n. length q.before + n) (length-append part.bytes q.after)

    start : to_u32 (sub64 part.addr buffer.addr) ≡ length q.before
    start = omega (arith, q.at, lengths, p.fits)

    size : to_u32 (length part.bytes) ≡ length part.bytes
    size = omega (arith, lengths)

    fields : new buffer part ≡ record { start = length q.before; len = length part.bytes }
    fields = unfold new in rw (start, size)

    inside :
        IsInside (length buffer.bytes) (record { start = length q.before; len = length part.bytes })
    inside = record {
      inside = omega (arith, lengths);
      start_word = omega (arith, lengths);
      len_word = omega (arith, lengths);
    }

    bytes : take (length part.bytes) (drop (length q.before) buffer.bytes) ≡ part.bytes
    bytes =
        ap (λ z. take (length part.bytes) (drop (length q.before) z)) q.splits
        ∙ ap (take (length part.bytes)) (drop_prefix _ q.before _ refl)
        ∙ take_prefix _ part.bytes _ refl

-- `consume` drops the bytes from the front of the slice, or drops the slice and returns what is
-- left of the amount.
abbrev pub after_consume : Slice → ℕ → ℕ × Option Slice
after_consume s n =
    if leb s.len n
    then (n - s.len, none)
    else (0, some (record { start = s.start + n; len = s.len - n }))

pub consume_lem :
    (s : Slice) (size n : ℕ)
    → IsInside size s
    → size < max32
    → n < max64
    → consume s n ≡ after_consume s n
unfolding consume
consume_lem s size n h k m = ground arith
