-- ===== src/Storage/Store/Content.antt =====
-- The bytes that a store stands for, and `data`, `data_opt`, `len`, `capture` and `consume`.
use kawa.Prelude.{
  ℕ, ◌-◌, ◌^◌, ◌≤◌, ◌<◌, ◌≡◌, refl, sym, ap, ◌∙◌, ◌≢◌, ◌↔◌, Option, none, some, [], arith,
  if◌then◌else◌, max32, Bytes, length, drop, length-drop, take_all,
}
use mathlib.Core.Option
use kawa.Storage.Span.{Span, range, range-eq-some}
use kawa.Storage.Slice
use kawa.Storage.Slice.{Slice, IsInside, window, length-window}
use kawa.Storage.Store.{
  Store, empty, slice, detached, static, alloc, shared, data_of, len, capture, is_empty,
}

-- What a store stands for over a buffer.
abbrev pub content : Bytes → Store → Bytes
content buf empty = []
content buf (slice s) = window buf s
content buf (detached s) = window buf s
content buf (static bytes) = bytes
content buf (alloc bytes index) = drop index bytes
content buf (shared bytes index) = drop index bytes

-- A store's references lie inside the buffer or inside its own bytes, of less than 4 GiB.
abbrev pub Fits : ℕ → Store → Type 0
Fits size empty = Unit
Fits size (slice s) = IsInside size s
Fits size (detached s) = IsInside size s
Fits size (static bytes) = length bytes < 2 ^ 63
Fits size (alloc bytes index) = (index ≤ length bytes) × (length bytes < max32)
Fits size (shared bytes index) = (index ≤ length bytes) × (length bytes < max32)

abbrev pub rest_content : Bytes → Option Store → Bytes
rest_content buf none = []
rest_content buf (some s) = content buf s

abbrev pub RestFits : ℕ → Option Store → Type 0
RestFits size none = Unit
RestFits size (some s) = Fits size s

tail_lem :
    (bytes : Bytes) (index : ℕ)
    → index ≤ length bytes
    → range bytes index (length bytes) ≡ some (drop index bytes)
tail_lem bytes index h =
    range-eq-some bytes index (length bytes) h (omega arith)
    ∙ ap some (
        take_all (length bytes - index) (drop index bytes)
          (omega (arith, length-drop {0} index bytes)))

slice_data_lem :
    (s : Slice) (buf : Span)
    → IsInside (length buf.bytes) s
    → Option.map (λ part. part.bytes) (Slice.data_of s buf) ≡ some (window buf.bytes s)
slice_data_lem s buf h = rw (Slice.data_of_lem s buf h)

-- `data` returns the content of every store that fits, but panics on `Empty`.
pub store_data_of_lem :
    (s : Store) (buf : Span)
    → Fits (length buf.bytes) s
    → data_of s buf ≡ (if is_empty s then none else some (content buf.bytes s))
unfolding data_of is_empty
store_data_of_lem empty buf h = refl
store_data_of_lem (slice s) buf h = slice_data_lem s buf h
store_data_of_lem (detached s) buf h = slice_data_lem s buf h
store_data_of_lem (static bytes) buf h = refl
store_data_of_lem (alloc bytes index) buf h = tail_lem bytes index h.0
store_data_of_lem (shared bytes index) buf h = tail_lem bytes index h.0

-- `len` is the length of the content.
pub store_len_lem : (s : Store) (buf : Bytes) → Fits (length buf) s → len s ≡ length (content buf s)
unfolding len
store_len_lem empty buf h = refl
store_len_lem (slice s) buf h = sym (length-window buf s h)
store_len_lem (detached s) buf h = sym (length-window buf s h)
store_len_lem (static bytes) buf h = refl
store_len_lem (alloc bytes index) buf h = omega (arith, length-drop {0} index bytes, h.0, h.1)
store_len_lem (shared bytes index) buf h = omega (arith, length-drop {0} index bytes, h.0, h.1)

-- `capture` cuts a store loose from the buffer: its content stays, whatever the buffer becomes.
pub store_capture_lem :
    (s : Store) (buf : Span)
    → Fits (length buf.bytes) s
    → (t : Store) × (capture s buf ≡ some t)
      × ((other : Bytes) → content other t ≡ content buf.bytes s)
unfolding capture
store_capture_lem empty buf h = (empty, refl, λ other. refl)
store_capture_lem (slice s) buf h =
    (alloc (window buf.bytes s) 0, rw (slice_data_lem s buf h), λ other. refl)
store_capture_lem (detached s) buf h =
    (alloc (window buf.bytes s) 0, rw (slice_data_lem s buf h), λ other. refl)
store_capture_lem (static bytes) buf h = (static bytes, refl, λ other. refl)
store_capture_lem (alloc bytes index) buf h = (alloc bytes index, refl, λ other. refl)
store_capture_lem (shared bytes index) buf h = (shared bytes index, refl, λ other. refl)

-- The result `(remaining, rest)` of consuming `n` bytes of `content`.
abbrev pub Consumed : ℕ → Bytes → Bytes → ℕ → ℕ × Option Store → Type 0
Consumed size buf bytes n (remaining, rest) =
    (remaining ≡ n - length bytes)
    × (rest_content buf rest ≡ drop n bytes)
    × RestFits size rest
    × ((rest ≡ none) ↔ (length bytes ≤ n))
    × (rest ≢ some empty)
