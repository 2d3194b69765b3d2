-- ===== src/Storage/Store.antt =====
-- `Store` of `src/storage/repr.rs`, with the feature `rc-alloc`. A panic is `none`.
-- `Box<[u8]>`, `Rc<[u8]>` and `&'static [u8]` are their bytes.
pub mod Content
pub mod Consume
pub mod Split
pub mod Place
pub mod Modify
use kawa.Prelude.{
  ℕ, zero, suc, ◌+◌, ◌-◌, ◌*◌, ◌/◌, ◌%◌, ◌^◌, ◌≤◌, ◌<◌, min, ◌≡◌, refl, sym, ap, ap₂, ◌∙◌, subst,
  ◌≢◌, ◌↔◌, ◌⊎◌, inl, inr, Bool, true, false, not, ◌&&◌, ◌||◌, Option, none, some, List, [], ◌∷◌,
  ◌++◌, map, append-nil, append_assoc, arith, ltb, leb, ◌==◌, if◌then◌else◌, ltb→lt, lt→ltb, le→ltb,
  leb→le, le→leb, lt→leb, ==_iff, Bool-cases, Option-cases, ◌>>=◌, ◌>>◌, bind-eq-some, max64, max32,
  add64, sub64, mul64, add32, sub32, to_u32, sub64-eq-sub, sub32-eq-sub, Bytes, length, get_elem?,
  set, take, drop, replicate, All, length-append, length-take, length-drop, length-set,
  length-replicate, take-append-drop, take_cong, drop_cong, take-nil, drop-nil, take_zero,
  take_prefix, drop_prefix, take_all, drop_all, drop-drop, take-take, drop-take, take-add,
  take-drop-append, take-drop-take, drop-append_of_le,
}
use mathlib.Core.Option
use kawa.Storage.Span.{Span, range, overwrite}
use kawa.Storage.Slice
use kawa.Storage.Slice.{Slice}

pub data Store : Type 0 where
  empty : Store
  slice : Slice → Store
  detached : Slice → Store
  static : Bytes → Store
  alloc : Bytes → ℕ → Store
  shared : Bytes → ℕ → Store

unfoldable pub new_slice : Span → Span → Store
new_slice buffer part = slice (Slice.new buffer part)

unfoldable pub new_detached : Span → Span → Store
new_detached buffer part = detached (Slice.new buffer part)

-- `from_vec`, `from_slice` and `from_string`
unfoldable pub from_slice : Bytes → Store
from_slice bytes = alloc bytes 0

unfoldable pub push_left : Store → ℕ → Store
push_left (slice s) amount = slice (record s { start = sub32 s.start amount })
push_left (detached s) amount = detached (record s { start = sub32 s.start amount })
push_left empty amount = empty
push_left (static bytes) amount = static bytes
push_left (alloc bytes index) amount = alloc bytes index
push_left (shared bytes index) amount = shared bytes index

unfoldable pub len : Store → ℕ
len empty = 0
len (slice s) = s.len
len (detached s) = s.len
len (static bytes) = length bytes
len (alloc bytes index) = sub64 (length bytes) index
len (shared bytes index) = sub64 (length bytes) index

unfoldable pub is_empty : Store → Bool
is_empty empty = true
is_empty (slice s) = false
is_empty (detached s) = false
is_empty (static bytes) = false
is_empty (alloc bytes index) = false
is_empty (shared bytes index) = false

abbrev slice_data : Slice → Span → Option Bytes
slice_data s buf = Option.map (λ part. part.bytes) (Slice.data_of s buf)

-- `&data[index..]`
abbrev tail_of : Bytes → ℕ → Option Bytes
tail_of bytes index = range bytes index (length bytes)

unfoldable pub data_of : Store → Span → Option Bytes
data_of empty buf = none
data_of (slice s) buf = slice_data s buf
data_of (detached s) buf = slice_data s buf
data_of (static bytes) buf = some bytes
data_of (alloc bytes index) buf = tail_of bytes index
data_of (shared bytes index) buf = tail_of bytes index

abbrev slice_data_opt : Slice → Span → Option (Option Bytes)
slice_data_opt s buf = Option.map (Option.map (λ part. part.bytes)) (Slice.data_opt s buf)

-- The outer option is the panic, the inner one the result.
unfoldable pub data_opt : Store → Span → Option (Option Bytes)
data_opt empty buf = some none
data_opt (slice s) buf = slice_data_opt s buf
data_opt (detached s) buf = slice_data_opt s buf
data_opt (static bytes) buf = some (some bytes)
data_opt (alloc bytes index) buf = Option.map some (tail_of bytes index)
data_opt (shared bytes index) buf = Option.map some (tail_of bytes index)

unfoldable pub capture : Store → Span → Option Store
unfolding from_slice
capture (slice s) buf = Option.map from_slice (slice_data s buf)
capture (detached s) buf = Option.map from_slice (slice_data s buf)
capture empty buf = some empty
capture (static bytes) buf = some (static bytes)
capture (alloc bytes index) buf = some (alloc bytes index)
capture (shared bytes index) buf = some (shared bytes index)

-- The new value is written over the old one where it fits; `buf[start..end]` panics out of range.
modify_slice : (Slice → Store) → Slice → Bytes → Bytes → Option (Bytes × Store)
unfolding from_slice
modify_slice keep s buf value =
    if leb (length value) s.len
    then Option.map
        (λ _. (overwrite buf s.start value, keep (record s { len = to_u32 (length value) })))
        (range buf s.start (add64 s.start (length value)))
    else some (buf, from_slice value)

unfoldable pub modify : Store → Bytes → Bytes → Option (Bytes × Store)
unfolding modify_slice
modify (slice s) buf value = modify_slice slice s buf value
modify (detached s) buf value = modify_slice detached s buf value
modify empty buf value = some (buf, from_slice value)
modify (static bytes) buf value = some (buf, from_slice value)
modify (alloc bytes index) buf value = some (buf, from_slice value)
modify (shared bytes index) buf value = some (buf, from_slice value)

split_slice : (Slice → Store) → Slice → ℕ → Store × Store
split_slice keep s at32 = (
  keep (record { start = s.start; len = at32 }),
  keep (record { start = add32 s.start at32; len = sub32 s.len at32 }),
)

split_alloc : (Bytes → ℕ → Store) → Bytes → ℕ → ℕ → Option (Store × Store)
unfolding from_slice
split_alloc keep bytes index at = do
  front ← range bytes index (add64 index at)
  some (from_slice front, keep bytes (add32 index (to_u32 at)))

unfoldable pub split : Store → ℕ → Option (Store × Store)
unfolding split_slice split_alloc
split empty at = some (empty, empty)
split (slice s) at = some (split_slice slice s (to_u32 at))
split (detached s) at = some (split_slice detached s (to_u32 at))
split (static bytes) at = do
  front ← range bytes 0 at
  back ← range bytes at (length bytes)
  some (static front, static back)
split (alloc bytes index) at = split_alloc alloc bytes index at
split (shared bytes index) at = split_alloc shared bytes index at

-- What is left of a partly consumed `Detached` is a `Slice`, as in the source.
consume_slice : Slice → ℕ → ℕ × Option Store
consume_slice s amount =
    let (remaining, rest) = Slice.consume s amount in (remaining, Option.map slice rest)

-- `amount - data.len() + index`, from left to right
consume_alloc : (Bytes → ℕ → Store) → Bytes → ℕ → ℕ → ℕ × Option Store
consume_alloc keep bytes index amount =
    if leb (sub64 (length bytes) index) amount
    then (add64 (sub64 amount (length bytes)) index, none)
    else (0, some (keep bytes (add32 index (to_u32 amount))))

unfoldable pub consume : Store → ℕ → ℕ × Option Store
unfolding consume_slice consume_alloc
consume empty amount = (amount, none)
consume (slice s) amount = consume_slice s amount
consume (detached s) amount = consume_slice s amount
consume (static bytes) amount =
    if leb (length bytes) amount
    then (sub64 amount (length bytes), none)
    else (0, some (static (drop amount bytes)))
consume (alloc bytes index) amount = consume_alloc alloc bytes index amount
consume (shared bytes index) amount = consume_alloc shared bytes index amount
