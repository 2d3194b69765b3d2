-- ===== src/Storage/VecDeque.antt =====
-- The queue of `src/storage/vecdeque.rs`, a ring in one allocation, for the feature `custom-vecdeque`.
-- A slot is `none` while it holds no element: before it is written, and once the element was read
-- or dropped. Undefined behaviour (a slot out of the allocation, or read while it holds nothing) and
-- a panic are `none` as results.
pub mod Mask
pub mod Ring
pub mod Slices
pub mod Growth
pub mod Pushes
pub mod Pops
pub mod Walk
pub mod Refine
use kawa.Prelude.{
  Run, done, panic, out_of_fuel, to_run, then_run, codes, digit, push_digit, parse_digits,
  parse_uint, max_u16, max_usize, ℕ, zero, suc, ◌+◌, ◌-◌, ◌*◌, ◌/◌, ◌%◌, ◌^◌, ◌≤◌, ◌<◌, min, ◌≡◌,
  refl, sym, ap, ap₂, ◌∙◌, subst, ◌≢◌, ◌↔◌, ◌⊎◌, inl, inr, Bool, true, false, not, ◌&&◌, ◌||◌,
  Option, none, some, List, [], ◌∷◌, ◌++◌, map, append-nil, append_assoc, arith, ltb, leb, ◌==◌,
  if◌then◌else◌, ltb→lt, lt→ltb, le→ltb, leb→le, le→leb, lt→leb, ==_iff, Bool-cases, Option-cases,
  ◌>>=◌, ◌>>◌, bind-eq-some, max64, max32, add64, sub64, mul64, add32, sub32, to_u32, sub64-eq-sub,
  sub32-eq-sub, Bytes, length, get_elem?, set, take, drop, replicate, All, length-append,
  length-take, length-drop, length-set, length-replicate, take-append-drop, take_cong, drop_cong,
  take-nil, drop-nil, take_zero, take_prefix, drop_prefix, take_all, drop_all, drop-drop, take-take,
  drop-take, take-add, take-drop-append, take-drop-take, drop-append_of_le, drop-append, not_le,
}
use Prim.Native.Nat.{bit_and}
use mathlib.Core.Option

pub record VecDeque {ℓ} (A : Type ℓ) : Type ℓ where
  pub tail : ℕ
  pub head : ℕ
  pub cap : ℕ
  pub len : ℕ
  pub ptr : List (Option A)

unfoldable pub wrap_index : ℕ → ℕ → ℕ
wrap_index index cap = bit_and index (sub64 cap 1)

-- `while cap < target { cap *= 2 }`: a capacity doubles less than 64 times before it wraps to 0,
-- where the loop does not end.
unfoldable pub doubled : ℕ → ℕ → ℕ → Option ℕ
doubled zero size target = none
doubled (suc fuel) size target = elim (ltb size target) [
  | true ↦ doubled fuel (mul64 size 2) target
  | false ↦ some size
]

module _ {ℓ} {A : Type ℓ} where
  -- `ptr.add(i).write(x)`
  unfoldable pub write_slot : List (Option A) → ℕ → A → Option (List (Option A))
  write_slot ptr i x = if ltb i (length ptr) then some (set ptr i (some x)) else none

  -- `ptr.add(i).read()` moves the element out; so does `drop_in_place`.
  unfoldable pub read_slot : List (Option A) → ℕ → Option (A × List (Option A))
  read_slot ptr i = elim (get_elem? ptr i) [
    | none ↦ none
    | some slot ↦ Option.map (λ x. (x, set ptr i none)) slot
  ]

  -- `&*ptr.add(i)`
  unfoldable pub peek_slot : List (Option A) → ℕ → Option A
  peek_slot ptr i = elim (get_elem? ptr i) [ none ↦ none | some slot ↦ slot ]

  -- `from_raw_parts_mut(ptr.add(i), n)`
  unfoldable pub slots_from : List (Option A) → ℕ → ℕ → Option (List (Option A))
  slots_from ptr i n = if leb (i + n) (length ptr) then some (take n (drop i ptr)) else none

  -- `Layout::array::<A>(n)` succeeds up to `limit` elements, and `alloc` then gives fresh slots.
  unfoldable pub with_capacity : ℕ → ℕ → Option (VecDeque A)
  with_capacity limit capacity =
      if ltb 0 capacity && (capacity % 2 == 0) && leb capacity limit
      then some (record {
        tail = sub64 capacity 1;
        head = 0;
        cap = capacity;
        len = 0;
        ptr = replicate capacity none;
      })
      else none

  unfoldable pub is_empty : VecDeque A → Bool
  is_empty q = q.len == 0

  unfoldable pub is_full : VecDeque A → Bool
  is_full q = q.len == q.cap

  -- Where it is contiguous the second slice is empty.
  unfoldable pub as_slices : VecDeque A → Option (List (Option A) × List (Option A))
  unfolding wrap_index slots_from
  as_slices q =
      let tail = wrap_index (add64 q.tail 1) q.cap in
      if ltb tail q.head || (tail == 0)
      then Option.map (λ front. (front, [])) (slots_from q.ptr tail q.len)
      else do
        front ← slots_from q.ptr tail (sub64 (sub64 q.cap q.tail) 1)
        back ← slots_from q.ptr 0 q.head
        some (front, back)

  -- The new allocation: both slices are copied to its front.
  unfoldable pub copied : ℕ → List (Option A) × List (Option A) → Option (List (Option A))
  copied size (front, back) =
      if leb (length front + length back) size
      then some (front ++ (back ++ replicate (size - (length front + length back)) none))
      else none

  unfoldable pub grow : ℕ → VecDeque A → ℕ → Option (VecDeque A)
  unfolding as_slices doubled copied
  grow limit q additional = do
    cap ← doubled 64 q.cap (add64 q.cap additional)
    slices ← if leb cap limit then as_slices q else none
    ptr ← copied cap slices
    some (record { tail = sub64 cap 1; head = q.len; cap = cap; len = q.len; ptr = ptr })

  -- The end of both pushes.
  unfoldable pub grow_if_full : ℕ → VecDeque A → Option (VecDeque A)
  unfolding grow is_full
  grow_if_full limit q = if is_full q then grow limit q 1 else some q

  unfoldable pub push_back : ℕ → VecDeque A → A → Option (VecDeque A)
  unfolding write_slot wrap_index grow_if_full
  push_back limit q element = do
    ptr ← write_slot q.ptr q.head element
    grow_if_full limit
        (record q { head = wrap_index (add64 q.head 1) q.cap; len = add64 q.len 1; ptr = ptr })

  unfoldable pub push_front : ℕ → VecDeque A → A → Option (VecDeque A)
  unfolding write_slot wrap_index grow_if_full
  push_front limit q element = do
    ptr ← write_slot q.ptr q.tail element
    grow_if_full limit (record q {
      tail = wrap_index (sub64 (add64 q.tail q.cap) 1) q.cap;
      len = add64 q.len 1;
      ptr = ptr;
    })

  -- The outer option is undefined behaviour, the inner one the result.
  unfoldable pub pop_back : VecDeque A → Option (VecDeque A × Option A)
  unfolding is_empty wrap_index read_slot
  pop_back q = if is_empty q then some (q, none) else do
    let head = wrap_index (sub64 (add64 q.head q.cap) 1) q.cap
    r ← read_slot q.ptr head
    some (record q { head = head; len = sub64 q.len 1; ptr = r.1 }, some r.0)

  unfoldable pub pop_front : VecDeque A → Option (VecDeque A × Option A)
  unfolding is_empty wrap_index read_slot
  pop_front q = if is_empty q then some (q, none) else do
    let tail = wrap_index (add64 q.tail 1) q.cap
    r ← read_slot q.ptr tail
    some (record q { tail = tail; len = sub64 q.len 1; ptr = r.1 }, some r.0)

  -- `Drain::next` until nothing remains: the elements, and the slots that are left.
  unfoldable pub drain_slots : ℕ → ℕ → ℕ → List (Option A) → Option (List A × List (Option A))
  unfolding wrap_index read_slot
  drain_slots zero index cap ring = some ([], ring)
  drain_slots (suc remaining) index cap ring = do
    r ← read_slot ring (wrap_index (add64 index 1) cap)
    rest ← drain_slots remaining (wrap_index (add64 index 1) cap) cap r.1
    some (r.0 ∷ rest.0, rest.1)

  -- Both `clear` and `drain` leave an empty queue at once.
  abbrev pub emptied : VecDeque A → List (Option A) → VecDeque A
  emptied q ptr = record q { tail = sub64 q.cap 1; head = 0; len = 0; ptr = ptr }

  -- The loop of `clear` drops what `drain` would return.
  unfoldable pub clear : VecDeque A → Option (VecDeque A)
  unfolding drain_slots
  clear q = Option.map (λ r. emptied q r.1) (drain_slots q.len q.tail q.cap q.ptr)

  -- A drain that is used up.
  unfoldable pub drain : VecDeque A → Option (VecDeque A × List A)
  unfolding drain_slots
  drain q = Option.map (λ r. (emptied q r.1, r.0)) (drain_slots q.len q.tail q.cap q.ptr)

  unfoldable pub reserve : ℕ → VecDeque A → ℕ → Option (VecDeque A)
  unfolding grow
  reserve limit q capacity =
      if ltb q.cap capacity then grow limit q (sub64 capacity q.cap) else some q

  -- `Iter::next` and `IterMut::next` until nothing remains.
  unfoldable pub iter_slots : ℕ → ℕ → ℕ → List (Option A) → Option (List A)
  unfolding wrap_index peek_slot
  iter_slots zero index cap ring = some []
  iter_slots (suc remaining) index cap ring = do
    x ← peek_slot ring (wrap_index (add64 index 1) cap)
    rest ← iter_slots remaining (wrap_index (add64 index 1) cap) cap ring
    some (x ∷ rest)

  unfoldable pub iter : VecDeque A → Option (List A)
  unfolding iter_slots
  iter q = iter_slots q.len q.tail q.cap q.ptr

  unfoldable pub index : VecDeque A → ℕ → Option A
  unfolding wrap_index peek_slot
  index q i = peek_slot q.ptr (wrap_index (add64 (add64 q.tail 1) i) q.cap)
