-- ===== src/Storage/VecDeque/Walk.antt =====
-- The iterators, `drain`, `clear`, indexing and `with_capacity`.
use kawa.Prelude.{
  ℕ, suc, ◌+◌, ◌%◌, ◌^◌, ◌≤◌, ◌<◌, ◌≡◌, refl, ap, ◌∙◌, subst, true, Option, none, some, List, [],
  ◌∷◌, ◌++◌, arith, ◌==◌, lt→ltb, le→leb, ==_iff, add64, sub64, length, get_elem?, set, replicate,
  length-append, length-set, length-replicate,
}
use native.Mathlib.Nat.{pow-suc, one-le-pow}
use kawa.Storage.VecDeque.{
  VecDeque, wrap_index, peek_slot, iter_slots, iter, drain_slots, drain, clear, index,
  with_capacity, emptied,
}
use kawa.Storage.VecDeque.Ring.{
  pos, pos-lt, wrap_index-pos, Holds, Holds-set, Holds-front, Holds-move, IsLaid, IsRing,
}
use kawa.Storage.VecDeque.Pops.{read_slot-eq-some}

peek_slot-eq-some {ℓ} :
    {A : Type ℓ} (ptr : List (Option A)) (i : ℕ) (x : A)
    → get_elem? ptr i ≡ some (some x)
    → peek_slot ptr i ≡ some x
unfolding peek_slot
peek_slot-eq-some ptr i x h = rw (h, peek_slot) refl

module _ (size k : ℕ) (power : size ≡ 2 ^ k) (two : 2 ≤ size) (small : size ≤ 2 ^ 62) where
  next_lem : (at : ℕ) → at < size → wrap_index (add64 at 1) size ≡ pos size at 1
  next_lem at h =
      ap (λ z. wrap_index z size) (omega arith)
      ∙ wrap_index-pos size at 1 k power two small (omega arith)

  next-lt : (at : ℕ) → at < size → pos size at 1 < size
  next-lt at h = pos-lt size at 1 (omega arith)

  Holds-next {ℓ} :
      {A : Type ℓ} (ptr : List (Option A)) (at : ℕ) (xs : List A)
      → at < size
      → length xs < size
      → Holds ptr size at 2 xs
      → Holds ptr size (pos size at 1) 1 xs
  Holds-next ptr at xs h l =
      Holds-move size at h ptr xs (pos size at 1) 2 1 (next-lt at h) (ground arith) (omega arith)
        (omega arith)

  iter_slots_lem {ℓ} :
      {A : Type ℓ} (ptr : List (Option A)) (xs : List A) (at : ℕ)
      → at < size
      → length xs ≤ size
      → Holds ptr size at 1 xs
      → iter_slots (length xs) at size ptr ≡ some xs
  unfolding iter_slots
  iter_slots_lem ptr [] at h l t = refl
  iter_slots_lem ptr (x ∷ xs) at h l t =
      rw
        (
          iter_slots,
          next_lem at h,
          peek_slot-eq-some ptr (pos size at 1) x t.0,
          iter_slots_lem ptr xs (pos size at 1) (next-lt at h) (omega arith)
              (Holds-next ptr at xs h (omega arith) t.1),
        )
        refl

  drain_slots_lem {ℓ} :
      {A : Type ℓ} (xs : List A) (ptr : List (Option A)) (at : ℕ)
      → at < size
      → length xs ≤ size
      → length ptr ≡ size
      → Holds ptr size at 1 xs
      → (left : List (Option A)) × (drain_slots (length xs) at size ptr ≡ some (xs, left))
        × (length left ≡ size)
  unfolding drain_slots
  drain_slots_lem [] ptr at h l a t = (ptr, refl, a)
  drain_slots_lem (x ∷ xs) ptr at h l a t =
      let (left, run, same) =
        drain_slots_lem xs (set ptr first none) first (next-lt at h) (omega arith)
          (length-set ptr first none ∙ a)
          (Holds-next (set ptr first none) at xs h (omega arith) kept) in
      (left, rw (drain_slots, next_lem at h, read_slot-eq-some ptr first x t.0, run) refl, same)
    where
      first : ℕ
      first = pos size at 1

      kept : Holds (set ptr first none) size at 2 xs
      kept =
          subst (λ z. Holds (set ptr z none) size at 2 xs) (ground arith)
            (Holds-set size at h ptr xs 2 (1 + size) none (omega arith) (omega arith) (omega arith)
              t.1)

module _ {ℓ} {A : Type ℓ} (q : VecDeque A) (xs : List A) (r : IsRing q xs) where
  -- The iterators give the elements in their order.
  pub iter_lem : iter q ≡ some xs
  unfolding iter
  iter_lem =
      ap (λ n. iter_slots n q.tail q.cap q.ptr) r.laid.counted
      ∙ iter_slots_lem q.cap r.laid.exponent r.laid.power r.laid.two r.laid.small q.ptr xs q.tail
          r.laid.tail_in r.laid.fits r.laid.holds

  drained :
      (left : List (Option A)) × (drain_slots q.len q.tail q.cap q.ptr ≡ some (xs, left))
      × (length left ≡ q.cap)
  drained =
      let (left, run, same) =
        drain_slots_lem q.cap r.laid.exponent r.laid.power r.laid.two r.laid.small xs q.ptr q.tail
          r.laid.tail_in r.laid.fits r.laid.allocated r.laid.holds in
      (left, ap (λ n. drain_slots n q.tail q.cap q.ptr) r.laid.counted ∙ run, same)

  emptied-IsRing : (left : List (Option A)) → length left ≡ q.cap → IsRing (emptied q left) []
  emptied-IsRing left e = record {
    laid = record {
      exponent = r.laid.exponent;
      power = r.laid.power;
      two = r.laid.two;
      small = r.laid.small;
      allocated = e;
      counted = refl;
      fits = omega arith;
      tail_in = omega (arith, r.laid.small, r.laid.two);
      head_at = ground (arith, r.laid.small, r.laid.two);
      holds = tt;
    };
    room = omega (arith, r.laid.two);
  }

  pub drain_lem : (q' : VecDeque A) × (drain q ≡ some (q', xs)) × IsRing q' [] × (q'.cap ≡ q.cap)
  unfolding drain
  drain_lem =
      let (left, run, same) = drained in
      (emptied q left, rw run refl, emptied-IsRing left same, refl)

  pub clear_lem : (q' : VecDeque A) × (clear q ≡ some q') × IsRing q' [] × (q'.cap ≡ q.cap)
  unfolding clear
  clear_lem =
      let (left, run, same) = drained in
      (emptied q left, rw run refl, emptied-IsRing left same, refl)

-- Indexing inside the queue gives the element at that place.
pub index_lem {ℓ} :
    {A : Type ℓ} (q : VecDeque A) (front : List A) (x : A) (back : List A)
    → IsRing q (front ++ (x ∷ back))
    → index q (length front) ≡ some x
unfolding index
index_lem q front x back r =
    rw (place, peek_slot-eq-some q.ptr (pos q.cap q.tail (1 + length front)) x found) refl
  where
    l : IsLaid q (front ++ (x ∷ back))
    l = r.laid

    size : length (front ++ (x ∷ back)) ≡ length front + suc (length back)
    size = length-append front (x ∷ back)

    place :
        wrap_index (add64 (add64 q.tail 1) (length front)) q.cap
        ≡ pos q.cap q.tail (1 + length front)
    place =
        ap (λ z. wrap_index z q.cap) (omega (arith, l.small, l.tail_in, r.room, size))
        ∙ wrap_index-pos q.cap q.tail (1 + length front) l.exponent l.power l.two l.small
            (omega (arith, l.tail_in, r.room, size))

    found : get_elem? q.ptr (pos q.cap q.tail (1 + length front)) ≡ some (some x)
    found = (Holds-front q.cap q.tail l.tail_in q.ptr front (x ∷ back) 1 l.holds).1.0

pub with_capacity_lem {ℓ} :
    {A : Type ℓ} (limit k : ℕ)
    → 2 ^ suc k ≤ limit
    → 2 ^ suc k ≤ 2 ^ 62
    → (q : VecDeque A) × (with_capacity limit (2 ^ suc k) ≡ some q)
      × IsRing q []
      × (q.cap ≡ 2 ^ suc k)
unfolding with_capacity
with_capacity_lem {A = A} limit k h m =
    rw (lt→ltb 0 size (omega (arith, two)), even, le→leb size limit h) (fresh, refl, ring, refl)
  where
    size : ℕ
    size = 2 ^ suc k

    two : 2 ≤ size
    two = omega (arith, pow-suc 2 k, one-le-pow k 2 (omega arith))

    even : (size % 2 == 0) ≡ true
    even = (==_iff _ 0).1 (omega (arith, pow-suc 2 k))

    fresh : VecDeque A
    fresh = record { tail = sub64 size 1; head = 0; cap = size; len = 0; ptr = replicate size none }

    ring : IsRing fresh []
    ring = record {
      laid = record {
        exponent = suc k;
        power = refl;
        two = two;
        small = m;
        allocated = length-replicate {A = Option A} size none;
        counted = refl;
        fits = omega arith;
        tail_in = omega (arith, m, two);
        head_at = ground (arith, m, two);
        holds = tt;
      };
      room = omega (arith, two);
    }
