-- ===== src/Storage/VecDeque/Pops.antt =====
-- Popping at the two ends of the queue.
use kawa.Prelude.{
  ℕ, suc, ◌+◌, ◌-◌, ◌<◌, ◌≡◌, refl, ap, ◌∙◌, subst, true, false, Option, none, some, List, [], ◌∷◌,
  ◌++◌, arith, ◌==◌, ==_iff, add64, sub64, length, get_elem?, set, length-append, length-set,
}
use kawa.Storage.VecDeque.{VecDeque, wrap_index, read_slot, is_empty, pop_back, pop_front}
use kawa.Storage.VecDeque.Ring.{
  pos, pos-lt, wrap_index-pos, Holds, Holds-set, Holds-front, Holds-move, IsLaid, IsRing,
}
use kawa.Storage.VecDeque.Slices.{next-pos}

pub read_slot-eq-some {ℓ} :
    {A : Type ℓ} (ptr : List (Option A)) (i : ℕ) (x : A)
    → get_elem? ptr i ≡ some (some x)
    → read_slot ptr i ≡ some (x, set ptr i none)
unfolding read_slot
read_slot-eq-some ptr i x h = rw (h, read_slot) refl

module _ {ℓ} {A : Type ℓ} (q : VecDeque A) where
  pub pop_front_lem :
      (x : A) (xs : List A)
      → IsRing q (x ∷ xs)
      → (q' : VecDeque A) × (pop_front q ≡ some (q', some x)) × IsRing q' xs × (q'.cap ≡ q.cap)
  unfolding pop_front is_empty
  pop_front_lem x xs r =
      rw (some_left, next-pos q (x ∷ xs) l, read_slot-eq-some q.ptr first x l.holds.0)
        (popped, refl, record { laid = laid; room = omega (arith, r.room) }, refl)
    where
      l : IsLaid q (x ∷ xs)
      l = r.laid

      first : ℕ
      first = pos q.cap q.tail 1

      some_left : (q.len == 0) ≡ false
      some_left = ground (arith, l.counted)

      first_in : first < q.cap
      first_in = pos-lt q.cap q.tail 1 (omega (arith, l.two, l.tail_in))

      popped : VecDeque A
      popped = record q { tail = first; len = sub64 q.len 1; ptr = set q.ptr first none }

      around : pos q.cap q.tail (1 + q.cap) ≡ first
      around = ground (arith, l.tail_in, l.two)

      laid : IsLaid popped xs
      laid = record {
        exponent = l.exponent;
        power = l.power;
        two = l.two;
        small = l.small;
        allocated = length-set q.ptr first none ∙ l.allocated;
        counted = omega (arith, l.counted, l.small, r.room);
        fits = omega (arith, r.room);
        tail_in = first_in;
        head_at = l.head_at ∙ ground (arith, l.tail_in, r.room, l.two);
        holds =
            Holds-move q.cap q.tail l.tail_in (set q.ptr first none) xs first 2 1 first_in
              (ground (arith, l.tail_in, l.two)) (omega (arith, r.room)) (omega (arith, r.room))
              (subst (λ z. Holds (set q.ptr z none) q.cap q.tail 2 xs) around
                (Holds-set q.cap q.tail l.tail_in q.ptr xs 2 (1 + q.cap) none
                  (omega (arith, r.room)) (omega arith) (omega arith) l.holds.1));
      }

  pub pop_back_lem :
      (xs : List A) (x : A)
      → IsRing q (xs ++ (x ∷ []))
      → (q' : VecDeque A) × (pop_back q ≡ some (q', some x)) × IsRing q' xs × (q'.cap ≡ q.cap)
  unfolding pop_back is_empty
  pop_back_lem xs x r =
      rw (some_left, next, read_slot-eq-some q.ptr last x found)
        (popped, refl, record { laid = laid; room = omega (arith, r.room, size) }, refl)
    where
      l : IsLaid q (xs ++ (x ∷ []))
      l = r.laid

      size : length (xs ++ (x ∷ [])) ≡ suc (length xs)
      size = omega (arith, length-append xs (x ∷ []))

      last : ℕ
      last = pos q.cap q.tail (suc (length xs))

      some_left : (q.len == 0) ≡ false
      some_left = ground (arith, l.counted, size)

      head_in : q.head < q.cap
      head_in = omega (
        arith,
        l.head_at,
        pos-lt q.cap q.tail (suc (length (xs ++ (x ∷ []))))
            (omega (arith, l.tail_in, l.fits, l.two)),
      )

      next : wrap_index (sub64 (add64 q.head q.cap) 1) q.cap ≡ last
      next =
          ap (λ z. wrap_index z q.cap) (omega (arith, l.small, head_in, l.two))
          ∙ wrap_index-pos q.cap q.head (q.cap - 1) l.exponent l.power l.two l.small
              (omega (arith, l.two, head_in))
          ∙ ground (arith, l.head_at, l.tail_in, l.two, size, r.room)

      parts : Holds q.ptr q.cap q.tail 1 xs × Holds q.ptr q.cap q.tail (1 + length xs) (x ∷ [])
      parts = Holds-front q.cap q.tail l.tail_in q.ptr xs (x ∷ []) 1 l.holds

      found : get_elem? q.ptr last ≡ some (some x)
      found = ap (λ z. get_elem? q.ptr (pos q.cap q.tail z)) (omega arith) ∙ parts.1.0

      popped : VecDeque A
      popped = record q { head = last; len = sub64 q.len 1; ptr = set q.ptr last none }

      laid : IsLaid popped xs
      laid = record {
        exponent = l.exponent;
        power = l.power;
        two = l.two;
        small = l.small;
        allocated = length-set q.ptr last none ∙ l.allocated;
        counted = omega (arith, l.counted, l.small, r.room, size);
        fits = omega (arith, r.room, size);
        tail_in = l.tail_in;
        head_at = refl;
        holds =
            Holds-set q.cap q.tail l.tail_in q.ptr xs 1 (suc (length xs)) none (omega arith)
              (omega (arith, r.room, size)) (omega (arith, r.room, size)) parts.0;
      }

  pub pop_empty : IsRing q [] → (pop_back q ≡ some (q, none)) × (pop_front q ≡ some (q, none))
  unfolding pop_back pop_front is_empty
  pop_empty r = rw none_left (refl, refl)
    where
      none_left : (q.len == 0) ≡ true
      none_left = (==_iff q.len 0).1 r.laid.counted
