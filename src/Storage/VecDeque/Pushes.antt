-- ===== src/Storage/VecDeque/Pushes.antt =====
-- Pushing at the two ends of the queue.
use kawa.Prelude.{
  ℕ, suc, ◌+◌, ◌-◌, ◌*◌, ◌^◌, ◌≤◌, ◌<◌, ◌≡◌, refl, sym, ap, ◌∙◌, subst, inl, inr, Option, some,
  List, [], ◌∷◌, ◌++◌, arith, ◌==◌, lt→ltb, Bool-cases, add64, sub64, length, get_elem?, set,
  length-append, length-set,
}
use kawa.Storage.VecDeque.{
  VecDeque, wrap_index, write_slot, is_full, grow_if_full, push_back, push_front,
}
use kawa.Storage.VecDeque.Ring.{
  pos, pos-lt, wrap_index-pos, get-set, Holds, Holds-set, Holds-snoc, Holds-move, IsLaid, IsRing,
}
use kawa.Storage.VecDeque.Growth.{grow_lem}

-- A call that is given a queue of `xs`, and leaves one of `ys` with at most `bound` slots.
abbrev pub Leaves {ℓ} : {A : Type ℓ} → ℕ → List A → Option (VecDeque A) → Type ℓ
Leaves {A = A} bound ys r = (q : VecDeque A) × (r ≡ some q) × IsRing q ys × (q.cap ≤ bound)

module _ {ℓ} {A : Type ℓ} (limit n : ℕ) (word : n ≤ 2 ^ 60) (room : 2 * n + 2 ≤ limit) where
  grow_if_full_lem :
      (q : VecDeque A) (xs : List A)
      → IsLaid q xs
      → length xs ≤ n
      → q.cap ≤ 2 * n + 1
      → Leaves (2 * n + 1) xs (grow_if_full limit q)
  unfolding grow_if_full is_full
  grow_if_full_lem q xs r h c = elim (Bool-cases (q.len == q.cap)) [
    | inl full ↦
        let size : q.cap ≡ length xs = ground (arith, r.counted) in
        let (q', run, ring, bound) =
          grow_lem limit q xs 1 r (omega arith) (omega (arith, size)) (omega (arith, size)) in
        (q', rw full run, ring, omega (arith, bound, size))
    | inr free ↦ (q, rw free refl, record { laid = r; room = ground (arith, r.counted, r.fits) }, c)
  ]

  pub push_back_lem :
      (q : VecDeque A) (xs : List A) (x : A)
      → IsRing q xs
      → length xs < n
      → q.cap ≤ 2 * n + 1
      → Leaves (2 * n + 1) (xs ++ (x ∷ [])) (push_back limit q x)
  unfolding push_back write_slot
  push_back_lem q xs x r h c =
      rw (lt→ltb q.head (length q.ptr) (omega (arith, head_in, l.allocated)), next)
        (grow_if_full_lem written (xs ++ (x ∷ [])) laid (omega (arith, length-append xs (x ∷ [])))
          c)
    where
      l : IsLaid q xs
      l = r.laid

      head_in : q.head < q.cap
      head_in = omega (
        arith,
        l.head_at,
        pos-lt q.cap q.tail (suc (length xs)) (omega (arith, l.tail_in, l.fits, l.two)),
      )

      next : wrap_index (add64 q.head 1) q.cap ≡ pos q.cap q.head 1
      next =
          ap (λ z. wrap_index z q.cap) (omega (arith, l.small, head_in))
          ∙ wrap_index-pos q.cap q.head 1 l.exponent l.power l.two l.small
              (omega (arith, l.two, head_in))

      ptr : List (Option A)
      ptr = set q.ptr q.head (some x)

      written : VecDeque A
      written = record q { head = pos q.cap q.head 1; len = add64 q.len 1; ptr = ptr }

      laid : IsLaid written (xs ++ (x ∷ []))
      laid = record {
        exponent = l.exponent;
        power = l.power;
        two = l.two;
        small = l.small;
        allocated = length-set q.ptr q.head (some x) ∙ l.allocated;
        counted = omega (arith, l.counted, l.small, r.room, length-append xs (x ∷ []));
        fits = omega (arith, r.room, length-append xs (x ∷ []));
        tail_in = l.tail_in;
        head_at = ground (arith, l.head_at, l.tail_in, r.room, length-append xs (x ∷ []));
        holds =
            Holds-snoc q.cap q.tail l.tail_in ptr xs x 1
              (subst (λ z. Holds (set q.ptr z (some x)) q.cap q.tail 1 xs) (sym l.head_at)
                (Holds-set q.cap q.tail l.tail_in q.ptr xs 1 (suc (length xs)) (some x)
                  (omega arith) (omega (arith, r.room)) (omega (arith, r.room)) l.holds))
              (subst (λ z. get_elem? ptr z ≡ some (some x))
                (l.head_at ∙ ap (pos q.cap q.tail) (omega arith))
                (get-set q.ptr q.head (some x) (omega (arith, head_in, l.allocated))));
      }

  pub push_front_lem :
      (q : VecDeque A) (xs : List A) (x : A)
      → IsRing q xs
      → length xs < n
      → q.cap ≤ 2 * n + 1
      → Leaves (2 * n + 1) (x ∷ xs) (push_front limit q x)
  unfolding push_front write_slot
  push_front_lem q xs x r h c =
      rw (lt→ltb q.tail (length q.ptr) (omega (arith, l.tail_in, l.allocated)), next)
        (grow_if_full_lem written (x ∷ xs) laid h c)
    where
      l : IsLaid q xs
      l = r.laid

      before : ℕ
      before = pos q.cap q.tail (q.cap - 1)

      next : wrap_index (sub64 (add64 q.tail q.cap) 1) q.cap ≡ before
      next =
          ap (λ z. wrap_index z q.cap) (omega (arith, l.small, l.tail_in, l.two))
          ∙ wrap_index-pos q.cap q.tail (q.cap - 1) l.exponent l.power l.two l.small
              (omega (arith, l.two, l.tail_in))

      before_in : before < q.cap
      before_in = pos-lt q.cap q.tail (q.cap - 1) (omega (arith, l.two, l.tail_in))

      behind : pos q.cap before 1 ≡ q.tail
      behind = ground (arith, l.tail_in, l.two)

      around : pos q.cap q.tail q.cap ≡ q.tail
      around = ground (arith, l.tail_in, l.two)

      ptr : List (Option A)
      ptr = set q.ptr q.tail (some x)

      written : VecDeque A
      written = record q { tail = before; len = add64 q.len 1; ptr = ptr }

      kept : Holds ptr q.cap q.tail 1 xs
      kept =
          subst (λ z. Holds (set q.ptr z (some x)) q.cap q.tail 1 xs) around
            (Holds-set q.cap q.tail l.tail_in q.ptr xs 1 q.cap (some x) (omega (arith, r.room))
              (omega arith) (omega arith) l.holds)

      laid : IsLaid written (x ∷ xs)
      laid = record {
        exponent = l.exponent;
        power = l.power;
        two = l.two;
        small = l.small;
        allocated = length-set q.ptr q.tail (some x) ∙ l.allocated;
        counted = omega (arith, l.counted, l.small, r.room);
        fits = r.room;
        tail_in = before_in;
        head_at = l.head_at ∙ ground (arith, l.tail_in, r.room, l.two);
        holds = (
          subst (λ z. get_elem? ptr z ≡ some (some x)) (sym behind)
              (get-set q.ptr q.tail (some x) (omega (arith, l.tail_in, l.allocated))),
          Holds-move q.cap q.tail l.tail_in ptr xs before 1 2 before_in
              (ground (arith, l.tail_in, l.two)) (omega (arith, r.room)) (omega (arith, r.room))
              kept,
        );
      }
