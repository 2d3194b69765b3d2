-- ===== src/Storage/VecDeque/Slices.antt =====
-- `as_slices`: the elements of a queue in two runs of slots.
use kawa.Prelude.{
  ℕ, zero, suc, ◌+◌, ◌-◌, ◌≤◌, ◌<◌, ◌≡◌, refl, sym, ap, ap₂, ◌∙◌, subst, ◌⊎◌, inl, inr, true, false,
  ◌||◌, Option, some, List, [], ◌∷◌, ◌++◌, map, append-nil, arith, ltb, ◌==◌, Bool-cases, add64,
  sub64, length, get_elem?, take, drop, length-take, length-drop, take-append-drop, take_cong,
}
use kawa.Storage.VecDeque.{VecDeque, wrap_index, slots_from, as_slices}
use mathlib.Core.List.{map-append}
use kawa.Storage.VecDeque.Ring.{pos, wrap_index-pos, Holds, Holds-front, IsLaid}

slots_from-eq-some {ℓ} :
    {A : Type ℓ} (ptr : List (Option A)) (i n : ℕ)
    → i + n ≤ length ptr
    → slots_from ptr i n ≡ some (take n (drop i ptr))
unfolding slots_from
slots_from-eq-some ptr i n h = ground arith

drop-get {ℓ} :
    {A : Type ℓ} (xs : List A) (i : ℕ) (x : A)
    → get_elem? xs i ≡ some x
    → drop i xs ≡ x ∷ drop (suc i) xs
drop-get [] i x h = cc
drop-get (y ∷ xs) zero x h = cc
drop-get (y ∷ xs) (suc i) x h = drop-get xs i x h

-- Elements that do not wrap around are a run of slots.
Holds-take {ℓ} :
    {A : Type ℓ} (ptr : List (Option A)) (size at : ℕ) (xs : List A) (i p : ℕ)
    → (at + i ≡ p) ⊎ (at + i ≡ p + size)
    → p + length xs ≤ size
    → Holds ptr size at i xs
    → take (length xs) (drop p ptr) ≡ map some xs
Holds-take ptr size at [] i p e h t = refl
Holds-take ptr size at (x ∷ xs) i p e h t =
    ap (take (suc (length xs))) (drop-get ptr p (some x) (ap (get_elem? ptr) place ∙ t.0))
    ∙ ap (λ z. some x ∷ z)
        (Holds-take ptr size at xs (suc i) (suc p) (ground arith) (omega arith) t.1)
  where
    place : p ≡ pos size at i
    place = ground arith

pub next-pos {ℓ} :
    {A : Type ℓ} (q : VecDeque A) (xs : List A)
    → IsLaid q xs
    → wrap_index (add64 q.tail 1) q.cap ≡ pos q.cap q.tail 1
next-pos q xs r =
    ap (λ z. wrap_index z q.cap) (omega (arith, r.small, r.tail_in))
    ∙ wrap_index-pos q.cap q.tail 1 r.exponent r.power r.two r.small
        (omega (arith, r.two, r.tail_in))

module _ {ℓ} {A : Type ℓ} (q : VecDeque A) (xs : List A) (r : IsLaid q xs) where
  abbrev pub first : ℕ
  first = pos q.cap q.tail 1

  abbrev pub Shows : Type ℓ
  Shows =
      (front : List (Option A)) × (back : List (Option A)) × (as_slices q ≡ some (front, back))
      × (front ++ back ≡ map some xs)

  run_place : (q.tail + 1 ≡ first) ⊎ (q.tail + 1 ≡ first + q.cap)
  run_place = ground (arith, r.tail_in, r.two)

  pub one_run : (ltb first q.head || (first == 0)) ≡ true → Shows
  unfolding as_slices
  one_run c =
      rw
        (
          next-pos q xs r,
          c,
          slots_from-eq-some q.ptr first q.len (omega (arith, fits, r.counted, r.allocated)),
        )
        (
          take q.len (drop first q.ptr),
          [],
          refl,
          append-nil _
              ∙ take_cong (drop first q.ptr) r.counted
              ∙ Holds-take q.ptr q.cap q.tail xs 1 first run_place fits r.holds,
        )
    where
      fits : first + length xs ≤ q.cap
      fits = ground (arith, r.head_at, r.tail_in, r.fits, r.two)

  two_runs : (ltb first q.head || (first == 0)) ≡ false → 0 < length xs → Shows
  unfolding as_slices
  two_runs c h =
      rw
        (
          next-pos q xs r,
          c,
          slots_from-eq-some q.ptr first (sub64 (sub64 q.cap q.tail) 1)
              (omega (arith, size, turn, r.allocated, r.tail_in)),
          slots_from-eq-some q.ptr 0 q.head (omega (arith, rest, r.fits, r.allocated)),
        )
        (
          take (sub64 (sub64 q.cap q.tail) 1) (drop first q.ptr),
          take q.head q.ptr,
          refl,
          ap₂ (λ a b. a ++ b) (take_cong (drop first q.ptr) (size ∙ sym count) ∙ front)
                (take_cong q.ptr (omega (arith, rest, count, both)) ∙ back)
              ∙ sym (map-append some ys zs)
              ∙ ap (map some) (take-append-drop run xs),
        )
    where
      run : ℕ
      run = q.cap - first

      ys : List A
      ys = take run xs

      zs : List A
      zs = drop run xs

      turn : first ≡ suc q.tail
      turn = ground (arith, r.tail_in, c)

      size : sub64 (sub64 q.cap q.tail) 1 ≡ q.cap - first
      size = omega (arith, turn, r.small, r.tail_in)

      rest : q.head ≡ length xs - (q.cap - first)
      rest = ground (arith, r.head_at, r.tail_in, r.fits, c)

      count : length ys ≡ run
      count = ground (arith, length-take run xs, r.head_at, r.tail_in, r.fits, c)

      both : length zs ≡ length xs - run
      both = length-drop run xs

      split : Holds q.ptr q.cap q.tail 1 ys × Holds q.ptr q.cap q.tail (1 + length ys) zs
      split =
          Holds-front q.cap q.tail r.tail_in q.ptr ys zs 1
            (subst (Holds q.ptr q.cap q.tail 1) (sym (take-append-drop run xs)) r.holds)

      front : take (length ys) (drop first q.ptr) ≡ map some ys
      front =
          Holds-take q.ptr q.cap q.tail ys 1 first run_place (omega (arith, count, turn, r.tail_in))
            split.0

      back : take (length zs) q.ptr ≡ map some zs
      back =
          Holds-take q.ptr q.cap q.tail zs (1 + length ys) 0
            (inr (omega (arith, count, turn, r.tail_in))) (omega (arith, both, r.fits)) split.1

  -- Of a queue that is not empty `as_slices` shows the elements in their order, cut in two where
  -- the ring wraps around.
  pub as_slices_shows :
      0 < length xs
      → (front : List (Option A)) × (back : List (Option A)) × (as_slices q ≡ some (front, back))
        × (front ++ back ≡ map some xs)
  as_slices_shows h = elim (Bool-cases (ltb first q.head || (first == 0))) [
    | inl c ↦ one_run c
    | inr c ↦ two_runs c h
  ]

-- Of an empty queue whose head is not at the front of the ring, `as_slices` shows as many slots as
-- the ring has, none of which holds an element of the queue.
pub as_slices_stale {ℓ} :
    {A : Type ℓ} (q : VecDeque A)
    → IsLaid q []
    → 0 < q.head
    → (front : List (Option A)) × (back : List (Option A)) × (as_slices q ≡ some (front, back))
      × (length front + length back ≡ q.cap)
unfolding as_slices
as_slices_stale q r h =
    rw
      (
        next-pos q [] r,
        wraps,
        slots_from-eq-some q.ptr first (sub64 (sub64 q.cap q.tail) 1)
            (omega (arith, size, turn, r.allocated, r.tail_in)),
        slots_from-eq-some q.ptr 0 q.head (omega (arith, at, turn, r.allocated, r.tail_in)),
      )
      (
        take (sub64 (sub64 q.cap q.tail) 1) (drop first q.ptr),
        take q.head q.ptr,
        refl,
        omega (
          arith,
          size,
          at,
          turn,
          r.allocated,
          r.tail_in,
          length-take q.head q.ptr,
          length-take (sub64 (sub64 q.cap q.tail) 1) (drop first q.ptr),
          length-drop first q.ptr,
        ),
      )
  where
    first : ℕ
    first = pos q.cap q.tail 1

    at : q.head ≡ first
    at = r.head_at

    turn : first ≡ suc q.tail
    turn = ground (arith, r.head_at, r.tail_in)

    wraps : (ltb first q.head || (first == 0)) ≡ false
    wraps = ground (arith, at, h)

    size : sub64 (sub64 q.cap q.tail) 1 ≡ q.cap - first
    size = omega (arith, turn, r.small, r.tail_in)
