-- ===== src/Storage/VecDeque/Refine.antt =====
-- The ring against its specification, a list.
use kawa.Prelude.{
  ℕ, suc, ◌+◌, ◌-◌, ◌*◌, ◌^◌, ◌≤◌, ◌<◌, ◌≡◌, refl, inl, inr, Option, none, some, List, [], ◌∷◌,
  ◌++◌, arith, ltb, ltb→lt, Bool-cases, ◌>>=◌, sub64, length, All, length-append,
}
use mathlib.Core.Option
use kawa.Storage.VecDeque.{
  VecDeque, push_back, push_front, pop_back, pop_front, clear, drain, iter, reserve, with_capacity,
}
use kawa.Storage.VecDeque.Ring.{IsRing}
use kawa.Storage.VecDeque.Growth.{grow_lem}
use kawa.Storage.VecDeque.Pushes.{push_back_lem, push_front_lem}
use kawa.Storage.VecDeque.Pops.{pop_back_lem, pop_front_lem, pop_empty}
use kawa.Storage.VecDeque.Walk.{drain_lem, clear_lem, iter_lem, with_capacity_lem}

pub data Op {ℓ} (A : Type ℓ) : Type ℓ where
  to_back to_front : A → Op A
  from_back from_front cleared drained iterated : Op A
  reserved : ℕ → Op A

module _ {ℓ} {A : Type ℓ} where
  -- A list without its last element, and that element.
  abbrev pub unsnoc : List A → Option (List A × A)
  unsnoc [] = none
  unsnoc (x ∷ xs) = elim (unsnoc xs) [ none ↦ some ([], x) | some (ys, y) ↦ some (x ∷ ys, y) ]

  abbrev listed : Option A → List A
  listed none = []
  listed (some x) = x ∷ []

  -- What a call does to a list, and the elements that it returns.
  abbrev pub spec : Op A → List A → List A × List A
  spec (to_back x) xs = (xs ++ (x ∷ []), [])
  spec (to_front x) xs = (x ∷ xs, [])
  spec from_back xs = elim (unsnoc xs) [ none ↦ ([], []) | some (ys, y) ↦ (ys, y ∷ []) ]
  spec from_front [] = ([], [])
  spec from_front (x ∷ xs) = (xs, x ∷ [])
  spec cleared xs = ([], [])
  spec drained xs = ([], xs)
  spec iterated xs = (xs, xs)
  spec (reserved n) xs = (xs, [])

  -- The call on the ring; `none` is a panic or undefined behaviour.
  abbrev pub call : ℕ → Op A → VecDeque A → Option (VecDeque A × List A)
  call limit (to_back x) q = Option.map (λ q. (q, [])) (push_back limit q x)
  call limit (to_front x) q = Option.map (λ q. (q, [])) (push_front limit q x)
  call limit from_back q = Option.map (λ r. (r.0, listed r.1)) (pop_back q)
  call limit from_front q = Option.map (λ r. (r.0, listed r.1)) (pop_front q)
  call limit cleared q = Option.map (λ q. (q, [])) (clear q)
  call limit drained q = drain q
  call limit iterated q = Option.map (λ xs. (q, xs)) (iter q)
  call limit (reserved n) q = Option.map (λ q. (q, [])) (reserve limit q n)

  -- Of `n` slots that a run may fill, what a call asks for.
  abbrev pub Asks : ℕ → Op A → List A → Type 0
  Asks n (to_back x) xs = length xs < n
  Asks n (to_front x) xs = length xs < n
  Asks n (reserved m) xs = m ≤ n
  Asks n _ xs = Unit

  -- The outcome of a call on a queue of `xs`.
  abbrev pub Meets : ℕ → List A × List A → Option (VecDeque A × List A) → Type ℓ
  Meets n (ys, out) r = (q : VecDeque A) × (r ≡ some (q, out)) × IsRing q ys × (q.cap ≤ 2 * n + 1)

  data Unsnoc : List A → Option (List A × A) → Type ℓ where
    nothing : Unsnoc [] none
    last : (ys : List A) (y : A) → Unsnoc (ys ++ (y ∷ [])) (some (ys, y))

  unsnoc_cons :
      (x : A) (xs : List A) (r : Option (List A × A))
      → Unsnoc xs r
      → Unsnoc (x ∷ xs) (elim r [ none ↦ some ([], x) | some (ys, y) ↦ some (x ∷ ys, y) ])
  unsnoc_cons x _ _ nothing = last [] x
  unsnoc_cons x _ _ (last ys y) = last (x ∷ ys) y

  unsnoc_lem : (xs : List A) → Unsnoc xs (unsnoc xs)
  unsnoc_lem [] = nothing
  unsnoc_lem (x ∷ xs) = unsnoc_cons x xs (unsnoc xs) (unsnoc_lem xs)

  module _ (limit n : ℕ) (word : n ≤ 2 ^ 60) (fits : 2 * n + 2 ≤ limit) where
    pop_back-Meets :
        (q : VecDeque A) (xs : List A) (u : Option (List A × A))
        → Unsnoc xs u
        → IsRing q xs
        → q.cap ≤ 2 * n + 1
        → Meets n
            (elim u [ none ↦ ([], []) | some (ys, y) ↦ (ys, y ∷ []) ])
            (Option.map (λ r. (r.0, listed r.1)) (pop_back q))
    pop_back-Meets q _ _ nothing r c = (q, rw ((pop_empty q r).0) refl, r, c)
    pop_back-Meets q _ _ (last ys y) r c =
        let (q', run, ring, same) = pop_back_lem q ys y r in
        (q', rw run refl, ring, omega (arith, same))

    reserve-Meets :
        (q : VecDeque A) (xs : List A) (m : ℕ)
        → IsRing q xs
        → q.cap ≤ 2 * n + 1
        → m ≤ n
        → (q' : VecDeque A) × (reserve limit q m ≡ some q') × IsRing q' xs × (q'.cap ≤ 2 * n + 1)
    unfolding reserve
    reserve-Meets q xs m r c a = elim (Bool-cases (ltb q.cap m)) [
      | inl less ↦
          let lt : q.cap < m = ltb→lt q.cap m less in
          let gap : sub64 m q.cap ≡ m - q.cap = omega arith in
          let (q', run, ring, bound) =
            grow_lem limit q xs (sub64 m q.cap) r.laid (omega arith) (omega arith) (omega arith) in
          (q', rw less run, ring, omega arith)
      | inr more ↦ (q, rw more refl, r, c)
    ]

    -- Each call on a ring of `xs` with at most `2 * n + 1` slots, which asks for no more than `n`
    -- slots, succeeds, returns what the operation on lists returns, and leaves a ring of the list
    -- that it leaves, again of at most `2 * n + 1` slots, when an allocation may have `2 * n + 2`.
    pub call-Meets :
        (op : Op A) (q : VecDeque A) (xs : List A)
        → IsRing q xs
        → q.cap ≤ 2 * n + 1
        → Asks n op xs
        → Meets n (spec op xs) (call limit op q)
    call-Meets (to_back x) q xs r c a =
        let (q', run, ring, cap) = push_back_lem limit n word fits q xs x r a c in
        (q', rw run refl, ring, cap)
    call-Meets (to_front x) q xs r c a =
        let (q', run, ring, cap) = push_front_lem limit n word fits q xs x r a c in
        (q', rw run refl, ring, cap)
    call-Meets from_back q xs r c a = pop_back-Meets q xs (unsnoc xs) (unsnoc_lem xs) r c
    call-Meets from_front q [] r c a = (q, rw ((pop_empty q r).1) refl, r, c)
    call-Meets from_front q (x ∷ xs) r c a =
        let (q', run, ring, same) = pop_front_lem q x xs r in
        (q', rw run refl, ring, omega (arith, same))
    call-Meets cleared q xs r c a =
        let (q', run, ring, same) = clear_lem q xs r in (q', rw run refl, ring, omega (arith, same))
    call-Meets drained q xs r c a =
        let (q', run, ring, same) = drain_lem q xs r in (q', run, ring, omega (arith, same))
    call-Meets iterated q xs r c a = (q, rw (iter_lem q xs r) refl, r, c)
    call-Meets (reserved m) q xs r c a =
        let (q', run, ring, cap) = reserve-Meets q xs m r c a in (q', rw run refl, ring, cap)

  -- A run of calls: what the list becomes, and the elements returned, call by call.
  abbrev pub spec_run : List (Op A) → List A → List A × List (List A)
  spec_run [] xs = (xs, [])
  spec_run (op ∷ ops) xs =
      let (ys, out) = spec op xs in let (zs, outs) = spec_run ops ys in (zs, out ∷ outs)

  abbrev pub call_run : ℕ → List (Op A) → VecDeque A → Option (VecDeque A × List (List A))
  call_run limit [] q = some (q, [])
  call_run limit (op ∷ ops) q = do
    r ← call limit op q
    rest ← call_run limit ops r.0
    some (rest.0, r.1 ∷ rest.1)

  abbrev pub asked : Op A → ℕ
  asked (reserved m) = m
  asked _ = 0

  module _ (limit n : ℕ) (word : n ≤ 2 ^ 60) (fits : 2 * n + 2 ≤ limit) where
    unsnoc-le :
        (xs : List A) (u : Option (List A × A))
        → Unsnoc xs u
        → length
            (elim u as (λ _. List A × List A) [ none ↦ ([], []) | some (ys, y) ↦ (ys, y ∷ []) ]).0
          ≤ length xs
    unsnoc-le _ _ nothing = omega arith
    unsnoc-le _ _ (last ys y) = omega (arith, length-append ys (y ∷ []))

    asks_lem :
        (op : Op A) (xs : List A) (more : ℕ)
        → asked op ≤ n
        → length xs + suc more ≤ n
        → Asks n op xs × (length (spec op xs).0 + more ≤ n)
    asks_lem (to_back x) xs more a h = (omega arith, omega (arith, length-append xs (x ∷ [])))
    asks_lem (to_front x) xs more a h = (omega arith, omega arith)
    asks_lem from_back xs more a h = (tt, omega (arith, unsnoc-le xs (unsnoc xs) (unsnoc_lem xs)))
    asks_lem from_front [] more a h = (tt, omega arith)
    asks_lem from_front (x ∷ xs) more a h = (tt, omega arith)
    asks_lem cleared xs more a h = (tt, omega arith)
    asks_lem drained xs more a h = (tt, omega arith)
    asks_lem iterated xs more a h = (tt, omega arith)
    asks_lem (reserved m) xs more a h = (a, omega arith)

    call_run-Meets :
        (ops : List (Op A)) (q : VecDeque A) (xs : List A)
        → IsRing q xs
        → q.cap ≤ 2 * n + 1
        → All (λ op. asked op ≤ n) ops
        → length xs + length ops ≤ n
        → (q' : VecDeque A) × (call_run limit ops q ≡ some (q', (spec_run ops xs).1))
          × IsRing q' (spec_run ops xs).0
    call_run-Meets [] q xs r c a h = (q, refl, r)
    call_run-Meets (op ∷ ops) q xs r c a h =
        let (ask, less) = asks_lem op xs (length ops) a.0 (omega arith) in
        let (q', run, ring, cap) = call-Meets limit n word fits op q xs r c ask in
        let (q'', runs, rings) = call_run-Meets ops q' (spec op xs).0 ring cap a.1 less in
        (q'', rw (run, runs) refl, rings)

    -- A new ring of a power of two slots behaves like an empty list through every run of calls, the
    -- pops, drains and iterations returning the same elements, and none of the calls panics or
    -- touches a slot that it must not, while the run has at most `n` calls, reserves at most `n`
    -- slots, and an allocation may have `2 * n + 2` slots.
    pub run_refines :
        (k : ℕ) (ops : List (Op A))
        → 2 ^ suc k ≤ 2 * n + 1
        → All (λ op. asked op ≤ n) ops
        → length ops ≤ n
        → (q q' : VecDeque A) × (with_capacity limit (2 ^ suc k) ≡ some q)
          × (call_run limit ops q ≡ some (q', (spec_run ops []).1))
          × IsRing q' (spec_run ops []).0
    run_refines k ops c a h =
        let (q, new, ring, cap) = with_capacity_lem limit k (omega arith) (omega arith) in
        let (q', run, end) = call_run-Meets ops q [] ring (omega (arith, cap)) a (omega arith) in
        (q, q', new, run, end)
