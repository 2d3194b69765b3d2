-- ===== src/Storage/VecDeque/Growth.antt =====
-- `grow` lays the elements out anew, at the front of a larger ring.
use kawa.Prelude.{
  ℕ, zero, suc, ◌+◌, ◌-◌, ◌*◌, ◌^◌, ◌≤◌, ◌<◌, ◌≡◌, refl, sym, ap, ◌∙◌, subst, ◌⊎◌, inl, inr, true,
  Option, none, some, List, [], ◌∷◌, ◌++◌, map, append_assoc, arith, ltb, ◌==◌, le→leb, Bool-cases,
  add64, sub64, mul64, length, get_elem?, replicate, length-append, length-replicate,
}
use kawa.Storage.VecDeque.{VecDeque, doubled, grow, as_slices}
use kawa.Storage.VecDeque.Ring.{pos, Holds, IsLaid, IsRing}
use kawa.Storage.VecDeque.Slices.{as_slices_shows, one_run, as_slices_stale}
use native.Mathlib.Nat.{pow-suc, pow-le-pow_right}

-- The capacity that the loop of `grow` reaches: a power of two from `target` on, below twice of it
-- where the old one was.
abbrev pub Doubled : ℕ → ℕ → ℕ → Type 0
Doubled size target new =
    (k : ℕ) × (new ≡ 2 ^ k) × (target ≤ new) × (size ≤ new) × ((new ≡ size) ⊎ (new < 2 * target))

doubled_next :
    (fuel size target : ℕ)
    → ltb size target ≡ true
    → mul64 size 2 ≡ size * 2
    → doubled (suc fuel) size target ≡ doubled fuel (size * 2) target
unfolding doubled
doubled_next fuel size target less e = rw (less, doubled) (ap (λ z. doubled fuel z target) e)

doubled_lem :
    (fuel k size target : ℕ)
    → size ≡ 2 ^ k
    → size ≤ 2 ^ 63
    → target ≤ 2 ^ 62
    → 63 < k + fuel
    → (new : ℕ) × (doubled fuel size target ≡ some new) × Doubled size target new
unfolding doubled
doubled_lem zero k size target e s t f =
    absurd (omega (arith, pow-le-pow_right {n = 2} (omega arith) {i = 64} {j = k} (omega arith)))
doubled_lem (suc fuel) k size target e s t f = elim (Bool-cases (ltb size target)) [
  | inl less ↦
      let (new, run, facts) =
        doubled_lem fuel (suc k) (size * 2) target twice (ground arith) t (omega arith) in
      (
        new,
        doubled_next fuel size target less (no_wrap (ground arith)) ∙ run,
        (facts.0, facts.1, facts.2, omega (arith, facts.3), inr (below (ground arith) facts.4)),
      )
  | inr fits ↦ (size, rw (fits, doubled) refl, (k, e, ground arith, omega arith, inl refl))
]
  where
    twice : size * 2 ≡ 2 ^ suc k
    twice = omega (arith, pow-suc 2 k)

    no_wrap : size < target → mul64 size 2 ≡ size * 2
    no_wrap h = omega arith

    below : {new : ℕ} → size < target → (new ≡ size * 2) ⊎ (new < 2 * target) → new < 2 * target
    below h (inl x) = omega arith
    below h (inr x) = x

length-map-some {ℓ} : {A : Type ℓ} (xs : List A) → length (map some xs) ≡ length xs
length-map-some [] = refl
length-map-some (x ∷ xs) = ap suc (length-map-some xs)

get-append {ℓ} :
    {A : Type ℓ} (xs ys : List A) (y : A) (i : ℕ)
    → length xs ≡ i
    → get_elem? (xs ++ (y ∷ ys)) i ≡ some y
get-append [] ys y zero e = refl
get-append [] ys y (suc i) e = absurd (omega (arith, e))
get-append (x ∷ xs) ys y zero e = absurd (omega (arith, e))
get-append (x ∷ xs) ys y (suc i) e = get-append xs ys y i (omega (arith, e))

-- In a new ring whose tail is its last slot, the elements start at the front.
Holds-laid {ℓ} :
    {A : Type ℓ} (xs : List A) (rest : List (Option A)) (size i : ℕ)
    → i + length xs ≤ size
    → (front : List (Option A)) → length front ≡ i
    → Holds (front ++ (map some xs ++ rest)) size (size - 1) (suc i) xs
Holds-laid [] rest size i h front e = tt
Holds-laid (x ∷ xs) rest size i h front e = (
  ap (get_elem? (front ++ (some x ∷ (map some xs ++ rest)))) place
      ∙ get-append front (map some xs ++ rest) (some x) i e,
  subst (λ z. Holds z size (size - 1) (suc (suc i)) xs)
      (append_assoc front (some x ∷ []) (map some xs ++ rest))
      (Holds-laid xs rest size (suc i) (omega arith) (front ++ (some x ∷ []))
        (omega (arith, e, length-append front (some x ∷ [])))),
)
  where
    place : pos size (size - 1) (suc i) ≡ i
    place = ground arith

-- The slices that `grow` copies fit the old ring, and hold the elements in their order.
abbrev Copies {ℓ} : {A : Type ℓ} → VecDeque A → List A → List (Option A) → List (Option A) → Type ℓ
Copies {A = A} q xs front back =
    (as_slices q ≡ some (front, back))
    × (length front + length back ≤ q.cap)
    × ((rest : List (Option A)) (size : ℕ)
        → length xs ≤ size
        → Holds (front ++ (back ++ rest)) size (size - 1) 1 xs)

copies_lem {ℓ} :
    {A : Type ℓ} (q : VecDeque A) (xs : List A)
    → IsLaid q xs
    → (front : List (Option A)) × (back : List (Option A)) × Copies q xs front back
copies_lem q (x ∷ xs) r =
    let (front, back, run, same) = as_slices_shows q (x ∷ xs) r (omega arith) in
    (
      front,
      back,
      (
        run,
        omega (arith, r.fits, length-append front back, ap length same, length-map-some (x ∷ xs)),
        λ rest size h.
            subst (λ z. Holds z size (size - 1) 1 (x ∷ xs))
              (ap (λ z. z ++ rest) (sym same) ∙ append_assoc front back rest)
              (Holds-laid (x ∷ xs) rest size 0 (omega arith) [] refl),
      ),
    )
copies_lem q [] r = elim (Bool-cases (q.head == 0)) [
  | inl z ↦
      let (front, back, run, same) = one_run q [] r (ground (arith, r.head_at)) in
      (
        front,
        back,
        (run, omega (arith, length-append front back, ap length same), λ rest size h. tt),
      )
  | inr n ↦
      let (front, back, run, total) = as_slices_stale q r (ground arith) in
      (front, back, (run, omega arith, λ rest size h. tt))
]

-- What `grow` makes of a queue that may be full.
pub grow_lem {ℓ} :
    {A : Type ℓ} (limit : ℕ) (q : VecDeque A) (xs : List A) (additional : ℕ)
    → IsLaid q xs
    → 0 < additional
    → q.cap + additional ≤ 2 ^ 61
    → 2 * (q.cap + additional) ≤ limit
    → (q' : VecDeque A) × (grow limit q additional ≡ some q')
      × IsRing q' xs
      × (q'.cap < 2 * (q.cap + additional))
unfolding grow
grow_lem {A = A} limit q xs additional r a t l =
    let (new, run, facts) =
      doubled_lem 64 r.exponent q.cap (q.cap + additional) r.power (omega (arith, r.small))
        (omega arith) (omega arith) in
    let (front, back, copies) = copies_lem q xs r in grown new run facts front back copies
  where
    sum : add64 q.cap additional ≡ q.cap + additional
    sum = omega arith

    grown :
        (new : ℕ)
        → doubled 64 q.cap (q.cap + additional) ≡ some new
        → Doubled q.cap (q.cap + additional) new
        → (front back : List (Option A)) → Copies q xs front back
        → (q' : VecDeque A) × (grow limit q additional ≡ some q')
          × IsRing q' xs
          × (q'.cap < 2 * (q.cap + additional))
    grown new run (k, power, enough, larger, bound) front back (slices, small, laid) =
        rw
          (
            sum,
            run,
            le→leb new limit (omega arith),
            slices,
            le→leb (length front + length back) new (omega arith),
          )
          (
            fresh,
            refl,
            record {
              laid = record {
                exponent = k;
                power = power;
                two = omega (arith, r.two);
                small = small_new;
                allocated = omega (
                  arith,
                  length-append front (back ++ replicate spare none),
                  length-append back (replicate spare none),
                  length-replicate {A = Option A} spare none,
                );
                counted = r.counted;
                fits = omega (arith, r.fits);
                tail_in = omega (arith, last, r.two);
                head_at = ground (arith, r.counted, last, r.fits, r.two);
                holds =
                    subst (λ z. Holds fresh.ptr new z 1 xs) (sym last)
                      (laid (replicate spare none) new (omega (arith, r.fits)));
              };
              room = omega (arith, r.fits);
            },
            cap_bound,
          )
      where
        spare : ℕ
        spare = new - (length front + length back)

        fresh : VecDeque A
        fresh = record {
          tail = sub64 new 1;
          head = q.len;
          cap = new;
          len = q.len;
          ptr = front ++ (back ++ replicate spare none);
        }

        cap_bound : new < 2 * (q.cap + additional)
        cap_bound = omega arith

        small_new : new ≤ 2 ^ 62
        small_new = omega (arith, cap_bound)

        last : sub64 new 1 ≡ new - 1
        last = omega (arith, small_new, r.two)
