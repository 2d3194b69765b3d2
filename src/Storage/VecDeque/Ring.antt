-- ===== src/Storage/VecDeque/Ring.antt =====
-- Where the elements of a queue lie in its ring.
use kawa.Prelude.{
  ℕ, zero, suc, ◌+◌, ◌-◌, ◌*◌, ◌^◌, ◌≤◌, ◌<◌, ◌≡◌, refl, ap, ◌∙◌, subst, ◌≢◌, ◌⊎◌, inl, inr, Option,
  some, List, [], ◌∷◌, ◌++◌, arith, ltb, if◌then◌else◌, Bool-cases, sub64, length, get_elem?, set,
}
use Prim.Native.Nat.{bit_and}
use kawa.Storage.VecDeque.{VecDeque, wrap_index}
use kawa.Storage.VecDeque.Mask.{mask_lem}

pub get-set {ℓ} :
    {A : Type ℓ} (xs : List A) (i : ℕ) (v : A) → i < length xs → get_elem? (set xs i v) i ≡ some v
get-set [] i v h = absurd (omega arith)
get-set (x ∷ xs) zero v h = refl
get-set (x ∷ xs) (suc i) v h = get-set xs i v (omega arith)

pub get-set_other {ℓ} :
    {A : Type ℓ} (xs : List A) (i j : ℕ) (v : A) → i ≢ j → get_elem? (set xs i v) j ≡ get_elem? xs j
get-set_other [] i j v h = refl
get-set_other (x ∷ xs) zero zero v h = absurd (h refl)
get-set_other (x ∷ xs) zero (suc j) v h = refl
get-set_other (x ∷ xs) (suc i) zero v h = refl
get-set_other (x ∷ xs) (suc i) (suc j) v h = get-set_other xs i j v (λ e. h (ap suc e))

-- The place `i` slots behind `at`, in a ring of `cap` slots.
abbrev pub pos : ℕ → ℕ → ℕ → ℕ
pos size at i =
    if ltb (at + i) size
    then at + i
    else if ltb (at + i) (size + size)
    then at + i - size
    else at + i - size - size

pub pos-lt : (size at i : ℕ) → at + i < 3 * size → pos size at i < size
pos-lt size at i h = ground arith

masked : (k n q r : ℕ) → r < 2 ^ k → n ≡ q * 2 ^ k + r → bit_and n (2 ^ k - 1) ≡ r
masked k n q r h e = ap (λ z. bit_and z (2 ^ k - 1)) e ∙ mask_lem k q r h

-- Masking an index in reach wraps it around, where the capacity is a power of two.
pub wrap_index-pos :
    (size at i k : ℕ)
    → size ≡ 2 ^ k
    → 2 ≤ size
    → size ≤ 2 ^ 62
    → at + i < 3 * size
    → wrap_index (at + i) size ≡ pos size at i
unfolding wrap_index
wrap_index-pos size at i k power two small h = rw mask (elim (Bool-cases (ltb (at + i) size)) [
  | inl one ↦ rw one (masked k (at + i) 0 (at + i) (ground arith) (omega arith))
  | inr not_one ↦ rw not_one (elim (Bool-cases (ltb (at + i) (size + size))) [
    | inl two ↦ rw two (masked k (at + i) 1 (at + i - size) (ground arith) (ground arith))
    | inr not_two ↦
        rw not_two (masked k (at + i) 2 (at + i - size - size) (ground arith) (ground arith))
  ])
])
  where
    mask : sub64 size 1 ≡ 2 ^ k - 1
    mask = omega arith

-- The elements `xs` stand in the slots from `i` behind `at` on.
abbrev pub Holds {ℓ} : {A : Type ℓ} → List (Option A) → ℕ → ℕ → ℕ → List A → Type ℓ
Holds ptr size at i [] = Unit
Holds ptr size at i (x ∷ xs) =
    (get_elem? ptr (pos size at i) ≡ some (some x)) × Holds ptr size at (suc i) xs

-- A queue whose elements are `xs`; it may be full.
pub record IsLaid {ℓ} {A : Type ℓ} (q : VecDeque A) (xs : List A) : Type ℓ where
  pub exponent : ℕ
  pub power : q.cap ≡ 2 ^ exponent
  pub two : 2 ≤ q.cap
  pub small : q.cap ≤ 2 ^ 62
  pub allocated : length q.ptr ≡ q.cap
  pub counted : q.len ≡ length xs
  pub fits : length xs ≤ q.cap
  pub tail_in : q.tail < q.cap
  pub head_at : q.head ≡ pos q.cap q.tail (suc (length xs))
  pub holds : Holds q.ptr q.cap q.tail 1 xs

-- Between two calls there is room for one more element.
pub record IsRing {ℓ} {A : Type ℓ} (q : VecDeque A) (xs : List A) : Type ℓ where
  pub laid : IsLaid q xs
  pub room : length xs < q.cap

module _ {ℓ} {A : Type ℓ} (size at : ℕ) (inside : at < size) where
  pub Holds-set :
      (ptr : List (Option A)) (xs : List A) (i m : ℕ) (v : Option A)
      → i + length xs ≤ m
      → m < i + size
      → m ≤ size + 1
      → Holds ptr size at i xs
      → Holds (set ptr (pos size at m) v) size at i xs
  Holds-set ptr [] i m v h k l p = tt
  Holds-set ptr (x ∷ xs) i m v h k l p = (
    get-set_other ptr (pos size at m) (pos size at i) v (λ e. ground arith) ∙ p.0,
    Holds-set ptr xs (suc i) m v (omega arith) (omega arith) l p.1,
  )

  pub Holds-snoc :
      (ptr : List (Option A)) (xs : List A) (x : A) (i : ℕ)
      → Holds ptr size at i xs
      → get_elem? ptr (pos size at (i + length xs)) ≡ some (some x)
      → Holds ptr size at i (xs ++ (x ∷ []))
  Holds-snoc ptr [] x i p e =
      (subst (λ z. get_elem? ptr (pos size at z) ≡ some (some x)) (omega arith) e, tt)
  Holds-snoc ptr (y ∷ xs) x i p e = (
    p.0,
    Holds-snoc ptr xs x (suc i) p.1
        (subst (λ z. get_elem? ptr (pos size at z) ≡ some (some x)) (omega arith) e),
  )

  pub Holds-front :
      (ptr : List (Option A)) (xs ys : List A) (i : ℕ)
      → Holds ptr size at i (xs ++ ys)
      → Holds ptr size at i xs × Holds ptr size at (i + length xs) ys
  Holds-front ptr [] ys i p = (tt, subst (λ z. Holds ptr size at z ys) (omega arith) p)
  Holds-front ptr (x ∷ xs) ys i p =
      let r = Holds-front ptr xs ys (suc i) p.1 in
      ((p.0, r.0), subst (λ z. Holds ptr size at z ys) (omega arith) r.1)

  -- The same slots, counted from another place.
  pub Holds-move :
      (ptr : List (Option A)) (xs : List A) (at' i i' : ℕ)
      → at' < size
      → (at + i ≡ at' + i') ⊎ (at + i ≡ at' + i' + size) ⊎ (at + i + size ≡ at' + i')
      → i + length xs ≤ size + 1
      → i' + length xs ≤ size + 1
      → Holds ptr size at i xs
      → Holds ptr size at' i' xs
  Holds-move ptr [] at' i i' t e h k p = tt
  Holds-move ptr (x ∷ xs) at' i i' t e h k p = (
    same ∙ p.0,
    Holds-move ptr xs at' (suc i) (suc i') t (ground arith) (omega arith) (omega arith) p.1,
  )
    where
      place : pos size at' i' ≡ pos size at i
      place = ground arith

      same : get_elem? ptr (pos size at' i') ≡ get_elem? ptr (pos size at i)
      same = ap (get_elem? ptr) place
