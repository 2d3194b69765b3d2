-- ===== src/Storage/VecDeque/Mask.antt =====
-- `&` with a mask of low bits keeps the remainder.
use kawa.Prelude.{
  ℕ, zero, suc, ◌+◌, ◌-◌, ◌*◌, ◌/◌, ◌%◌, ◌^◌, ◌≤◌, ◌<◌, min, ◌≡◌, refl, sym, ap, ap₂, ◌∙◌, arith,
}
use Prim.Native.Nat.{bit_and, bit_and-bitwise, digits, min}
use native.Mathlib.Nat.{pow-suc, one-le-pow}

no_digits : (n b : ℕ) → digits (λ _. 0) min n 0 b ≡ 0
no_digits zero b = refl
no_digits (suc n) b = refl

-- The count of digits of the native definition does not matter from the first number upwards.
and_digits-eq :
    (n m a b : ℕ) → a ≤ n → a ≤ m → digits (λ _. 0) min n a b ≡ digits (λ _. 0) min m a b
and_digits-eq zero m zero b h k = sym (no_digits m b)
and_digits-eq (suc n) m zero b h k = sym (no_digits m b)
and_digits-eq zero m (suc a) b h k = absurd (omega arith)
and_digits-eq (suc n) zero (suc a) b h k = absurd (omega arith)
and_digits-eq (suc n) (suc m) (suc a) b h k =
    ap (λ z. z * 2 + min (suc a % 2) (b % 2))
      (and_digits-eq n m (suc a / 2) (b / 2) (omega arith) (omega arith))

low_digit : (a b : ℕ) → bit_and a b ≡ bit_and (a / 2) (b / 2) * 2 + min (a % 2) (b % 2)
low_digit zero b = simp bit_and-bitwise (omega arith)
low_digit (suc a) b = simp bit_and-bitwise (
    ap (λ z. z * 2 + min (suc a % 2) (b % 2))
      (and_digits-eq a (suc a / 2) (suc a / 2) (b / 2) (omega arith) (omega arith)))

-- Strong induction, by a bound.
and_none : (n a : ℕ) → a ≤ n → bit_and a 0 ≡ 0
and_none zero zero h = refl
and_none zero (suc a) h = absurd (omega arith)
and_none (suc n) a h = omega (arith, low_digit a 0, and_none n (a / 2) (omega arith))

twice : (q k : ℕ) → q * 2 ^ suc k ≡ 2 * (q * 2 ^ k)
twice q k = rw (pow-suc 2 k) (grind arith)

-- A mask of `k` ones takes the digits below `2 ^ k`.
pub mask_lem : (k q r : ℕ) → r < 2 ^ k → bit_and (q * 2 ^ k + r) (2 ^ k - 1) ≡ r
mask_lem zero q r h = omega (arith, and_none (q * 2 ^ 0 + r) (q * 2 ^ 0 + r) (omega arith))
mask_lem (suc k) q r h = omega (
  arith,
  low_digit (q * 2 ^ suc k + r) (2 ^ suc k - 1),
  ap₂ bit_and left right ∙ mask_lem k q (r / 2) (omega (arith, pow-suc 2 k)),
  twice q k,
  pow-suc 2 k,
  one-le-pow k 2 (omega arith),
)
  where
    left : (q * 2 ^ suc k + r) / 2 ≡ q * 2 ^ k + r / 2
    left = omega (arith, twice q k)

    right : (2 ^ suc k - 1) / 2 ≡ 2 ^ k - 1
    right = omega (arith, pow-suc 2 k)
