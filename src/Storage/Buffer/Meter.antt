-- ===== src/Storage/Buffer/Meter.antt =====
-- `Buffer::meter`: the buffer as a gauge of characters, here their code points.
use kawa.Prelude.{
  ℕ, zero, suc, ◌+◌, ◌*◌, ◌/◌, ◌^◌, ◌≤◌, ◌<◌, ◌≡◌, refl, ap, ◌∙◌, ◌⊎◌, inl, inr, true, false,
  Option, none, some, List, [], ◌∷◌, arith, ltb, ◌==◌, if◌then◌else◌, Bool-cases, ◌>>=◌, add64,
  mul64, length,
}
use kawa.Storage.Buffer.{Buffer, capacity}

module _ (b : Buffer) (half size : ℕ) where
  -- The mark at `at` on the scale; the division panics without capacity.
  unfoldable pub scaled : ℕ → Option ℕ
  scaled at = if capacity b == 0 then none else some (mul64 at size / capacity b)

  -- The cell behind the opening bracket, between the marks.
  unfoldable pub bar : ℕ → Option ℕ
  unfolding scaled
  bar i = do
    start ← scaled b.start
    head ← scaled b.head
    end ← scaled b.end
    some (
        if ltb i start
        then 32
        else if ltb i head
        then 9608
        else if ltb i end
        then 9617
        else if ltb i size
        then 32
        else 93)

  unfoldable pub cell : ℕ → Option ℕ
  unfolding bar
  cell zero = some 91
  cell (suc i) = if i == half then some 58 else bar i

  unfoldable pub cells : ℕ → ℕ → Option (List ℕ)
  unfolding cell
  cells zero i = some []
  cells (suc n) i = do c ← cell i; rest ← cells n (i + 1); some (c ∷ rest)

unfoldable pub meter : Buffer → ℕ → Option (List ℕ)
unfolding cells
meter b half = let size = add64 (mul64 half 2) 1 in cells b half size (size + 2) 0

module _ (b : Buffer) (half size : ℕ) where
  cell-some : 0 < capacity b → (i : ℕ) → (c : ℕ) × (cell b half size i ≡ some c)
  unfolding cell bar scaled
  cell-some h zero = (91, refl)
  cell-some h (suc i) =
      let z : (capacity b == 0) ≡ false = ground arith in
      elim (Bool-cases (i == half)) [ inl e ↦ rw e (58, refl) | inr e ↦ rw (e, z) (_, refl) ]

  cells-some :
      0 < capacity b
      → (n i : ℕ) → (cs : List ℕ) × (cells b half size n i ≡ some cs) × (length cs ≡ n)
  unfolding cells
  cells-some h zero i = ([], refl, refl)
  cells-some h (suc n) i =
      let (c, e) = cell-some h i in
      let (cs, f, l) = cells-some h n (i + 1) in (c ∷ cs, rw (cells, e, f) refl, ap suc l)

  cell-none : capacity b ≡ 0 → cell b half size (suc (suc half)) ≡ none
  unfolding cell bar scaled
  cell-none z =
      let beside : (suc half == half) ≡ false = ground arith in
      let nothing : (capacity b == 0) ≡ true = ground arith in rw (beside, nothing) refl

  -- The cell behind the middle one is reached, and not shown without capacity.
  cells-none :
      capacity b ≡ 0 → (n i : ℕ) → i ≤ half + 2 → half + 2 < i + n → cells b half size n i ≡ none
  unfolding cells
  cells-none z zero i h p = absurd (omega arith)
  cells-none z (suc n) i h p = elim (Bool-cases (i == half + 2)) [
    | inl e ↦ let at : i ≡ suc (suc half) = ground arith in rw (at, cell-none z, cells) refl
    | inr e ↦
        rw (cells, cells-none z n (i + 1) (ground arith) (omega arith))
          (no_rest (cell b half size i))
  ]
    where
      no_rest : (c : Option ℕ) → (c >>= (λ c. none >>= (λ (rest : List ℕ). some (c ∷ rest)))) ≡ none
      no_rest none = refl
      no_rest (some c) = refl

-- Of a buffer with capacity the gauge has `2 * half + 3` characters, whatever the marks are; of one
-- without it panics, as it divides by the capacity.
pub meter_lem :
    (b : Buffer) (half : ℕ)
    → half < 2 ^ 32
    → ((0 < capacity b) × (cs : List ℕ) × (meter b half ≡ some cs) × (length cs ≡ 2 * half + 3))
      ⊎ ((capacity b ≡ 0) × (meter b half ≡ none))
unfolding meter
meter_lem b half h =
    let size : add64 (mul64 half 2) 1 + 2 ≡ 2 * half + 3 = omega arith in
    elim (Bool-cases (capacity b == 0)) [
      | inl e ↦
          let z : capacity b ≡ 0 = ground arith in
          inr (z, cells-none b half _ z _ 0 (omega arith) (omega (arith, size)))
      | inr e ↦
          let p : 0 < capacity b = ground arith in
          let (cs, f, l) =
            cells-some b half (add64 (mul64 half 2) 1) p (add64 (mul64 half 2) 1 + 2) 0 in
          inl (p, cs, f, l ∙ size)
    ]
