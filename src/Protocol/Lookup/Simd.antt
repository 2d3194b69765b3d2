-- ===== src/Protocol/Lookup/Simd.antt =====
-- The SIMD search and the scalar loop stop at the same byte.
use kawa.Prelude.{
  ℕ, zero, suc, ◌+◌, ◌≤◌, ◌<◌, ◌≡◌, refl, sym, ap, ◌∙◌, subst, inl, inr, Bool, true, not, List, [],
  ◌∷◌, arith, ltb, ◌==◌, if◌then◌else◌, ltb→lt, ==_iff, Bool-cases, add64, sub64, Bytes, length,
  take, drop, length-take, length-drop, take_prefix, drop-drop,
}
use native.Mathlib.Nat.{add_assoc, add-zero}
use kawa.Storage.Span.{Span, IsPlaced, from, upto}
use kawa.Protocol.Nom.{ok}
use kawa.Protocol.Lookup.{
  CharRange, between, only, char_ranges, char_predicate, make_char_lookup, scan, in_ranges,
  cmpestri, simd_loop, simd_index, take_while_simd, take_while, take_while_complete_simd,
  take_while_complete, streaming,
}

-- The ranges find exactly the bytes that the predicate refuses.
in_ranges-char_ranges :
    (rules : List CharRange) (c : ℕ)
    → not (in_ranges (char_ranges rules) c) ≡ char_predicate rules c
unfolding in_ranges char_ranges char_predicate
in_ranges-char_ranges [] c = refl
in_ranges-char_ranges (between lo hi ∷ rules) c = ground (arith, in_ranges-char_ranges rules c)
in_ranges-char_ranges (only r ∷ rules) c = ground (arith, in_ranges-char_ranges rules c)

pub scan-le : (p : ℕ → Bool) (xs : Bytes) → scan p xs ≤ length xs
unfolding scan
scan-le p [] = omega arith
scan-le p (x ∷ xs) = ground (arith, scan-le p xs)

scan_cong : (p q : ℕ → Bool) (xs : Bytes) → ((c : ℕ) → p c ≡ q c) → scan p xs ≡ scan q xs
unfolding scan
scan_cong p q [] h = refl
scan_cong p q (x ∷ xs) h = ground (arith, h x, scan_cong p q xs h)

-- A block that holds an invalid byte shows where it is; one that holds none is passed over.
scan-take_lt :
    (p : ℕ → Bool) (n : ℕ) (xs : Bytes)
    → n ≤ length xs
    → scan p (take n xs) < n
    → scan p xs ≡ scan p (take n xs)
unfolding scan
scan-take_lt p zero xs h k = absurd (omega arith)
scan-take_lt p (suc n) [] h k = refl
scan-take_lt p (suc n) (x ∷ xs) h k = ground (arith, scan-take_lt p n xs)

scan-take_eq :
    (p : ℕ → Bool) (n : ℕ) (xs : Bytes)
    → n ≤ length xs
    → scan p (take n xs) ≡ n
    → scan p xs ≡ n + scan p (drop n xs)
unfolding scan
scan-take_eq p zero xs h k = omega arith
scan-take_eq p (suc n) [] h k = absurd (omega arith)
scan-take_eq p (suc n) (x ∷ xs) h k = ground (arith, scan-take_eq p n xs)

module _ (rules : List CharRange) (eight : length (char_ranges rules) ≤ 16) where
  cmpestri_lem :
      (block : Bytes)
      → let l = make_char_lookup rules in
        cmpestri l.ranges l.len block ≡ scan (char_predicate rules) block
  unfolding make_char_lookup cmpestri
  cmpestri_lem block =
      rw (take_prefix (length (char_ranges rules)) (char_ranges rules) _ refl)
        (scan_cong _ _ block (in_ranges-char_ranges rules))

-- The loop stands at offset `o`, either on the first invalid byte or behind valid ones only.
abbrev Stopped : (ℕ → Bool) → Span → ℕ × Bool → Type 0
Stopped p input (at, found) =
    (o : ℕ) × (at ≡ input.addr + o)
    × (o ≤ length input.bytes)
    × (scan p input.bytes ≡ (if found then o else o + scan p (drop o input.bytes)))

module _ (rules : List CharRange) (eight : length (char_ranges rules) ≤ 16) (input : Span)
    (placed : IsPlaced input) (page : 16 ≤ input.addr) where
  limit : ℕ
  limit = sub64 (add64 input.addr (length input.bytes)) 16

  simd_loop_lem :
      (fuel o : ℕ)
      → o ≤ length input.bytes
      → scan (char_predicate rules) input.bytes
        ≡ o + scan (char_predicate rules) (drop o input.bytes)
      → Stopped
          (char_predicate rules)
          input
          (simd_loop fuel (make_char_lookup rules) input limit (input.addr + o))
  unfolding simd_loop limit
  simd_loop_lem zero o le e = (o, refl, le, e)
  simd_loop_lem (suc fuel) o le e =
      rw (offset, cmpestri_lem rules eight (take 16 (drop o input.bytes)))
        (elim (Bool-cases (ltb (input.addr + o) limit)) [
          | inr stop ↦ rw stop (o, refl, le, e)
          | inl go ↦ rw go (elim (Bool-cases (index == 16)) [
            | inr hit ↦ rw hit (found go (ground (arith, block_le)))
            | inl none_hit ↦
                rw none_hit (next go ((==_iff _ _).0 none_hit) (simd_loop_lem fuel (o + 16)))
          ])
        ])
    where
      offset : sub64 (input.addr + o) input.addr ≡ o
      offset = omega (arith, placed.fits, placed.small)

      index : ℕ
      index = scan (char_predicate rules) (take 16 (drop o input.bytes))

      block_le : index ≤ 16
      block_le = omega (
        arith,
        scan-le (char_predicate rules) (take 16 (drop o input.bytes)),
        length-take {0} 16 (drop o input.bytes),
      )

      room : ltb (input.addr + o) limit ≡ true → o + 16 < length input.bytes
      room go = omega (arith, ltb→lt _ limit go, placed.fits, placed.small)

      found :
          ltb (input.addr + o) limit ≡ true
          → index < 16
          → Stopped (char_predicate rules) input (input.addr + o + index, true)
      found go lt = (
        o + index,
        omega arith,
        omega (arith, room go),
        e
            ∙ ap (λ z. o + z)
                (scan-take_lt (char_predicate rules) 16 (drop o input.bytes)
                  (omega (arith, room go, length-drop {0} o input.bytes)) lt),
      )

      next :
          ltb (input.addr + o) limit ≡ true
          → index ≡ 16
          → (o + 16 ≤ length input.bytes
              → scan (char_predicate rules) input.bytes
                ≡ o + 16 + scan (char_predicate rules) (drop (o + 16) input.bytes)
              → Stopped
                  (char_predicate rules)
                  input
                  (simd_loop fuel (make_char_lookup rules) input limit (input.addr + (o + 16))))
          → Stopped
              (char_predicate rules)
              input
              (simd_loop fuel (make_char_lookup rules) input limit (input.addr + o + 16))
      next go all ih =
          subst
            (λ z.
              Stopped (char_predicate rules) input
                (simd_loop fuel (make_char_lookup rules) input limit z))
            (sym (add_assoc input.addr o 16))
            (ih (omega (arith, room go)) (
              omega (
                arith,
                e,
                ap (scan (char_predicate rules)) (drop-drop 16 o input.bytes),
                scan-take_eq (char_predicate rules) 16 (drop o input.bytes)
                    (omega (arith, room go, length-drop {0} o input.bytes)) all,
              )))

  Stopped-index :
      (r : ℕ × Bool)
      → Stopped (char_predicate rules) input r
      → let i = sub64 r.0 input.addr in
        (if not r.1 then i + scan (char_predicate rules) (drop i input.bytes) else i)
        ≡ scan (char_predicate rules) input.bytes
  Stopped-index (at, found) (o, e, le, same) =
      let i : sub64 at input.addr ≡ o = omega (arith, placed.fits, placed.small) in
      rw i (elim (Bool-cases found) [
        | inl f ↦ rw f (rw f at (sym same))
        | inr f ↦ rw f (rw f at (sym same))
      ])

  -- The index that both functions stop at.
  simd_index_lem :
      simd_index (make_char_lookup rules) input ≡ scan (char_predicate rules) input.bytes
  unfolding simd_index make_char_lookup limit
  simd_index_lem = Stopped-index _ (
      subst
        (λ z.
          Stopped (char_predicate rules) input
            (simd_loop (length input.bytes) (make_char_lookup rules) input limit z))
        (add-zero input.addr) (simd_loop_lem (length input.bytes) 0 (omega arith) (omega arith)))

  -- For every set of at most eight ranges and every input that lies in memory, not in its first 16
  -- bytes, the streaming function with SIMD returns what the scalar one returns.
  pub take_while_simd-eq-take_while :
      take_while_simd (make_char_lookup rules) input ≡ take_while (make_char_lookup rules) input
  unfolding take_while_simd take_while make_char_lookup
  take_while_simd-eq-take_while = ap (streaming input) simd_index_lem

  -- So do the complete functions.
  pub take_while_complete_simd-eq :
      take_while_complete_simd (make_char_lookup rules) input
      ≡ take_while_complete (make_char_lookup rules) input
  unfolding take_while_complete_simd take_while_complete make_char_lookup
  take_while_complete_simd-eq = ap (λ i. ok (from input i) (upto input i)) simd_index_lem
