-- ===== src/Protocol/Parser/Ended.antt =====
-- What the inner loop of `parse` leaves: the storage, a part of the input, and what `process_headers`
-- needs.
use kawa.Prelude.{
  ℕ, zero, suc, ◌<◌, ◌≡◌, refl, sym, ◌∙◌, subst, inl, inr, Bool, true, false, Option, none, some,
  arith, ◌==◌, Bool-cases, length,
}
use kawa.Storage.Span.{Span, IsPart, IsPart-refl, IsPart-trans}
use kawa.Storage.Buffer.{Buffer}
use kawa.Storage.Kawa.{Kawa}
use kawa.Protocol.Nom.{Nom}
use kawa.Protocol.Nom.Laws.{TakesBytes}
use kawa.Protocol.Nom.Parts.{TakesParts}
use kawa.Protocol.Parser.{Turn, next, stop, turn, turns}
use kawa.Protocol.Parser.Safe.{IsMemory, late, RawAt, Onwards, Stops, Good}
use kawa.Protocol.Parser.Turns.{turn-Good}

-- What the inner loop leaves of a state with the phase `w`, the buffer `b` and the input `u`.
abbrev pub Ended : Buffer → Bool → Span → Kawa × Span × Bool → Type 0
Ended b w u (j, r, need) =
    (j.storage ≡ b)
    × IsPart u r
    × RawAt (late j.parsing_phase) j
    × Stops w (late j.parsing_phase) need
    × (need ≡ true → 0 < length u.bytes)

abbrev pub EndedIf : Buffer → Bool → Span → Option (Kawa × Span × Bool) → Type 0
EndedIf b w u none = Unit
EndedIf b w u (some t) = Ended b w u t

Onwards-trans : (v w l : Bool) → Onwards v w → Onwards w l → Onwards v l
Onwards-trans v w true f g = tt
Onwards-trans false false false f g = tt
Onwards-trans true false false f g = f
Onwards-trans v true false f g = absurd g

Onwards-early : (v w : Bool) → Onwards v w → w ≡ false → v ≡ false
Onwards-early false w f e = refl
Onwards-early true true f e = e
Onwards-early true false f e = absurd f

Onwards-Stops : (v w l need : Bool) → Onwards v w → Stops w l need → Stops v l need
Onwards-Stops v w l false f s = Onwards-trans v w l f s
Onwards-Stops v w l true f s = (Onwards-early v w f s.0, s.1)

-- From a later state, with less of the input.
EndedIf-earlier :
    (b : Buffer) (v w : Bool) (u i : Span) (t : Option (Kawa × Span × Bool))
    → Onwards v w
    → IsPart u i
    → 0 < length u.bytes
    → EndedIf b w i t
    → EndedIf b v u t
EndedIf-earlier b v w u i none f p h e = tt
EndedIf-earlier b v w u i (some (j, r, need)) f p h (s, q, raw, stops, _) =
    (s, IsPart-trans p q, raw, Onwards-Stops v w (late j.parsing_phase) need f stops, λ _. h)

module _ (nom : Nom) (bytes : TakesBytes nom) (parts : TakesParts nom) (b : Buffer)
    (m : IsMemory b) where
  after_turn :
      (fuel : ℕ) (k : Kawa) (u : Span) (t : Turn)
      → k.storage ≡ b
      → 0 < length u.bytes
      → Good k u t
      → ((j : Kawa) (r : Span)
          → j.storage ≡ b
          → IsPart b.buffer r
          → RawAt (late j.parsing_phase) j
          → EndedIf b (late j.parsing_phase) r (turns nom fuel j r))
      → IsPart b.buffer u
      → EndedIf b
          (late k.parsing_phase)
          u
          (elim t [ next j r ↦ turns nom fuel j r | stop j r need ↦ some (j, r, need) ])
  after_turn fuel k u (next j r) e h (s, q, raw, on) ih p =
      EndedIf-earlier b (late k.parsing_phase) (late j.parsing_phase) u r (turns nom fuel j r) on q
        h (ih j r (s ∙ e) (IsPart-trans p q) raw)
  after_turn fuel k u (stop j r need) e h (s, q, raw, stops) ih p = (s ∙ e, q, raw, stops, λ _. h)

  pub turns-Ended :
      (fuel : ℕ) (k : Kawa) (u : Span)
      → k.storage ≡ b
      → IsPart b.buffer u
      → RawAt (late k.parsing_phase) k
      → EndedIf b (late k.parsing_phase) u (turns nom fuel k u)
  unfolding turns
  turns-Ended zero k u e p h = tt
  turns-Ended (suc fuel) k u e p h = elim (Bool-cases (length u.bytes == 0)) [
    | inl z ↦ rw (turns, z) (e, IsPart-refl u, h, onwards (late k.parsing_phase), λ n. cc)
    | inr z ↦
        rw (turns, z)
          (after_turn fuel k u (turn nom k u) e (ground arith) good
            (λ j r s q raw. turns-Ended fuel j r s q raw) p)
  ]
    where
      onwards : (w : Bool) → Onwards w w
      onwards true = tt
      onwards false = tt

      good : Good k u (turn nom k u)
      good =
          turn-Good nom parts k u (subst (λ s. IsMemory s) (sym e) m)
            (subst (λ (s : Buffer). IsPart s.buffer u) (sym e) p) h
