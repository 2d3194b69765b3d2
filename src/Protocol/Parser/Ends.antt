-- ===== src/Protocol/Parser/Ends.antt =====
-- The inner loop of `parse` ends within its fuel.
use kawa.Prelude.{
  ℕ, zero, suc, ◌+◌, ◌*◌, ◌≤◌, ◌<◌, ◌≡◌, refl, inl, inr, Bool, true, false, Option, some, arith,
  ◌==◌, Bool-cases, length,
}
use kawa.Storage.Span.{Span}
use kawa.Storage.Repr.{ParsingPhase}
use kawa.Storage.Kawa.{Kawa}
use kawa.Protocol.Nom.{Nom}
use kawa.Protocol.Nom.Laws.{TakesBytes}
use kawa.Protocol.Parser.{Turn, next, stop, turn, turns, enough}
use kawa.Protocol.Parser.Shrinks.{rank, Shrinks, turn-Shrinks}

module _ (nom : Nom) (laws : TakesBytes nom) where
  abbrev Ends : Option (Kawa × Span × Bool) → Type 0
  Ends r = (t : Kawa × Span × Bool) × (r ≡ some t)

  turns-Ends :
      (fuel : ℕ) (k : Kawa) (u : Span)
      → 2 * length u.bytes + rank k.parsing_phase < fuel
      → Ends (turns nom fuel k u)
  unfolding turns
  turns-Ends zero k u h = absurd (omega arith)
  turns-Ends (suc fuel) k u h = elim (Bool-cases (length u.bytes == 0)) [
    | inl z ↦ rw (z, turns) ((k, u, false), refl)
    | inr z ↦
        rw (z, turns)
          (after (turn nom k u) (turn-Shrinks nom laws k u (ground arith))
            (λ k' rest lt. turns-Ends fuel k' rest lt))
  ]
    where
      after :
          (t : Turn)
          → Shrinks (2 * length u.bytes + rank k.parsing_phase) t
          → ((k' : Kawa) (rest : Span)
              → 2 * length rest.bytes + rank k'.parsing_phase < fuel
              → Ends (turns nom fuel k' rest))
          → Ends (elim t [
            | next k' rest ↦ turns nom fuel k' rest
            | stop k' rest need ↦ some (k', rest, need)
          ])
      after (next k' rest) s ih = ih k' rest (omega (arith, s))
      after (stop k' rest need) s ih = ((k', rest, need), refl)

  rank-le : (phase : ParsingPhase) → rank phase ≤ 1
  rank-le ParsingPhase.status_line = omega arith
  rank-le ParsingPhase.headers = omega arith
  rank-le (ParsingPhase.cookies true) = omega arith
  rank-le (ParsingPhase.cookies false) = omega arith
  rank-le ParsingPhase.body = omega arith
  rank-le (ParsingPhase.chunks first) = omega arith
  rank-le ParsingPhase.trailers = omega arith
  rank-le ParsingPhase.terminated = omega arith
  rank-le (ParsingPhase.error marker kind) = omega arith

  -- When the parsers of nom take the bytes they say they take, the inner loop of `parse` ends
  -- within the fuel that it is given, from every state and on every input.
  pub turns_end :
      (k : Kawa) (u : Span) → (t : Kawa × Span × Bool) × (turns nom (enough nom u) k u ≡ some t)
  turns_end k u = turns-Ends (enough nom u) k u (omega (arith, rank-le k.parsing_phase))
