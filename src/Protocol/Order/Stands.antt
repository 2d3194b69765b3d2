-- ===== src/Protocol/Order/Stands.antt =====
-- The inner loop of `parse` on a response keeps the order of its blocks.
use kawa.Prelude.{
  Run, done, panic, out_of_fuel, ℕ, zero, suc, ◌+◌, ◌-◌, ◌≡◌, refl, sym, ◌∙◌, subst, inl, inr, Bool,
  true, Option, none, some, arith, ◌==◌, Bool-cases, length,
}
use kawa.Storage.Span.{Span, IsPart, IsPart-refl, IsPart-trans}
use kawa.Storage.Buffer.{Buffer}
use kawa.Storage.Repr.{ParsingPhase}
use kawa.Storage.Kawa.{Kawa}
use kawa.Protocol.Nom.{Nom}
use kawa.Protocol.Nom.Parts.{TakesParts}
use kawa.Protocol.Nom.Reads.{ReadsFront}
use kawa.Protocol.Parser.{Turn, next, stop, turn, turns, moved_head}
use kawa.Protocol.Parser.Safe.{IsMemory, late}
use kawa.Protocol.Parser.Parsed.{unparsed_of, unparsed_of-IsPart, moved-IsParsed}
use kawa.Protocol.Order.{IsFiled}
use kawa.Protocol.Order.Lays.{Fresh, InPlace, Leaves}
use kawa.Protocol.Order.Turns.{turn-Lays}

pub late-Fresh : (phase : ParsingPhase) (k : Kawa) → late phase ≡ true → Fresh phase k
late-Fresh ParsingPhase.status_line k e = cc
late-Fresh ParsingPhase.headers k e = tt
late-Fresh (ParsingPhase.cookies first) k e = tt
late-Fresh ParsingPhase.body k e = tt
late-Fresh (ParsingPhase.chunks first) k e = tt
late-Fresh ParsingPhase.trailers k e = tt
late-Fresh ParsingPhase.terminated k e = tt
late-Fresh (ParsingPhase.error marker kind) k e = tt

moved-Fresh :
    (phase : ParsingPhase) (k j : Kawa)
    → j.kind ≡ k.kind
    → j.blocks ≡ k.blocks
    → Fresh phase k
    → Fresh phase j
moved-Fresh ParsingPhase.status_line k j e b h = (e ∙ h.0, b ∙ h.1)
moved-Fresh ParsingPhase.headers k j e b h = tt
moved-Fresh (ParsingPhase.cookies first) k j e b h = tt
moved-Fresh ParsingPhase.body k j e b h = tt
moved-Fresh (ParsingPhase.chunks first) k j e b h = tt
moved-Fresh ParsingPhase.trailers k j e b h = tt
moved-Fresh ParsingPhase.terminated k j e b h = tt
moved-Fresh (ParsingPhase.error marker kind) k j e b h = tt

abbrev pub Settled : Kawa → Type 0
Settled k = IsMemory k.storage × InPlace k.storage.start k k.storage.head

abbrev pub SettledIf : Run Kawa → Type 0
SettledIf (done k) = Settled k
SettledIf panic = Unit
SettledIf out_of_fuel = Unit

-- What the inner loop keeps, with what is unparsed.
abbrev pub StandsIn : Buffer → Kawa → Span → Type 0
StandsIn b k u = IsMemory b × IsPart (unparsed_of b) u × InPlace b.start k (u.addr - b.buffer.addr)

abbrev pub StandsIf : Option (Kawa × Span × Bool) → Type 0
StandsIf none = Unit
StandsIf (some (k, u, need)) = StandsIn k.storage k u

module _ (nom : Nom) (laws : ReadsFront nom) (parts : TakesParts nom) where
  after_turn :
      (fuel : ℕ) (k : Kawa) (u : Span) (m : IsMemory k.storage)
      (p : IsPart (unparsed_of k.storage) u) (t : Turn)
      → Leaves nom laws k u m p t
      → ((j : Kawa) (r : Span) → StandsIn j.storage j r → StandsIf (turns nom fuel j r))
      → StandsIf (elim t [ next j r ↦ turns nom fuel j r | stop j r need ↦ some (j, r, need) ])
  after_turn fuel k u m p (next j r) (s, q, h) ih =
      ih j r (subst (λ b. StandsIn b j r) (sym s) (m, IsPart-trans p q, h))
  after_turn fuel k u m p (stop j r need) (s, q, h) ih =
      subst (λ b. StandsIn b j r) (sym s) (m, IsPart-trans p q, h)

  pub turns-Stands :
      (fuel : ℕ) (k : Kawa) (u : Span) → StandsIn k.storage k u → StandsIf (turns nom fuel k u)
  unfolding turns
  turns-Stands zero k u s = tt
  turns-Stands (suc fuel) k u (m, p, h) = elim (Bool-cases (length u.bytes == 0)) [
    | inl z ↦ rw (turns, z) (m, p, h)
    | inr z ↦
        rw (turns, z)
          (after_turn fuel k u m p (turn nom k u) (turn-Lays nom laws k u m p h)
            (λ j r s. turns-Stands fuel j r s))
  ]

  -- The head goes to what is unparsed.
  pub moved-Settled : (k : Kawa) (u : Span) → StandsIn k.storage k u → Settled (moved_head nom k u)
  moved-Settled k u (m, p, h) = (
    (moved-IsParsed nom parts k.storage u m p).memory,
    (
      subst (λ n. IsFiled k.storage.start n k.detached.status_line k.blocks)
          (sym (parts.offset _ _ (IsPart-trans (unparsed_of-IsPart k.storage m.valid) p))) h.0,
      moved-Fresh k.parsing_phase k (moved_head nom k u) refl refl h.1,
      h.2,
    ),
  )

  pub unparsed-Stands : (k : Kawa) → Settled k → StandsIn k.storage k (unparsed_of k.storage)
  unfolding unparsed_of
  unparsed-Stands k (m, h) =
      let at : k.storage.buffer.addr + k.storage.head - k.storage.buffer.addr ≡ k.storage.head =
        omega arith in
      (m, IsPart-refl _, subst (InPlace k.storage.start k) (sym at) h)
