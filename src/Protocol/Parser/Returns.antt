-- ===== src/Protocol/Parser/Returns.antt =====
-- `parse` returns: its loops end within their fuel, and nothing that it indexes is out of range.
use kawa.Prelude.{
  Run, done, panic, ℕ, zero, suc, ◌+◌, ◌<◌, ◌≡◌, refl, sym, ap, ◌∙◌, subst, ◌⊎◌, inl, inr, Bool,
  true, false, Option, none, some, arith, ◌==◌, Bool-cases, length,
}
use kawa.Storage.Span.{Span, IsPart}
use kawa.Storage.Repr.{BodySize, ParsingPhase}
use kawa.Storage.Kawa.{Kawa, is_error, push_block}
use kawa.Protocol.Nom.{Nom}
use kawa.Protocol.Nom.Laws.{TakesBytes}
use kawa.Protocol.Nom.Parts.{TakesParts}
use kawa.Protocol.Headers.{process_headers}
use kawa.Protocol.Headers.Runs.{process_headers-runs}
use kawa.Protocol.Parser.{
  turns, enough, moved_head, body_phase, start_body, no_callbacks, parse_loop, parse,
}
use kawa.Protocol.Parser.Ends.{turns_end}
use kawa.Protocol.Parser.Safe.{IsMemory, late, RawAt, from_RawAt}
use kawa.Protocol.Parser.Ended.{Ended, EndedIf, turns-Ended}
use kawa.Protocol.Parser.Parsed.{
  IsParsed, IsParsed-trans, unparsed_of, unparsed_of-IsPart, length-unparsed, moved-IsParsed,
  unparsed_data_lem,
}

-- What a return of `parse` from `k` leaves.
abbrev pub Settled : Kawa → Kawa → Type 0
Settled k k' = IsParsed k.storage k'.storage × RawAt (late k'.parsing_phase) k'

-- A round of the outer loop returns, or goes on behind the headers.
abbrev Round : Kawa → Run Kawa → (Kawa → Run Kawa) → Type 0
Round k x again =
    ((k' : Kawa) × (x ≡ done k') × Settled k k')
    ⊎ ((k' : Kawa) × (x ≡ again k')
        × IsParsed k.storage k'.storage
        × (late k'.parsing_phase ≡ true)
        × (late k.parsing_phase ≡ false)
        × (0 < length k.storage.buffer.bytes))

start_body_lem :
    (nom : Nom) (k : Kawa)
    → ((start_body nom no_callbacks k).storage ≡ k.storage)
      × (late (start_body nom no_callbacks k).parsing_phase ≡ true)
unfolding start_body push_block body_phase
start_body_lem nom k = started k.body_size
  where
    started :
        (size : BodySize)
        → ((body_phase nom k size).storage ≡ k.storage)
          × (late (body_phase nom k size).parsing_phase ≡ true)
    started BodySize.empty = (refl, refl)
    started BodySize.chunked = (refl, refl)
    started (BodySize.length n) = elim (Bool-cases (n == 0)) [
      | inl z ↦ rw z (refl, refl)
      | inr z ↦ rw z (refl, refl)
    ]

error_RawAt : (k : Kawa) → is_error k ≡ true → RawAt (late k.parsing_phase) k
unfolding is_error
error_RawAt k e = in_phase k.parsing_phase e
  where
    in_phase :
        (phase : ParsingPhase)
        → is_error (record k { parsing_phase = phase }) ≡ true
        → RawAt (late phase) k
    in_phase ParsingPhase.status_line e = cc
    in_phase ParsingPhase.headers e = cc
    in_phase (ParsingPhase.cookies first) e = cc
    in_phase ParsingPhase.body e = tt
    in_phase (ParsingPhase.chunks first) e = tt
    in_phase ParsingPhase.trailers e = tt
    in_phase ParsingPhase.terminated e = tt
    in_phase (ParsingPhase.error marker kind) e = tt

module _ (nom : Nom) (bytes : TakesBytes nom) (parts : TakesParts nom) (k : Kawa)
    (m : IsMemory k.storage) where
  moved :
      (j : Kawa) (r : Span)
      → j.storage ≡ k.storage
      → IsPart (unparsed_of k.storage) r
      → IsParsed k.storage (moved_head nom j r).storage
  moved j r s q =
      subst (λ c. IsParsed k.storage (record c { head = nom.offset c.buffer r })) (sym s)
        (moved-IsParsed nom parts k.storage r m q)

  moved_RawAt : (l : Bool) (j : Kawa) (r : Span) → RawAt l j → RawAt l (moved_head nom j r)
  moved_RawAt true j r h = tt
  moved_RawAt false j r h = h

  nonempty : 0 < length (unparsed_of k.storage).bytes → 0 < length k.storage.buffer.bytes
  nonempty h = omega (arith, length-unparsed k.storage m.valid, m.valid.end_capacity)

  -- Behind the headers.
  processed :
      (fuel : ℕ) (j : Kawa)
      → IsParsed k.storage j.storage
      → late k.parsing_phase ≡ false
      → 0 < length k.storage.buffer.bytes
      → (x : Option Kawa) → (j' : Kawa) × (x ≡ some j') × (j'.storage ≡ j.storage)
      → Round k
          (elim x [
            | none ↦ panic
            | some k'' ↦ elim (is_error k'') [
              | true ↦ done k''
              | false ↦ parse_loop nom fuel no_callbacks (start_body nom no_callbacks k'')
            ]
          ])
          (parse_loop nom fuel no_callbacks)
  processed fuel j p early some_bytes x (j', e, s) = elim (Bool-cases (is_error j')) [
    | inl z ↦ rw (e, z) (inl (j', refl, (subst (IsParsed k.storage) (sym s) p, error_RawAt j' z)))
    | inr z ↦
        rw (e, z)
          (inr (
            start_body nom no_callbacks j',
            refl,
            subst (IsParsed k.storage) (sym s ∙ sym ((start_body_lem nom j').0)) p,
            (start_body_lem nom j').1,
            early,
            some_bytes,
          ))
  ]

  -- The rest of the round.
  abbrev after_turns : ℕ → Kawa × Span × Bool → Run Kawa
  after_turns fuel t = elim t.2 [
    | false ↦ done (moved_head nom t.0 t.1)
    | true ↦ elim (process_headers nom (moved_head nom t.0 t.1)) [
      | none ↦ panic
      | some k'' ↦ elim (is_error k'') [
        | true ↦ done k''
        | false ↦ parse_loop nom fuel no_callbacks (start_body nom no_callbacks k'')
      ]
    ]
  ]

  settle :
      (fuel : ℕ) (t : Kawa × Span × Bool)
      → Ended k.storage (late k.parsing_phase) (unparsed_of k.storage) t
      → Round k (after_turns fuel t) (parse_loop nom fuel no_callbacks)
  settle fuel (j, r, false) (s, q, raw, stops, _) =
      inl (moved_head nom j r, refl, (moved j r s q, moved_RawAt (late j.parsing_phase) j r raw))
  settle fuel (j, r, true) (s, q, raw, (early, still), ne) =
      processed fuel (moved_head nom j r) (moved j r s q) early (nonempty (ne refl))
        (process_headers nom (moved_head nom j r))
        (process_headers-runs nom (moved_head nom j r) (from_RawAt _ j still raw).0
          (from_RawAt _ j still raw).1)

  opened :
      (fuel : ℕ) (t : Kawa × Span × Bool)
      → turns nom (enough nom (unparsed_of k.storage)) k (unparsed_of k.storage) ≡ some t
      → parse_loop nom (suc fuel) no_callbacks k ≡ after_turns fuel t
  unfolding parse_loop
  opened fuel t e = rw (parse_loop, unparsed_data_lem k.storage m.valid, e) refl

  round :
      (fuel : ℕ)
      → RawAt (late k.parsing_phase) k
      → Round k (parse_loop nom (suc fuel) no_callbacks k) (parse_loop nom fuel no_callbacks)
  round fuel h =
      let ends = turns_end nom bytes k (unparsed_of k.storage) in
      subst (λ x. Round k x (parse_loop nom fuel no_callbacks)) (sym (opened fuel ends.0 ends.1))
        (settle fuel ends.0 (
          subst (EndedIf k.storage (late k.parsing_phase) (unparsed_of k.storage)) (ends.1) (
            turns-Ended nom bytes parts k.storage m (enough nom (unparsed_of k.storage)) k
              (unparsed_of k.storage) refl (unparsed_of-IsPart k.storage m.valid) h)))

RawAt-late : (l : Bool) (k : Kawa) → l ≡ true → RawAt l k
RawAt-late true k e = tt
RawAt-late false k e = cc

abbrev Outcome : Kawa → Run Kawa → Type 0
Outcome k x = (k' : Kawa) × (x ≡ done k') × Settled k k'

module _ (nom : Nom) (bytes : TakesBytes nom) (parts : TakesParts nom) where
  -- The second round always returns.
  late_returns :
      (fuel : ℕ) (k : Kawa)
      → IsMemory k.storage
      → late k.parsing_phase ≡ true
      → 0 < fuel
      → Outcome k (parse_loop nom fuel no_callbacks k)
  late_returns zero k m l h = absurd (omega arith)
  late_returns (suc fuel) k m l h = elim (round nom bytes parts k m fuel (RawAt-late _ k l)) [
    | inl r ↦ r
    | inr (k', e, p, l', early, some_bytes) ↦ cc
  ]

  fuel_of :
      (k : Kawa)
      → parse nom no_callbacks k
        ≡ parse_loop nom (suc (length k.storage.buffer.bytes)) no_callbacks k
  unfolding parse
  fuel_of k =
      let e : length k.storage.buffer.bytes + 1 ≡ suc (length k.storage.buffer.bytes) =
        omega arith in
      ap (λ n. parse_loop nom n no_callbacks k) e

  -- From a buffer that is valid, smaller than 4 GiB and not in the first page, and a Kawa whose
  -- request line and headers are slices of it while the headers are not yet processed, `parse`
  -- without callbacks returns: it does not panic, and every loop ends. It leaves such a state again,
  -- of whose buffer the head alone has moved, forwards and not behind `end`. This holds when the
  -- parsers of nom take the bytes that they say they take and return parts of their input.
  pub parse_returns :
      (k : Kawa)
      → IsMemory k.storage
      → RawAt (late k.parsing_phase) k
      → (k' : Kawa) × (parse nom no_callbacks k ≡ done k')
        × IsParsed k.storage k'.storage
        × RawAt (late k'.parsing_phase) k'
  parse_returns k m h =
      let size = length k.storage.buffer.bytes in
      elim (round nom bytes parts k m size h) [
        | inl (k', e, (p, raw)) ↦ (k', fuel_of k ∙ e, p, raw)
        | inr (j, e, p, l, early, some_bytes) ↦
            let (k', e', (q, raw)) = late_returns size j p.memory l some_bytes in
            (k', fuel_of k ∙ e ∙ e', IsParsed-trans p q, raw)
      ]
