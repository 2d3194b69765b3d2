-- ===== src/Protocol/Order/Ready.antt =====
-- `parse` on a response: the blocks that it leaves can be written, with their slices in order.
use kawa.Prelude.{
  done, panic, out_of_fuel, ℕ, zero, suc, ◌+◌, ◌≡◌, sym, ◌∙◌, subst, inl, inr, Bool, true, false,
  Option, none, some, arith, Bool-cases, length,
}
use kawa.Storage.Span.{Span}
use kawa.Storage.Repr.{Block}
use kawa.Storage.Kawa.{Kawa, is_error}
use kawa.Protocol.Nom.{Nom}
use kawa.Protocol.Nom.Laws.{TakesBytes}
use kawa.Protocol.Nom.Parts.{TakesParts}
use kawa.Protocol.Nom.Reads.{ReadsFront}
use kawa.Protocol.Headers.{process_headers}
use kawa.Protocol.Headers.Elides.{Elides, ElidesIf, process_headers-ElidesIf}
use kawa.Protocol.Parser.{turns, enough, moved_head, no_callbacks, start_body, parse_loop, parse}
use kawa.Protocol.Parser.Safe.{IsMemory, late, RawAt}
use kawa.Protocol.Parser.Parsed.{unparsed_of, unparsed_data_lem}
use kawa.Protocol.Parser.Returns.{parse_returns}
use kawa.Protocol.Parser.Started.{Starts, start_body-Starts, error_late}
use kawa.Protocol.Order.{IsFiled, IsFiled-snoc}
use kawa.Protocol.Order.Filed.{Same-IsFiled}
use kawa.Protocol.Order.Lays.{InPlace}
use kawa.Protocol.Order.Stands.{
  late-Fresh, Settled, SettledIf, StandsIf, turns-Stands, moved-Settled, unparsed-Stands,
}

-- A state of a response that is not yet sent: its blocks can be written, and what they refer to lies
-- in order in the parsed part of the data. Before the headers are processed these are slices.
pub record IsReady (k : Kawa) : Type 0 where
  pub memory : IsMemory k.storage
  pub raw : RawAt (late k.parsing_phase) k
  pub in_place : InPlace k.storage.start k k.storage.head

module _ (nom : Nom) (laws : ReadsFront nom) (parts : TakesParts nom) where
  -- Behind `process_headers`, where the phase is an error or gets behind the headers.
  elided-Settled : (k j : Kawa) → Settled k → Elides k j → late j.parsing_phase ≡ true → Settled j
  elided-Settled k j (m, h) (s, o, b, l) e = (
    subst IsMemory (sym s) m,
    subst (λ c. InPlace c.start j c.head) (sym s)
        (
          Same-IsFiled k.storage.start k.storage.head k.detached.status_line j.detached.status_line
              k.blocks j.blocks b l h.0,
          late-Fresh j.parsing_phase j e,
          o ∙ h.2,
        ),
  )

  started-Settled : (k j i : Kawa) → Settled k → Elides k j → Starts j i → Settled i
  started-Settled k j i (m, h) (s, o, b, l) (s', d, o', e, f, bs) = (
    subst IsMemory (sym (s' ∙ s)) m,
    subst (λ c. InPlace c.start i c.head) (sym (s' ∙ s))
        (
          subst (λ x. IsFiled k.storage.start k.storage.head x.status_line i.blocks) (sym d)
              (subst (IsFiled k.storage.start k.storage.head j.detached.status_line) (sym bs) (
                IsFiled-snoc k.storage.start k.storage.head k.storage.head j.detached.status_line
                  j.blocks (Block.flags f) tt
                  (Same-IsFiled k.storage.start k.storage.head k.detached.status_line
                    j.detached.status_line k.blocks j.blocks b l h.0)
                  (omega arith))),
          late-Fresh i.parsing_phase i e,
          o' ∙ o ∙ h.2,
        ),
  )

  after_headers :
      (fuel : ℕ) (k : Kawa) (x : Option Kawa)
      → Settled k
      → ElidesIf k x
      → ((j : Kawa) → Settled j → SettledIf (parse_loop nom fuel no_callbacks j))
      → SettledIf (elim x [
        | none ↦ panic
        | some k'' ↦ elim (is_error k'') [
          | true ↦ done k''
          | false ↦ parse_loop nom fuel no_callbacks (start_body nom no_callbacks k'')
        ]
      ])
  after_headers fuel k none s e ih = tt
  after_headers fuel k (some j) s e ih = elim (Bool-cases (is_error j)) [
    | inl z ↦ rw z (elided-Settled k j s e (error_late j z))
    | inr z ↦ rw z (
        ih (start_body nom no_callbacks j)
          (started-Settled k j (start_body nom no_callbacks j) s e (start_body-Starts nom j)))
  ]

  after_turns :
      (fuel : ℕ) (t : Option (Kawa × Span × Bool))
      → StandsIf t
      → ((j : Kawa) → Settled j → SettledIf (parse_loop nom fuel no_callbacks j))
      → SettledIf (elim t [
        | none ↦ out_of_fuel
        | some (k', rest, need) ↦ elim need [
          | false ↦ done (moved_head nom k' rest)
          | true ↦ elim (process_headers nom (moved_head nom k' rest)) [
            | none ↦ panic
            | some k'' ↦ elim (is_error k'') [
              | true ↦ done k''
              | false ↦ parse_loop nom fuel no_callbacks (start_body nom no_callbacks k'')
            ]
          ]
        ]
      ])
  after_turns fuel none s ih = tt
  after_turns fuel (some (k, r, false)) s ih = moved-Settled nom laws parts k r s
  after_turns fuel (some (k, r, true)) s ih =
      after_headers fuel (moved_head nom k r) (process_headers nom (moved_head nom k r))
        (moved-Settled nom laws parts k r s) (process_headers-ElidesIf nom (moved_head nom k r)) ih

  loop-Settled : (fuel : ℕ) (k : Kawa) → Settled k → SettledIf (parse_loop nom fuel no_callbacks k)
  unfolding parse_loop
  loop-Settled zero k s = tt
  loop-Settled (suc fuel) k s =
      rw (parse_loop, unparsed_data_lem k.storage s.0.valid)
        (after_turns fuel (turns nom (enough nom (unparsed_of k.storage)) k (unparsed_of k.storage))
          (turns-Stands nom laws parts (enough nom (unparsed_of k.storage)) k
            (unparsed_of k.storage) (unparsed-Stands nom laws parts k s))
          (λ j. loop-Settled fuel j))

  parse-Settled : (k : Kawa) → Settled k → SettledIf (parse nom no_callbacks k)
  unfolding parse
  parse-Settled k s = loop-Settled (length k.storage.buffer.bytes + 1) k s

  -- From a state of a response in which nothing is queued, `parse` without callbacks returns, and
  -- leaves such a state again. In such a state the slices in the blocks that are not elided lie one
  -- behind the other between `start` and `head`, and a block of the status line stands first, with a
  -- response line of a known version; before its status line there is no block. The buffer is
  -- valid, smaller than 4 GiB and not in the first page, and before the headers are processed what
  -- they refer to is in it. The parsers of nom take and read the bytes that they say they do, and
  -- return parts of their input.
  pub parse-IsReady :
      (bytes : TakesBytes nom) (k : Kawa)
      → IsReady k
      → (k' : Kawa) × (parse nom no_callbacks k ≡ done k') × IsReady k'
  parse-IsReady bytes k r =
      let (k', e, p, raw) = parse_returns nom bytes parts k r.memory r.raw in
      let (m, h) = subst SettledIf e (parse-Settled k (r.memory, r.in_place)) in
      (k', e, record { memory = m; raw = raw; in_place = h })
