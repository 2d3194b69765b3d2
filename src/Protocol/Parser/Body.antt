-- ===== src/Protocol/Parser/Body.antt =====
-- The body of a message with a Content-Length, as it arrives.
use kawa.Prelude.{
  done, ℕ, suc, ◌+◌, ◌-◌, ◌*◌, ◌≤◌, ◌<◌, min, ◌≡◌, refl, ap, ◌∙◌, ◌⊎◌, inl, inr, true, false, some,
  [], ◌∷◌, ◌++◌, append_assoc, arith, ◌==◌, if◌then◌else◌, Bool-cases, sub64, to_u32, length, take,
  length-take, length-drop,
}
use kawa.Storage.Span.{Span, from, upto, IsPart-trans}
use kawa.Storage.Slice.{Slice}
use kawa.Storage.Slice
use kawa.Storage.Store.{Store, new_slice}
use kawa.Storage.Buffer.Valid.{IsValid}
use kawa.Storage.Repr.{Block, BodySize, ParsingPhase}
use kawa.Storage.Kawa.{Kawa, push_block}
use kawa.Protocol.Nom.{Nom}
use kawa.Protocol.Nom.Parts.{TakesParts}
use kawa.Protocol.Primitives.Parts.{cut_parts}
use kawa.Protocol.Parser.{
  next, turn, turns, turn_in, turn_body, body_taken, buf_of, flags_of, moved_head, no_callbacks,
  parse_loop, parse,
}
use kawa.Protocol.Parser.Safe.{IsMemory}
use kawa.Protocol.Parser.Parsed.{
  unparsed_of, unparsed_of-IsPart, length-unparsed, unparsed_data_lem,
}

-- The state that has read `t` bytes of its body.
abbrev pub body_read : Kawa → ℕ → Kawa
body_read k t = record k {
  storage = record (k.storage) { head = k.storage.head + t };
  expects = k.expects - t;
  parsing_phase = if k.expects - t == 0 then ParsingPhase.terminated else ParsingPhase.body;
  blocks =
      k.blocks
      ++ (Block.chunk (Store.slice (record { start = k.storage.head; len = t }))
          ∷ (if k.expects - t == 0 then flags_of true false false true ∷ [] else []));
}

module _ (nom : Nom) (parts : TakesParts nom) where
  -- One turn.
  abbrev after_body : Kawa → Span → ℕ → Kawa
  after_body k u t =
      let k' =
        push_block (record k { expects = k.expects - t })
          (Block.chunk (new_slice (buf_of k) (upto u t))) in
      if k.expects - t == 0
      then push_block (record k' { parsing_phase = ParsingPhase.terminated })
          (flags_of true false false true)
      else k'

  turn-body :
      (k : Kawa) (u : Span) (n : ℕ)
      → k.parsing_phase ≡ ParsingPhase.body
      → k.body_size ≡ BodySize.length n
      → turn nom k u
        ≡ next
            (after_body k u (min (length u.bytes) k.expects))
            (from u (min (length u.bytes) k.expects))
  unfolding turn turn_in turn_body body_taken
  turn-body k u n e s = rw (e, s) refl

  pub turns-empty :
      (fuel : ℕ) (k : Kawa) (u : Span)
      → length u.bytes ≡ 0
      → turns nom (suc fuel) k u ≡ some (k, u, false)
  unfolding turns
  turns-empty fuel k u e = rw (turns, e) refl

  turns-terminated :
      (fuel : ℕ) (k : Kawa) (u : Span)
      → k.parsing_phase ≡ ParsingPhase.terminated
      → turns nom (suc fuel) k u ≡ some (k, u, false)
  unfolding turns turn turn_in
  turns-terminated fuel k u e = elim (Bool-cases (length u.bytes == 0)) [
    | inl z ↦ rw (turns, z) refl
    | inr z ↦ rw (turns, z, e) refl
  ]

  turns-body :
      (fuel : ℕ) (k : Kawa) (u : Span) (n : ℕ)
      → k.parsing_phase ≡ ParsingPhase.body
      → k.body_size ≡ BodySize.length n
      → 0 < length u.bytes
      → turns nom (suc (suc fuel)) k u
        ≡ some (
          after_body k u (min (length u.bytes) k.expects),
          from u (min (length u.bytes) k.expects),
          false,
        )
  unfolding turns push_block
  turns-body fuel k u n e s h = opened ∙ rest
    where
      t : ℕ
      t = min (length u.bytes) k.expects

      opened : turns nom (suc (suc fuel)) k u ≡ turns nom (suc fuel) (after_body k u t) (from u t)
      opened =
          let some_bytes : (length u.bytes == 0) ≡ false = ground arith in
          rw (turns, some_bytes, turn-body k u n e s) refl

      rest :
          turns nom (suc fuel) (after_body k u t) (from u t)
          ≡ some (after_body k u t, from u t, false)
      rest = elim (Bool-cases (k.expects - t == 0)) [
        | inl z ↦ turns-terminated fuel (after_body k u t) (from u t) (rw z refl)
        | inr z ↦
            turns-empty fuel (after_body k u t) (from u t)
              (ground (arith, length-drop {0} t u.bytes))
      ]

  -- A round that needs no headers processed.
  pub parse-done :
      (k j : Kawa) (r : Span)
      → IsValid k.storage
      → turns nom (suc (suc (2 * length (unparsed_of k.storage).bytes))) k (unparsed_of k.storage)
        ≡ some (j, r, false)
      → parse nom no_callbacks k ≡ done (moved_head nom j r)
  unfolding parse parse_loop
  parse-done k j r v e = ap (λ n. parse_loop nom n no_callbacks k) fuel ∙ round
    where
      fuel : length k.storage.buffer.bytes + 1 ≡ suc (length k.storage.buffer.bytes)
      fuel = omega arith

      round :
          parse_loop nom (suc (length k.storage.buffer.bytes)) no_callbacks k
          ≡ done (moved_head nom j r)
      round =
          let two : 2 * length (unparsed_of k.storage).bytes + 2
              ≡ suc (suc (2 * length (unparsed_of k.storage).bytes)) =
            omega arith in
          rw (parse_loop, unparsed_data_lem k.storage v, two, e) refl

  module _ (k : Kawa) (m : IsMemory k.storage) where
    pub chunk-at :
        (t : ℕ)
        → t ≤ length (unparsed_of k.storage).bytes
        → new_slice (buf_of k) (upto (unparsed_of k.storage) t)
          ≡ Store.slice (record { start = k.storage.head; len = t })
    unfolding new_slice Slice.new unparsed_of
    chunk-at t h =
        let v = m.valid in
        let start : to_u32 (sub64 (k.storage.buffer.addr + k.storage.head) k.storage.buffer.addr)
            ≡ k.storage.head =
          omega (arith, v.placed.fits, v.head_end, v.end_capacity, m.small) in
        let size : to_u32 (length (take t (unparsed_of k.storage).bytes)) ≡ t = omega (
          arith,
          length-take {0} t (unparsed_of k.storage).bytes,
          length-unparsed k.storage v,
          v.end_capacity,
          m.small,
        ) in
        rw (start, size) refl

    pub head-at :
        (t : ℕ)
        → t ≤ length (unparsed_of k.storage).bytes
        → nom.offset (buf_of k) (from (unparsed_of k.storage) t) ≡ k.storage.head + t
    unfolding unparsed_of
    head-at t h =
        parts.offset _ _ (
          IsPart-trans (unparsed_of-IsPart k.storage m.valid)
            (cut_parts (unparsed_of k.storage) t h).0)
        ∙ omega arith

    moved-after_body :
        (t : ℕ)
        → t ≤ length (unparsed_of k.storage).bytes
        → k.parsing_phase ≡ ParsingPhase.body
        → moved_head nom (after_body k (unparsed_of k.storage) t) (from (unparsed_of k.storage) t)
          ≡ body_read k t
    unfolding push_block
    moved-after_body t h e = elim (Bool-cases (k.expects - t == 0)) [
      | inl z ↦
          rw (z, chunk-at t h, head-at t h)
            (ap
              (λ bs. record (body_read k t) {
                blocks = bs;
                parsing_phase = ParsingPhase.terminated;
              })
              (append_assoc k.blocks _ _))
      | inr z ↦ rw (z, chunk-at t h, head-at t h, e) refl
    ]

    -- With unparsed bytes, a body that expects `n` of them takes as many as there are, `n` at the
    -- most. It pushes one chunk, which is these bytes of the buffer, and moves `head` behind them;
    -- when nothing more is expected, the message ends, and a flags block says so.
    pub body_parsed :
        (n : ℕ)
        → k.parsing_phase ≡ ParsingPhase.body
        → k.body_size ≡ BodySize.length n
        → k.storage.head < k.storage.end
        → parse nom no_callbacks k
          ≡ done (body_read k (min (k.storage.end - k.storage.head) k.expects))
    body_parsed n e s h =
        parse-done k _ _ m.valid (
          turns-body (2 * length (unparsed_of k.storage).bytes) k (unparsed_of k.storage) n e s
            (omega (arith, size)))
        ∙ ap done (moved-after_body _ (omega arith) e)
        ∙ ap (λ l. done (body_read k (min l k.expects))) size
      where
        size : length (unparsed_of k.storage).bytes ≡ k.storage.end - k.storage.head
        size = length-unparsed k.storage m.valid

    -- Nothing is parsed of no bytes, nor behind the end of a message.
    pub parse-idle :
        (k.storage.head ≡ k.storage.end) ⊎ (k.parsing_phase ≡ ParsingPhase.terminated)
        → parse nom no_callbacks k ≡ done k
    unfolding unparsed_of
    parse-idle c =
        parse-done k k (unparsed_of k.storage) m.valid (turned c)
        ∙ ap (λ h. done (record k { storage = record (k.storage) { head = h } })) still
      where
        turned :
            (k.storage.head ≡ k.storage.end) ⊎ (k.parsing_phase ≡ ParsingPhase.terminated)
            → turns nom
                (suc (suc (2 * length (unparsed_of k.storage).bytes)))
                k
                (unparsed_of k.storage)
              ≡ some (k, unparsed_of k.storage, false)
        turned (inl e) =
            turns-empty (suc (2 * length (unparsed_of k.storage).bytes)) k (unparsed_of k.storage)
              (omega (arith, e, length-unparsed k.storage m.valid))
        turned (inr e) =
            turns-terminated (suc (2 * length (unparsed_of k.storage).bytes)) k
              (unparsed_of k.storage) e

        still : nom.offset (buf_of k) (unparsed_of k.storage) ≡ k.storage.head
        still = parts.offset _ _ (unparsed_of-IsPart k.storage m.valid) ∙ omega arith
