-- ===== src/Protocol/Parser/Chunk.antt =====
-- The data of a chunk, of which all that is unparsed belongs to the chunk.
use kawa.Prelude.{
  done, ℕ, suc, ◌+◌, ◌-◌, ◌*◌, ◌≤◌, ◌<◌, min, ◌≡◌, refl, ap, ◌∙◌, inl, inr, Bool, true, false, some,
  [], ◌∷◌, ◌++◌, append_assoc, arith, ◌==◌, if◌then◌else◌, Bool-cases, length, drop, length-drop,
}
use kawa.Storage.Span.{Span, from, upto}
use kawa.Storage.Store.{Store, new_slice}
use kawa.Storage.Repr.{Block, ParsingPhase}
use kawa.Storage.Kawa.{Kawa, push_block}
use kawa.Protocol.Nom.{Nom}
use kawa.Protocol.Nom.Parts.{TakesParts}
use kawa.Protocol.Parser.{
  next, turn, turns, turn_in, turn_chunks, chunk_data, buf_of, flags_of, moved_head, no_callbacks,
  parse,
}
use kawa.Protocol.Parser.Safe.{IsMemory}
use kawa.Protocol.Parser.Parsed.{unparsed_of, length-unparsed}
use kawa.Protocol.Parser.Body.{turns-empty, parse-done, chunk-at, head-at}

-- The state that has read `t` bytes of its chunk.
abbrev pub chunk_read : Kawa → ℕ → Kawa
chunk_read k t = record k {
  storage = record (k.storage) { head = k.storage.head + t };
  expects = k.expects - t;
  blocks =
      k.blocks
      ++ (Block.chunk (Store.slice (record { start = k.storage.head; len = t }))
          ∷ (if k.expects - t == 0 then flags_of false true false false ∷ [] else []));
}

module _ (nom : Nom) (parts : TakesParts nom) where
  abbrev after_chunk : Kawa → Span → ℕ → Kawa
  after_chunk k u t =
      let k' =
        push_block (record k { expects = k.expects - t })
          (Block.chunk (new_slice (buf_of k) (upto u t))) in
      if k.expects - t == 0 then push_block k' (flags_of false true false false) else k'

  turn-chunk :
      (k : Kawa) (u : Span) (first : Bool)
      → k.parsing_phase ≡ ParsingPhase.chunks first
      → 0 < k.expects
      → turn nom k u
        ≡ next
            (after_chunk k u (min (length u.bytes) k.expects))
            (from u (min (length u.bytes) k.expects))
  unfolding turn turn_in turn_chunks chunk_data
  turn-chunk k u first e p = let z : (k.expects == 0) ≡ false = ground arith in rw (e, z) refl

  turns-chunk :
      (fuel : ℕ) (k : Kawa) (u : Span) (first : Bool)
      → k.parsing_phase ≡ ParsingPhase.chunks first
      → 0 < k.expects
      → 0 < length u.bytes
      → length u.bytes ≤ k.expects
      → turns nom (suc (suc fuel)) k u
        ≡ some (
          after_chunk k u (min (length u.bytes) k.expects),
          from u (min (length u.bytes) k.expects),
          false,
        )
  unfolding turns
  turns-chunk fuel k u first e p h l = opened ∙ turns-empty nom parts fuel _ _ rest
    where
      opened :
          turns nom (suc (suc fuel)) k u
          ≡ turns nom
              (suc fuel)
              (after_chunk k u (min (length u.bytes) k.expects))
              (from u (min (length u.bytes) k.expects))
      opened =
          let some_bytes : (length u.bytes == 0) ≡ false = ground arith in
          rw (turns, some_bytes, turn-chunk k u first e p) refl

      rest : length (drop (min (length u.bytes) k.expects) u.bytes) ≡ 0
      rest = omega (arith, length-drop {0} (min (length u.bytes) k.expects) u.bytes)

  module _ (k : Kawa) (m : IsMemory k.storage) where
    moved-after_chunk :
        (t : ℕ)
        → t ≤ length (unparsed_of k.storage).bytes
        → moved_head nom (after_chunk k (unparsed_of k.storage) t) (from (unparsed_of k.storage) t)
          ≡ chunk_read k t
    unfolding push_block
    moved-after_chunk t h = elim (Bool-cases (k.expects - t == 0)) [
      | inl z ↦
          rw (z, chunk-at nom parts k m t h, head-at nom parts k m t h)
            (ap (λ bs. record (chunk_read k t) { blocks = bs }) (append_assoc k.blocks _ _))
      | inr z ↦ rw (z, chunk-at nom parts k m t h, head-at nom parts k m t h) refl
    ]

    -- When all unparsed bytes belong to the chunk that is being read, `parse` takes them all as one
    -- chunk block, moves `head` to `end`, and pushes the flags that end a chunk exactly when no more
    -- of it is expected. The phase stays, for the size of the next chunk.
    pub chunk_parsed :
        (first : Bool)
        → k.parsing_phase ≡ ParsingPhase.chunks first
        → k.storage.head < k.storage.end
        → k.storage.end - k.storage.head ≤ k.expects
        → parse nom no_callbacks k ≡ done (chunk_read k (k.storage.end - k.storage.head))
    chunk_parsed first e h l =
        parse-done nom parts k _ _ m.valid (
          turns-chunk (2 * length (unparsed_of k.storage).bytes) k (unparsed_of k.storage) first e
            (omega arith) (omega (arith, size)) (omega (arith, size)))
        ∙ ap done (moved-after_chunk _ (omega arith))
        ∙ ap (λ t. done (chunk_read k t)) all
      where
        size : length (unparsed_of k.storage).bytes ≡ k.storage.end - k.storage.head
        size = length-unparsed k.storage m.valid

        all : min (length (unparsed_of k.storage).bytes) k.expects ≡ k.storage.end - k.storage.head
        all = omega (arith, size)
