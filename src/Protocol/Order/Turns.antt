-- ===== src/Protocol/Order/Turns.antt =====
-- The turns of the inner loop of `parse`, phase by phase: each pushes slices that lie behind those
-- before it.
use kawa.Prelude.{
  codes, ℕ, ◌+◌, ◌-◌, ◌≤◌, min, ◌≡◌, refl, ap, subst, inl, inr, Bool, true, false, List, [], ◌∷◌,
  ◌++◌, arith, ◌==◌, Bool-cases, Bytes, length, length-append, length-take,
}
use kawa.Storage.Span.{Span, IsPart, from, upto}
use kawa.Storage.Store.{new_slice}
use kawa.Storage.Repr.{Block, BodySize, ParsingPhase, StatusLine}
use kawa.Storage.Kawa.{Kawa, push_block}
use kawa.Protocol.Nom.{Nom}
use kawa.Protocol.Nom.Reads.{IsFront, ReadsFront}
use kawa.Protocol.Primitives.Parts.{cut_parts}
use kawa.Protocol.Primitives.Reads.{parse_header-Reads}
use kawa.Protocol.Primitives.Reads.Lines.{IsChunkLine, ends, parse_chunk_header-Reads}
use kawa.Protocol.Parser.{
  pair_of, flags_of, buf_of, body_taken, turn_body, chunk_started, chunk_data, turn_chunks,
  turn_trailers, turn_in, turn,
}
use kawa.Protocol.Parser.Safe.{IsMemory}
use kawa.Protocol.Parser.Parsed.{unparsed_of}
use kawa.Protocol.Order.{IsLaid, IsFiled, IsFiled-snoc}
use kawa.Protocol.Order.Lays.{
  Fresh, InPlace, IsFront-IsPart, Leaves, input, one-IsLaid, rest-IsFiled, stay, or_stop-Lays,
  or_crlf-Lays,
}
use kawa.Protocol.Order.Heads.{pushed, pair-IsLaid, status_line-Lays, headers-Lays, cookies-Lays}

module _ (nom : Nom) (laws : ReadsFront nom) (k : Kawa) (u : Span) (m : IsMemory k.storage)
    (p : IsPart (unparsed_of k.storage) u)
    (s : InPlace k.storage.start k (u.addr - k.storage.buffer.addr)) where
  -- The first bytes of the input, as a slice.
  front-IsLaid :
      (t : ℕ)
      → t ≤ length u.bytes
      → IsPart u (from u t)
        × IsLaid
            (u.addr - k.storage.buffer.addr)
            ((from u t).addr - k.storage.buffer.addr)
            (new_slice k.storage.buffer (upto u t) ∷ [])
  front-IsLaid t h =
      let q = (cut_parts u t h).0 in
      (
        q,
        one-IsLaid nom laws k u m p (upto u t) (from u t) q (omega arith)
            (omega (arith, length-take {0} t u.bytes)),
      )

  -- Flags behind the last block.
  flagged :
      (line : StatusLine) (bs : List Block) (hi : ℕ) (a b c d : Bool)
      → IsFiled k.storage.start hi line bs
      → IsFiled k.storage.start hi line (bs ++ (flags_of a b c d ∷ []))
  flagged line bs hi a b c d h =
      IsFiled-snoc k.storage.start hi hi line bs (flags_of a b c d) tt h (omega arith)

  body_taken-le : (size : BodySize) (len expects : ℕ) → (body_taken nom size len expects).0 ≤ len
  unfolding body_taken
  body_taken-le BodySize.empty len expects = omega arith
  body_taken-le BodySize.chunked len expects = omega arith
  body_taken-le (BodySize.length n) len expects = omega arith

  body-Lays : k.parsing_phase ≡ ParsingPhase.body → Leaves nom laws k u m p (turn_body nom k u)
  unfolding turn_body push_block
  body-Lays e =
      let taken = body_taken nom k.body_size (length u.bytes) k.expects in
      let (q, laid) = front-IsLaid taken.0 (body_taken-le k.body_size (length u.bytes) k.expects) in
      let chunk =
        pushed nom laws k u m p s (Block.chunk (new_slice (buf_of k) (upto u taken.0)))
          (from u taken.0) tt laid in
      elim (Bool-cases (taken.1 == 0)) [
        | inl z ↦ rw z (refl, q, (flagged _ _ _ true false false true chunk, tt, s.2))
        | inr z ↦ rw (z, e) (refl, q, (chunk, tt, s.2))
      ]

  chunk_started-Lays :
      (first : Bool) (i : Span) (w : Bytes) (size : Span × ℕ)
      → IsFront u w i
      → IsChunkLine first u.addr w size
      → Leaves nom laws k u m p (chunk_started nom k i size.0 size.1)
  unfolding chunk_started push_block
  chunk_started-Lays first i w size f h =
      let q = IsFront-IsPart f in
      let lengths : length w ≡ length (ends first) + length (size.0).bytes + 2 = omega (
        arith,
        ap length h.line,
        length-append {0} (ends first) ((size.0).bytes ++ codes "\r\n"),
        length-append {0} (size.0).bytes (codes "\r\n"),
      ) in
      let laid =
        one-IsLaid nom laws k u m p size.0 i q (omega (arith, h.start))
          (omega (arith, h.start, f.addr, lengths)) in
      elim (Bool-cases (size.1 == 0)) [
        | inl z ↦ rw z (
          refl,
          q,
          (flagged _ _ _ true false false false (rest-IsFiled nom laws k u m p s i q), tt, s.2),
        )
        | inr z ↦ rw z (
          refl,
          q,
          (
            pushed nom laws k u m p s (Block.chunk_header (new_slice (buf_of k) size.0)) i tt laid,
            tt,
            s.2,
          ),
        )
      ]

  chunk_data-Lays :
      (first : Bool)
      → k.parsing_phase ≡ ParsingPhase.chunks first
      → Leaves nom laws k u m p (chunk_data nom k u)
  unfolding chunk_data push_block
  chunk_data-Lays first e =
      let taken = min (length u.bytes) k.expects in
      let (q, laid) = front-IsLaid taken (omega arith) in
      let chunk =
        pushed nom laws k u m p s (Block.chunk (new_slice (buf_of k) (upto u taken))) (from u taken)
          tt laid in
      elim (Bool-cases (k.expects - taken == 0)) [
        | inl z ↦ rw (z, e) (refl, q, (flagged _ _ _ false true false false chunk, tt, s.2))
        | inr z ↦ rw (z, e) (refl, q, (chunk, tt, s.2))
      ]

  chunks-Lays :
      (first : Bool)
      → k.parsing_phase ≡ ParsingPhase.chunks first
      → Leaves nom laws k u m p (turn_chunks nom first k u)
  unfolding turn_chunks
  chunks-Lays first e = elim (Bool-cases (k.expects == 0)) [
    | inl z ↦ rw z (
        or_stop-Lays nom laws k u m p s _ _ _ (parse_chunk_header-Reads nom laws first u)
          (λ i w size f h. chunk_started-Lays first i w size f h))
    | inr z ↦ rw z (chunk_data-Lays first e)
  ]

  trailers-Lays :
      k.parsing_phase ≡ ParsingPhase.trailers → Leaves nom laws k u m p (turn_trailers nom k u)
  unfolding turn_trailers push_block
  trailers-Lays e =
      or_crlf-Lays nom laws k u m p s _ _ _ _
        (parse_header-Reads nom laws u (input nom laws k u m p))
        (λ r w v f h. rw e (
          refl,
          IsFront-IsPart f,
          (
            pushed nom laws k u m p s (Block.header (pair_of k v.0 v.1)) r tt
                (pair-IsLaid nom laws k u m p s r w v f h),
            tt,
            s.2,
          ),
        ))
        (λ r q. (
          refl,
          q,
          (flagged _ _ _ false false true true (rest-IsFiled nom laws k u m p s r q), tt, s.2),
        ))

  turn_in-Lays :
      (phase : ParsingPhase)
      → k.parsing_phase ≡ phase
      → Leaves nom laws k u m p (turn_in nom phase k u)
  unfolding turn_in
  turn_in-Lays ParsingPhase.status_line e =
      status_line-Lays nom laws k u m p s k.kind refl (subst (λ ph. Fresh ph k) e s.1)
  turn_in-Lays ParsingPhase.headers e = headers-Lays nom laws k u m p s e
  turn_in-Lays (ParsingPhase.cookies first) e = cookies-Lays nom laws k u m p s first e
  turn_in-Lays ParsingPhase.body e = body-Lays e
  turn_in-Lays (ParsingPhase.chunks first) e = chunks-Lays first e
  turn_in-Lays ParsingPhase.trailers e = trailers-Lays e
  turn_in-Lays ParsingPhase.terminated e = stay nom laws k u m p s false
  turn_in-Lays (ParsingPhase.error marker kind) e = stay nom laws k u m p s false

  pub turn-Lays : Leaves nom laws k u m p (turn nom k u)
  unfolding turn
  turn-Lays = turn_in-Lays k.parsing_phase refl
