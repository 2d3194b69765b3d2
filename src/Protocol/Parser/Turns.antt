-- ===== src/Protocol/Parser/Turns.antt =====
-- Every turn of the inner loop of `parse` leaves what the next one needs.
use kawa.Prelude.{
  ℕ, ◌-◌, ◌≤◌, min, ◌≡◌, refl, ap, inl, inr, Bool, true, false, Option, none, some, arith, ◌==◌,
  Bool-cases, length,
}
use kawa.Storage.Span.{Span, IsPart, IsPart-refl, IsPart-trans, IsPlaced, IsPart-bounds}
use kawa.Storage.Store.{new_slice}
use kawa.Storage.Repr.{Block, Kind, BodySize, ParsingPhase}
use kawa.Storage.Kawa.{Kawa, push_block}
use kawa.Protocol.Nom.{Nom}
use kawa.Protocol.Nom.Parts.{TakesParts, IfSome, IsPart-placed}
use kawa.Protocol.Headers.Runs.{SliceIn}
use kawa.Protocol.Primitives.Parts.{
  crlf-Yields, request_line-Yields, response_line-Yields, header_or_cookie-Yields, header-Yields,
  crumb-Yields, chunk_header-Yields, PairIn, cut_parts,
}
use kawa.Protocol.Parser.{
  pair_of, turn_status_line, header_or_cookies, turn_headers, turn_cookies, body_taken, turn_body,
  chunk_started, chunk_data, turn_chunks, turn_trailers, turn_in, turn,
}
use kawa.Protocol.Parser.Safe.{
  IsMemory, late, Raw, RawAt, from_RawAt, Good, stop_here, slice_in, All-snoc, or_stop-Good,
  or_crlf-Good,
}

module _ (nom : Nom) (laws : TakesParts nom) (k : Kawa) (u : Span) (m : IsMemory k.storage)
    (p : IsPart k.storage.buffer u) where
  placed : IsPlaced u
  placed = IsPart-placed p m.valid.placed

  size : ℕ
  size = length k.storage.buffer.bytes

  page : 16 ≤ u.addr
  page = omega (arith, IsPart-bounds p, m.page)

  -- A part of the input is a part of the buffer.
  slice_of :
      (v : Span)
      → IsPart u v
      → SliceIn (length k.storage.buffer.bytes) (new_slice k.storage.buffer v)
  slice_of v q = slice_in k.storage v m (IsPart-trans p q)

  status_line-Good :
      (kind : Kind)
      → late k.parsing_phase ≡ false
      → RawAt (late k.parsing_phase) k
      → Good k u (turn_status_line nom kind k u)
  unfolding turn_status_line push_block size
  status_line-Good Kind.request e h =
      or_stop-Good nom _ _ k u _ h (request_line-Yields u placed page nom laws u (IsPart-refl u))
        (λ i r q parts. rw e (
          refl,
          q,
          (
            (slice_of r.0 parts.0, slice_of r.1 parts.1),
            All-snoc size k.blocks Block.status_line (from_RawAt _ k e h).1 tt,
          ),
          tt,
        ))
  status_line-Good Kind.response e h =
      or_stop-Good nom _ _ k u _ h (response_line-Yields u placed page nom laws u (IsPart-refl u))
        (λ i r q parts.
          rw e
            (refl, q, (tt, All-snoc size k.blocks Block.status_line (from_RawAt _ k e h).1 tt), tt))

  header-Good :
      (i : Span) (r : Option (Span × Span))
      → late k.parsing_phase ≡ false
      → Raw k
      → IsPart u i
      → IfSome (PairIn u placed page nom laws) r
      → Good k u (header_or_cookies nom k i r)
  unfolding header_or_cookies push_block size
  header-Good i (some (key, val)) e h q parts = rw e (
    refl,
    q,
    (
      h.0,
      All-snoc size k.blocks (Block.header (pair_of k key val)) h.1
          (slice_of key parts.0, slice_of val parts.1),
    ),
    tt,
  )
  header-Good i none e h q parts =
      rw e (refl, q, (h.0, All-snoc size k.blocks Block.cookies h.1 tt), tt)

  headers-Good :
      late k.parsing_phase ≡ false
      → RawAt (late k.parsing_phase) k
      → Good k u (turn_headers nom k u)
  unfolding turn_headers
  headers-Good e h =
      or_crlf-Good nom _ _ k u _ _ h
        (header_or_cookie-Yields u placed page nom laws u (IsPart-refl u))
        (crlf-Yields u placed page nom laws u (IsPart-refl u))
        (λ i r q parts. header-Good i r e (from_RawAt _ k e h) q parts)
        (λ i q. (refl, q, h, (e, e)))

  cookies-Good :
      (first : Bool)
      → late k.parsing_phase ≡ false
      → RawAt (late k.parsing_phase) k
      → Good k u (turn_cookies nom first k u)
  unfolding turn_cookies
  cookies-Good first e h =
      or_crlf-Good nom _ _ k u _ _ h (crumb-Yields u placed page nom laws first u (IsPart-refl u))
        (crlf-Yields u placed page nom laws u (IsPart-refl u))
        (λ i r q parts. rw e (refl, q, from_RawAt _ k e h, tt))
        (λ i q. rw e (refl, q, from_RawAt _ k e h, tt))

  -- No more of a body is taken than there is.
  body_taken-le : (size : BodySize) (len expects : ℕ) → (body_taken nom size len expects).0 ≤ len
  unfolding body_taken
  body_taken-le BodySize.empty len expects = omega arith
  body_taken-le BodySize.chunked len expects = omega arith
  body_taken-le (BodySize.length n) len expects = omega arith

  body-Good : late k.parsing_phase ≡ true → Good k u (turn_body nom k u)
  unfolding turn_body push_block
  body-Good e =
      let taken = body_taken nom k.body_size (length u.bytes) k.expects in
      let rest = (cut_parts u taken.0 (body_taken-le k.body_size (length u.bytes) k.expects)).0 in
      elim (Bool-cases (taken.1 == 0)) [
        | inl z ↦ rw z (refl, rest, tt, tt)
        | inr z ↦ rw (z, e) (refl, rest, tt, tt)
      ]

  chunk_started-Good :
      (i hexa : Span) (size : ℕ) → IsPart u i → Good k u (chunk_started nom k i hexa size)
  unfolding chunk_started push_block
  chunk_started-Good i hexa size q = elim (Bool-cases (size == 0)) [
    | inl z ↦ rw z (refl, q, tt, tt)
    | inr z ↦ rw z (refl, q, tt, tt)
  ]

  chunk_data-Good : late k.parsing_phase ≡ true → Good k u (chunk_data nom k u)
  unfolding chunk_data push_block
  chunk_data-Good e =
      let size = min (length u.bytes) k.expects in
      let rest = (cut_parts u size (omega arith)).0 in
      elim (Bool-cases (k.expects - size == 0)) [
        | inl z ↦ rw (z, e) (refl, rest, tt, tt)
        | inr z ↦ rw (z, e) (refl, rest, tt, tt)
      ]

  chunks-Good :
      (first : Bool)
      → late k.parsing_phase ≡ true
      → RawAt (late k.parsing_phase) k
      → Good k u (turn_chunks nom first k u)
  unfolding turn_chunks
  chunks-Good first e h = elim (Bool-cases (k.expects == 0)) [
    | inl z ↦ rw z (
        or_stop-Good nom _ _ k u _ h
          (chunk_header-Yields u placed page nom laws first u (IsPart-refl u))
          (λ i size q _. chunk_started-Good i size.0 size.1 q))
    | inr z ↦ rw z (chunk_data-Good e)
  ]

  trailers-Good :
      late k.parsing_phase ≡ true
      → RawAt (late k.parsing_phase) k
      → Good k u (turn_trailers nom k u)
  unfolding turn_trailers push_block
  trailers-Good e h =
      or_crlf-Good nom _ _ k u _ _ h (header-Yields u placed page nom laws u (IsPart-refl u))
        (crlf-Yields u placed page nom laws u (IsPart-refl u)) (λ i r q _. rw e (refl, q, tt, tt))
        (λ i q. (refl, q, tt, tt))

  turn_in-Good :
      (phase : ParsingPhase)
      → k.parsing_phase ≡ phase
      → RawAt (late k.parsing_phase) k
      → Good k u (turn_in nom phase k u)
  unfolding turn_in
  turn_in-Good ParsingPhase.status_line e h = status_line-Good k.kind (ap late e) h
  turn_in-Good ParsingPhase.headers e h = headers-Good (ap late e) h
  turn_in-Good (ParsingPhase.cookies first) e h = cookies-Good first (ap late e) h
  turn_in-Good ParsingPhase.body e h = body-Good (ap late e)
  turn_in-Good (ParsingPhase.chunks first) e h = chunks-Good first (ap late e) h
  turn_in-Good ParsingPhase.trailers e h = trailers-Good (ap late e) h
  turn_in-Good ParsingPhase.terminated e h = stop_here k u h
  turn_in-Good (ParsingPhase.error marker kind) e h = stop_here k u h

  pub turn-Good : RawAt (late k.parsing_phase) k → Good k u (turn nom k u)
  unfolding turn
  turn-Good h = turn_in-Good k.parsing_phase refl h
