-- ===== src/Protocol/Parser/Shrinks.antt =====
-- Every turn of the inner loop of `parse` takes a byte or lowers the rank of the phase.
use kawa.Prelude.{
  ℕ, ◌+◌, ◌-◌, ◌*◌, ◌≤◌, ◌<◌, min, ◌≡◌, refl, inl, inr, Bool, true, false, Option, none, some,
  arith, ◌==◌, if◌then◌else◌, Bool-cases, length, length-drop,
}
use kawa.Storage.Span.{Span}
use kawa.Storage.Repr.{Kind, ParsingPhase, BodySize}
use kawa.Storage.Kawa.{Kawa, push_block}
use kawa.Protocol.Nom.{Nom, IResult}
use kawa.Protocol.Nom.Laws.{Takes, TakesBytes}
use kawa.Protocol.Primitives.{crlf}
use kawa.Protocol.Primitives.Takes.{
  crlf-Takes, request_line-Takes, response_line-Takes, header_or_cookie-Takes, header-Takes,
  crumb-Takes, chunk_header-Takes,
}
use kawa.Protocol.Parser.{
  Turn, next, stop, or_stop, recover, or_crlf, turn_status_line, header_or_cookies, turn_headers,
  turn_cookies, body_taken, turn_body, chunk_started, chunk_data, turn_chunks, turn_trailers,
  turn_in, turn,
}

-- The first crumb of a cookie header may be empty, and a body of which nothing is expected ends
-- without taking a byte: both phases are left by such a turn.
abbrev pub rank : ParsingPhase → ℕ
rank (ParsingPhase.cookies first) = if first then 1 else 0
rank ParsingPhase.body = 1
rank _ = 0

abbrev pub Shrinks : ℕ → Turn → Type 0
Shrinks n (next k rest) = 2 * length rest.bytes + rank k.parsing_phase < n
Shrinks n (stop k rest need) = Unit

module _ (nom : Nom) (laws : TakesBytes nom) where
  or_stop-Shrinks :
      {A : Type 0} (n m : ℕ) (x : IResult A) (k : Kawa) (u : Span) (f : Span → A → Turn)
      → Takes m u x
      → ((i : Span) (a : A) → length i.bytes + m ≤ length u.bytes → Shrinks n (f i a))
      → Shrinks n (or_stop nom x k u f)
  unfolding or_stop
  or_stop-Shrinks n m (IResult.ok i a) k u f t h = h i a t
  or_stop-Shrinks n m IResult.incomplete k u f t h = tt
  or_stop-Shrinks n m (IResult.error at) k u f t h = tt
  or_stop-Shrinks n m (IResult.failure at) k u f t h = tt

  recover-Shrinks :
      (n : ℕ) (x : IResult Span) (k : Kawa) (u at : Span) (f : Span → Turn)
      → Takes 2 u x
      → ((i : Span) → length i.bytes + 2 ≤ length u.bytes → Shrinks n (f i))
      → Shrinks n (recover nom x k u at f)
  unfolding recover
  recover-Shrinks n (IResult.ok i a) k u at f t h = h i t
  recover-Shrinks n IResult.incomplete k u at f t h = tt
  recover-Shrinks n (IResult.error at') k u at f t h = tt
  recover-Shrinks n (IResult.failure at') k u at f t h = tt

  or_crlf-Shrinks :
      {A : Type 0} (n m : ℕ) (x : IResult A) (k : Kawa) (u : Span) (f : Span → A → Turn)
      (end : Span → Turn)
      → Takes m u x
      → ((i : Span) (a : A) → length i.bytes + m ≤ length u.bytes → Shrinks n (f i a))
      → ((i : Span) → length i.bytes + 2 ≤ length u.bytes → Shrinks n (end i))
      → Shrinks n (or_crlf nom x k u f end)
  unfolding or_crlf
  or_crlf-Shrinks n m (IResult.ok i a) k u f end t h g = h i a t
  or_crlf-Shrinks n m IResult.incomplete k u f end t h g = tt
  or_crlf-Shrinks n m (IResult.error at) k u f end t h g =
      recover-Shrinks n (crlf nom u) k u at end (crlf-Takes nom laws u) g
  or_crlf-Shrinks n m (IResult.failure at) k u f end t h g =
      recover-Shrinks n (crlf nom u) k u at end (crlf-Takes nom laws u) g

  status_line-Shrinks :
      (kind : Kind) (k : Kawa) (u : Span)
      → Shrinks (2 * length u.bytes) (turn_status_line nom kind k u)
  unfolding turn_status_line push_block
  status_line-Shrinks Kind.request k u =
      or_stop-Shrinks _ 12 _ k u _ (request_line-Takes nom laws u) (λ i r h. omega arith)
  status_line-Shrinks Kind.response k u =
      or_stop-Shrinks _ 15 _ k u _ (response_line-Takes nom laws u) (λ i r h. omega arith)

  header-Shrinks :
      (k : Kawa) (u i : Span) (r : Option (Span × Span))
      → k.parsing_phase ≡ ParsingPhase.headers
      → length i.bytes + 1 ≤ length u.bytes
      → Shrinks (2 * length u.bytes) (header_or_cookies nom k i r)
  unfolding header_or_cookies push_block
  header-Shrinks k u i (some (key, val)) e h = rw e (omega arith)
  header-Shrinks k u i none e h = omega arith

  headers-Shrinks :
      (k : Kawa) (u : Span)
      → k.parsing_phase ≡ ParsingPhase.headers
      → Shrinks (2 * length u.bytes) (turn_headers nom k u)
  unfolding turn_headers
  headers-Shrinks k u e =
      or_crlf-Shrinks _ 1 _ k u _ _ (header_or_cookie-Takes nom laws u)
        (λ i r h. header-Shrinks k u i r e h) (λ i h. tt)

  cookies-Shrinks :
      (first : Bool) (k : Kawa) (u : Span)
      → Shrinks
          (2 * length u.bytes + rank (ParsingPhase.cookies first))
          (turn_cookies nom first k u)
  unfolding turn_cookies
  cookies-Shrinks true k u =
      or_crlf-Shrinks _ 0 _ k u _ _ (crumb-Takes nom laws true u) (λ i r h. omega arith)
        (λ i h. omega arith)
  cookies-Shrinks false k u =
      or_crlf-Shrinks _ 1 _ k u _ _ (crumb-Takes nom laws false u) (λ i r h. omega arith)
        (λ i h. omega arith)

  -- A turn of the body that takes nothing expects nothing more.
  body_taken_lem :
      (size : BodySize) (len expects : ℕ)
      → 0 < len
      → (body_taken nom size len expects).0 ≡ 0
      → (body_taken nom size len expects).1 ≡ 0
  unfolding body_taken
  body_taken_lem BodySize.empty len expects h e = absurd (omega arith)
  body_taken_lem BodySize.chunked len expects h e = omega arith
  body_taken_lem (BodySize.length n) len expects h e = omega arith

  body-Shrinks :
      (k : Kawa) (u : Span)
      → k.parsing_phase ≡ ParsingPhase.body
      → 0 < length u.bytes
      → Shrinks (2 * length u.bytes + 1) (turn_body nom k u)
  unfolding turn_body push_block
  body-Shrinks k u e h = elim (Bool-cases (taken.1 == 0)) [
    | inl z ↦ rw z (omega (arith, length-drop {0} taken.0 u.bytes))
    | inr z ↦
        let more : 0 < taken.0 =
          ground (arith, body_taken_lem k.body_size (length u.bytes) k.expects h) in
        rw (z, e) (omega (arith, length-drop {0} taken.0 u.bytes))
  ]
    where
      taken : ℕ × ℕ
      taken = body_taken nom k.body_size (length u.bytes) k.expects

  chunk_started-Shrinks :
      (k : Kawa) (u i hexa : Span) (size : ℕ)
      → length i.bytes + 3 ≤ length u.bytes
      → Shrinks (2 * length u.bytes) (chunk_started nom k i hexa size)
  unfolding chunk_started push_block
  chunk_started-Shrinks k u i hexa size h = elim (Bool-cases (size == 0)) [
    | inl z ↦ rw z (omega arith)
    | inr z ↦ rw z (omega arith)
  ]

  chunk_data-Shrinks :
      (first : Bool) (k : Kawa) (u : Span)
      → k.parsing_phase ≡ ParsingPhase.chunks first
      → 0 < length u.bytes
      → 0 < k.expects
      → Shrinks (2 * length u.bytes) (chunk_data nom k u)
  unfolding chunk_data push_block
  chunk_data-Shrinks first k u e h x =
      let size = min (length u.bytes) k.expects in
      elim (Bool-cases (k.expects - size == 0)) [
        | inl z ↦ rw (z, e) (omega (arith, length-drop {0} size u.bytes))
        | inr z ↦ rw (z, e) (omega (arith, length-drop {0} size u.bytes))
      ]

  chunks-Shrinks :
      (first : Bool) (k : Kawa) (u : Span)
      → k.parsing_phase ≡ ParsingPhase.chunks first
      → 0 < length u.bytes
      → Shrinks (2 * length u.bytes) (turn_chunks nom first k u)
  unfolding turn_chunks
  chunks-Shrinks first k u e h = elim (Bool-cases (k.expects == 0)) [
    | inl z ↦ rw z (
        or_stop-Shrinks _ 3 _ k u _ (chunk_header-Takes nom laws first u)
          (λ i size t. chunk_started-Shrinks k u i size.0 size.1 t))
    | inr z ↦ rw z (chunk_data-Shrinks first k u e h (ground arith))
  ]

  trailers-Shrinks :
      (k : Kawa) (u : Span)
      → k.parsing_phase ≡ ParsingPhase.trailers
      → Shrinks (2 * length u.bytes) (turn_trailers nom k u)
  unfolding turn_trailers push_block
  trailers-Shrinks k u e =
      or_crlf-Shrinks _ 3 _ k u _ _ (header-Takes nom laws u) (λ i r h. rw e (omega arith))
        (λ i h. tt)

  Shrinks-mono : (n m : ℕ) (t : Turn) → n ≤ m → Shrinks n t → Shrinks m t
  Shrinks-mono n m (next k rest) h s = omega arith
  Shrinks-mono n m (stop k rest need) h s = tt

  turn_in-Shrinks :
      (phase : ParsingPhase) (k : Kawa) (u : Span)
      → k.parsing_phase ≡ phase
      → 0 < length u.bytes
      → Shrinks (2 * length u.bytes + rank phase) (turn_in nom phase k u)
  unfolding turn_in
  turn_in-Shrinks ParsingPhase.status_line k u e h =
      Shrinks-mono _ _ _ (omega arith) (status_line-Shrinks k.kind k u)
  turn_in-Shrinks ParsingPhase.headers k u e h =
      Shrinks-mono _ _ _ (omega arith) (headers-Shrinks k u e)
  turn_in-Shrinks (ParsingPhase.cookies first) k u e h = cookies-Shrinks first k u
  turn_in-Shrinks ParsingPhase.body k u e h = body-Shrinks k u e h
  turn_in-Shrinks (ParsingPhase.chunks first) k u e h =
      Shrinks-mono _ _ _ (omega arith) (chunks-Shrinks first k u e h)
  turn_in-Shrinks ParsingPhase.trailers k u e h =
      Shrinks-mono _ _ _ (omega arith) (trailers-Shrinks k u e)
  turn_in-Shrinks ParsingPhase.terminated k u e h = tt
  turn_in-Shrinks (ParsingPhase.error marker kind) k u e h = tt

  pub turn-Shrinks :
      (k : Kawa) (u : Span)
      → 0 < length u.bytes
      → Shrinks (2 * length u.bytes + rank k.parsing_phase) (turn nom k u)
  unfolding turn
  turn-Shrinks k u h = turn_in-Shrinks k.parsing_phase k u refl h
