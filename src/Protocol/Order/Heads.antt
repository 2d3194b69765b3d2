-- ===== src/Protocol/Order/Heads.antt =====
-- The turns of the inner loop of `parse` on the head of a response: the status line, the headers and
-- the cookies.
use kawa.Prelude.{
  codes, ℕ, ◌+◌, ◌-◌, ◌≡◌, refl, sym, ap, ◌∙◌, inl, inr, Bool, Option, none, some, [], ◌∷◌, ◌++◌,
  arith, Bytes, length, length-append,
}
use kawa.Storage.Span.{Span, IsPart}
use kawa.Storage.Store
use kawa.Storage.Store.{Store, new_slice}
use kawa.Storage.Repr.{Block, is_elided, Kind, ParsingPhase, StatusLine, Version}
use kawa.Storage.Kawa.{Kawa, push_block}
use kawa.Protocol.Nom.{Nom}
use kawa.Protocol.Nom.Reads.{IsFront, ReadsFront}
use kawa.Protocol.Primitives.Reads.{IsField, IsHeaderLine, parse_header_or_cookie-Reads}
use kawa.Protocol.Primitives.Reads.Crumbs.{parse_single_crumb-Reads}
use kawa.Protocol.Primitives.Reads.Lines.{IsVersion, IsResponseLine, parse_response_line-Reads}
use kawa.Protocol.H1.{as_store}
use kawa.Protocol.Parser.{
  pair_of, buf_of, turn_status_line, header_or_cookies, turn_headers, turn_cookies,
}
use kawa.Protocol.Parser.Safe.{IsMemory}
use kawa.Protocol.Parser.Parsed.{unparsed_of}
use kawa.Protocol.Order.{IsLaid, IsPlain, IsFiled, kept, IsFiled-snoc, IsLaid-le}
use kawa.Protocol.Order.Lays.{
  Fresh, InPlace, IsFront-IsPart, Lays, Leaves, bounds, input, two-IsLaid, rest-IsFiled,
  or_stop-Lays, or_crlf-Lays,
}

-- How long a header line is.
line_length :
    (is_space : ℕ → Bool) (at : ℕ) (w : Bytes) (r : Span × Span)
    → (h : IsHeaderLine is_space at w r)
    → length w ≡ length (r.0).bytes + 1 + length h.spaces + length (r.1).bytes + 2
line_length is_space at w r h = omega (
  arith,
  ap length h.line,
  length-append {0} (r.0).bytes (codes ":" ++ (h.spaces ++ ((r.1).bytes ++ codes "\r\n"))),
  length-append {0} h.spaces ((r.1).bytes ++ codes "\r\n"),
  length-append {0} (r.1).bytes (codes "\r\n"),
)

IsVersion-writes :
    (at : ℕ) (w : Bytes) (v : Version)
    → IsVersion at w v
    → (length w ≡ 8) × (s : Store) × (as_store v ≡ some s)
unfolding as_store
IsVersion-writes at w v (inl h) = rw h.0 (ap length h.1, _, refl)
IsVersion-writes at w v (inr h) = rw h.0 (ap length h.1, _, refl)

module _ (nom : Nom) (laws : ReadsFront nom) (k : Kawa) (u : Span) (m : IsMemory k.storage)
    (p : IsPart (unparsed_of k.storage) u)
    (s : InPlace k.storage.start k (u.addr - k.storage.buffer.addr)) where
  response-Lays :
      (r : Span) (w : Bytes) (v : Version × Span × ℕ × Span)
      → Fresh ParsingPhase.status_line k
      → IsFront u w r
      → IsResponseLine u.addr w v
      → Lays nom laws k u m p
          (record k {
            detached = record (k.detached) {
              status_line = StatusLine.response (record {
                version = v.0;
                code = v.2;
                status = new_slice (buf_of k) v.1;
                reason = new_slice (buf_of k) v.3;
              });
            };
            blocks = k.blocks ++ (Block.status_line ∷ []);
            parsing_phase = ParsingPhase.headers;
          })
          r
  response-Lays r w v fresh f h =
      let q = IsFront-IsPart f in
      let (eight, version, writes) = IsVersion-writes u.addr h.version v.0 h.known in
      let size : length w ≡ 13 + length (v.3).bytes + 2 = omega (
        arith,
        eight,
        h.digits,
        ap length h.line,
        length-append {0} h.version
            (codes " " ++ ((v.1).bytes ++ (codes " " ++ ((v.3).bytes ++ codes "\r\n")))),
        length-append {0} (v.1).bytes (codes " " ++ ((v.3).bytes ++ codes "\r\n")),
        length-append {0} (v.3).bytes (codes "\r\n"),
      ) in
      rw fresh.1 (
        refl,
        q,
        (
          (
            ((version, writes), tt),
            two-IsLaid nom laws k u m p k.storage.start (v.1) (v.3) r q
                (IsLaid-le _ _ (kept k.detached.status_line k.blocks) s.0.1)
                (omega (arith, h.status_at)) (omega (arith, h.status_at, h.reason_at, h.digits))
                (omega (arith, h.reason_at, f.addr, size)),
          ),
          tt,
          s.2,
        ),
      )

  pub status_line-Lays :
      (kind : Kind)
      → k.kind ≡ kind
      → Fresh ParsingPhase.status_line k
      → Leaves nom laws k u m p (turn_status_line nom kind k u)
  unfolding turn_status_line push_block
  status_line-Lays Kind.request e fresh = absurd (no_request (sym e ∙ fresh.0))
    where
      no_request : ¬ (Kind.request ≡ Kind.response)
      no_request h = cc
  status_line-Lays Kind.response e fresh =
      or_stop-Lays nom laws k u m p s _ _ _
        (parse_response_line-Reads nom laws u (input nom laws k u m p))
        (λ r w v f h. response-Lays r w v fresh f h)

  -- A block more, with slices in what is taken off the input.
  pub pushed :
      (b : Block) (r : Span)
      → IsPlain b
      → IsLaid
          (u.addr - k.storage.buffer.addr)
          (r.addr - k.storage.buffer.addr)
          (kept k.detached.status_line (b ∷ []))
      → IsFiled k.storage.start
          (r.addr - k.storage.buffer.addr)
          k.detached.status_line
          (k.blocks ++ (b ∷ []))
  pushed b r plain h =
      IsFiled-snoc k.storage.start _ _ k.detached.status_line k.blocks b plain s.0 h

  pub pair-IsLaid :
      (r : Span) (w : Bytes) (v : Span × Span)
      → IsFront u w r
      → IsHeaderLine nom.is_space u.addr w v
      → IsLaid
          (u.addr - k.storage.buffer.addr)
          (r.addr - k.storage.buffer.addr)
          (kept k.detached.status_line (Block.header (pair_of k v.0 v.1) ∷ []))
  unfolding is_elided Store.is_empty new_slice
  pair-IsLaid r w v f h =
      let size = line_length nom.is_space u.addr w v h in
      two-IsLaid nom laws k u m p _ v.0 v.1 r (IsFront-IsPart f) (omega arith)
        (omega (arith, h.key_at)) (omega (arith, h.key_at, h.val_at))
        (omega (arith, h.val_at, f.addr, size))

  header-Lays :
      (r : Span) (w : Bytes) (v : Option (Span × Span))
      → k.parsing_phase ≡ ParsingPhase.headers
      → IsFront u w r
      → IsField nom.is_space u.addr w v
      → Leaves nom laws k u m p (header_or_cookies nom k r v)
  unfolding header_or_cookies push_block
  header-Lays r w (some v) e f h = rw e (
    refl,
    IsFront-IsPart f,
    (pushed (Block.header (pair_of k v.0 v.1)) r tt (pair-IsLaid r w v f h.0), tt, s.2),
  )
  header-Lays r w none e f h =
      let (x, y, z) = bounds nom laws k u m p r (IsFront-IsPart f) in
      (refl, IsFront-IsPart f, (pushed Block.cookies r tt (omega (arith, x, y)), tt, s.2))

  pub headers-Lays :
      k.parsing_phase ≡ ParsingPhase.headers → Leaves nom laws k u m p (turn_headers nom k u)
  unfolding turn_headers
  headers-Lays e =
      or_crlf-Lays nom laws k u m p s _ _ _ _
        (parse_header_or_cookie-Reads nom laws u (input nom laws k u m p))
        (λ r w v f h. header-Lays r w v e f h)
        (λ r q. rw e (refl, q, (rest-IsFiled nom laws k u m p s r q, tt, s.2)))

  pub cookies-Lays :
      (first : Bool)
      → k.parsing_phase ≡ ParsingPhase.cookies first
      → Leaves nom laws k u m p (turn_cookies nom first k u)
  unfolding turn_cookies
  cookies-Lays first e =
      or_crlf-Lays nom laws k u m p s _ _ _ _
        (parse_single_crumb-Reads nom laws first u (input nom laws k u m p))
        (λ r w v f h.
          (refl, IsFront-IsPart f, (rest-IsFiled nom laws k u m p s r (IsFront-IsPart f), tt, s.2)))
        (λ r q. (refl, q, (rest-IsFiled nom laws k u m p s r q, tt, s.2)))
