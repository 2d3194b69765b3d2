-- ===== src/Protocol/Primitives/Reads/Lines.antt =====
-- The first lines of a message and the line in front of a chunk: which bytes their parsers accept.
use kawa.Prelude.{
  codes, parse_uint, max_u16, max_usize, ℕ, ◌+◌, ◌<◌, ◌≡◌, refl, ap, ◌∙◌, ◌⊎◌, inl, inr, Bool, true,
  false, some, [], ◌∷◌, ◌++◌, append-nil, arith, ◌==◌, if◌then◌else◌, Bytes, length, All,
}
use kawa.Storage.Span.{Span}
use kawa.Storage.Repr.{Version, v10, v11}
use kawa.Protocol.Nom.{Nom}
use kawa.Protocol.Nom.Reads.{
  Reads, IsRead, IsOneOf, is_hex_digit, ReadsFront, Reads-bind, Reads-ok, Reads-map, Reads-some,
}
use kawa.Protocol.Primitives.{
  space, crlf, http_version, http_status, parse_request_line, parse_response_line, chunk_size,
  sized_line, next_line, parse_chunk_header, tchar_rules, vchar_rules, achar_rules,
}
use kawa.Protocol.Primitives.Reads.{
  IsText, Text, IsInput, IsInput-rest, tchar-Reads, vchar-Reads, achar-Reads,
}

-- The two versions that are read, as they are written.
abbrev pub IsVersion : ℕ → Bytes → Version → Type 0
IsVersion at w v = ((v ≡ v10) × (w ≡ codes "HTTP/1.0")) ⊎ ((v ≡ v11) × (w ≡ codes "HTTP/1.1"))

-- `method uri version`, in the bytes `w` at `at`.
pub record IsRequestLine (at : ℕ) (w : Bytes) (r : Span × Span × Version) : Type 0 where
  pub version : Bytes
  pub line :
      w ≡ (r.0).bytes ++ (codes " " ++ ((r.1).bytes ++ (codes " " ++ (version ++ codes "\r\n"))))
  pub known : IsVersion at version r.2
  pub method : IsText tchar_rules (r.0).bytes
  pub uri : IsText vchar_rules (r.1).bytes
  pub method_at : (r.0).addr ≡ at
  pub uri_at : (r.1).addr ≡ at + (length (r.0).bytes + 1)

-- `version status reason`.
pub record IsResponseLine (at : ℕ) (w : Bytes) (r : Version × Span × ℕ × Span) : Type 0 where
  pub version : Bytes
  pub line :
      w ≡ version ++ (codes " " ++ ((r.1).bytes ++ (codes " " ++ ((r.3).bytes ++ codes "\r\n"))))
  pub known : IsVersion at version r.0
  pub digits : length (r.1).bytes ≡ 3
  pub code : parse_uint 10 max_u16 (r.1).bytes ≡ some r.2
  pub reason : IsText achar_rules (r.3).bytes
  pub status_at : (r.1).addr ≡ at + 9
  pub reason_at : (r.3).addr ≡ at + 13

-- Three bytes that are a number.
abbrev IsStatus : ℕ → Bytes → Span × ℕ → Type 0
IsStatus at w s = IsRead at w s.0 × (length w ≡ 3) × (parse_uint 10 max_u16 (s.0).bytes ≡ some s.1)

-- A number of hexadecimal digits, which are at `at`.
pub record IsSize (at : ℕ) (w : Bytes) (s : Span × ℕ) : Type 0 where
  pub digits : All (λ c. is_hex_digit c ≡ true) (s.0).bytes
  pub some_digits : 0 < length (s.0).bytes
  pub size : parse_uint 16 max_usize (s.0).bytes ≡ some s.1
  pub shown : (s.0).bytes ≡ w
  pub start : (s.0).addr ≡ at

-- The line in front of a chunk: behind the data of a chunk before it stands an end of line.
abbrev pub ends : Bool → Bytes
ends first = if first then [] else codes "\r\n"

pub record IsChunkLine (first : Bool) (at : ℕ) (w : Bytes) (s : Span × ℕ) : Type 0 where
  pub line : w ≡ ends first ++ ((s.0).bytes ++ codes "\r\n")
  pub digits : All (λ c. is_hex_digit c ≡ true) (s.0).bytes
  pub some_digits : 0 < length (s.0).bytes
  pub size : parse_uint 16 max_usize (s.0).bytes ≡ some s.1
  pub start : (s.0).addr ≡ at + length (ends first)

module _ (nom : Nom) (laws : ReadsFront nom) where
  blank-Reads : (i : Span) → Reads (λ at w v. w ≡ codes " ") i (space nom i)
  unfolding space
  blank-Reads i = Reads-map _ _ i _ (λ w v h. h.0 ∙ ap (λ c. c ∷ []) h.1) (laws.char b' ' i)

  crlf-Reads : (i : Span) → Reads (λ at w v. w ≡ codes "\r\n") i (crlf nom i)
  unfolding crlf
  crlf-Reads i = Reads-map _ _ i _ (λ w v h. h.1) (laws.tag (codes "\r\n") i)

  http_version-Reads : (i : Span) → Reads IsVersion i (http_version nom i)
  unfolding http_version
  http_version-Reads i = Reads-bind _ _ i _ _ (laws.tag (codes "HTTP/1.") i) (λ r w _ f t.
      Reads-bind _ _ r _ _ (laws.one_of (codes "01") r) (λ s x minor g c.
        Reads-ok {A = Version} _ s (if minor == b'0' then v10 else v11)
          (which w x minor t.1 c.0 c.1)))
    where
      which :
          (w x : Bytes) (c : ℕ)
          → w ≡ codes "HTTP/1."
          → x ≡ c ∷ []
          → IsOneOf c (codes "01")
          → IsVersion 0 (w ++ (x ++ [])) (if c == b'0' then v10 else v11)
      which w x c t e (inl z) = rw (t, e, z) (inl (refl, refl))
      which w x c t e (inr (inl z)) = rw (t, e, z) (inr (refl, refl))
      which w x c t e (inr (inr z)) = absurd z

  -- When `parse_request_line` succeeds, what it takes off the input is a method, a space, a target,
  -- a space, a version and an end of line. The method and the target are the spans where they stand,
  -- of bytes that pass their lookups, and the version is the one that is written. The parsers of nom
  -- are to read what they say, and the input lies in memory behind its first 16 bytes.
  pub parse_request_line-Reads :
      (i : Span) → IsInput i → Reads IsRequestLine i (parse_request_line nom i)
  unfolding parse_request_line
  parse_request_line-Reads i h =
      Reads-bind (Text tchar_rules) _ i _ _ (tchar-Reads i h) (λ r w method f k.
        Reads-bind _ _ r _ _ (blank-Reads r) (λ s x _ g c.
          Reads-bind (Text vchar_rules) _ s _ _ (vchar-Reads s (IsInput-rest g (IsInput-rest f h)))
            (λ t y uri e v. Reads-bind _ _ t _ _ (blank-Reads t) (λ u z _ d b.
              Reads-bind IsVersion _ u _ _ (http_version-Reads u) (λ n o version m known.
                Reads-bind _ _ n _ _ (crlf-Reads n) (λ p q _ l end.
                  Reads-ok {A = Span × Span × Version} _ p (method, uri, version)
                    (record {
                      version = o;
                      line = rw (k.0.shown, v.0.shown, c, b, end) refl;
                      known = known;
                      method = rw k.0.shown k.1;
                      uri = rw v.0.shown v.1;
                      method_at = k.0.start;
                      uri_at =
                          omega
                            (arith, v.0.start, g.addr, f.addr, ap length k.0.shown, ap length c);
                    })))))))

  IsVersion-length : (at : ℕ) (w : Bytes) (v : Version) → IsVersion at w v → length w ≡ 8
  IsVersion-length at w v (inl h) = ap length h.1
  IsVersion-length at w v (inr h) = ap length h.1

  http_status-Reads : (i : Span) → Reads IsStatus i (http_status nom i)
  unfolding http_status
  http_status-Reads i = Reads-bind _ _ i _ _ (laws.take 3 i) (λ r w status f t.
      Reads-some {A = ℕ} {B = Span × ℕ} _ r (λ code. (status, code))
        (parse_uint 10 max_u16 status.bytes) (λ code e. (rw append-nil t.0, rw append-nil t.1, e)))

  -- When `parse_response_line` succeeds, what it takes off the input is a version, a space, three
  -- bytes of status, a space, a reason and an end of line. It returns the version that is written,
  -- the status and the reason where they stand, and the number that the status is. The parsers of
  -- nom are to read what they say, and the input lies in memory behind its first 16 bytes.
  pub parse_response_line-Reads :
      (i : Span) → IsInput i → Reads IsResponseLine i (parse_response_line nom i)
  unfolding parse_response_line
  parse_response_line-Reads i h =
      Reads-bind IsVersion _ i _ _ (http_version-Reads i) (λ r w version f known.
        Reads-bind _ _ r _ _ (blank-Reads r) (λ s x _ g c.
          Reads-bind IsStatus _ s _ _ (http_status-Reads s) (λ t y status e k.
            Reads-bind _ _ t _ _ (blank-Reads t) (λ u z _ d b.
              Reads-bind (Text achar_rules) _ u _ _
                (achar-Reads u
                  (IsInput-rest d (IsInput-rest e (IsInput-rest g (IsInput-rest f h)))))
                (λ n o reason m v. Reads-bind _ _ n _ _ (crlf-Reads n) (λ p q _ l end.
                  Reads-ok {A = Version × Span × ℕ × Span} _ p (version, status.0, status.1, reason)
                    (record {
                      version = w;
                      line = rw (k.0.shown, v.0.shown, c, b, end) refl;
                      known = known;
                      digits = rw k.0.shown k.1;
                      code = k.2;
                      reason = rw v.0.shown v.1;
                      status_at = omega (
                        arith,
                        k.0.start,
                        g.addr,
                        f.addr,
                        ap length c,
                        IsVersion-length _ _ _ known,
                      );
                      reason_at = omega (
                        arith,
                        v.0.start,
                        d.addr,
                        e.addr,
                        g.addr,
                        f.addr,
                        k.1,
                        ap length c,
                        ap length b,
                        IsVersion-length _ _ _ known,
                      );
                    })))))))

  chunk_size-Reads : (i : Span) → Reads IsSize i (chunk_size nom i)
  unfolding chunk_size
  chunk_size-Reads i = Reads-bind _ _ i _ _ (laws.hex_digit1 i) (λ r w hexa f t.
      Reads-some {A = ℕ} {B = Span × ℕ} _ r (λ size. (hexa, size))
        (parse_uint 16 max_usize hexa.bytes)
        (λ size e. record {
          digits = rw t.0.shown t.1;
          some_digits = rw t.0.shown t.2;
          size = e;
          shown = rw append-nil t.0.shown;
          start = t.0.start;
        }))

  sized_line-Reads : (i : Span) → Reads (IsChunkLine true) i (sized_line nom i)
  unfolding sized_line
  sized_line-Reads i = Reads-bind _ _ i _ _ (chunk_size-Reads i) (λ r w size f k.
      Reads-bind _ _ r _ _ (crlf-Reads r) (λ s x _ g c. Reads-ok {A = Span × ℕ} _ s size (record {
        line = rw (k.shown, c) refl;
        digits = k.digits;
        some_digits = k.some_digits;
        size = k.size;
        start = omega (arith, k.start);
      })))

  -- When `parse_chunk_header` succeeds, what it takes off the input is hexadecimal digits and an end
  -- of line, behind another end of line where a chunk came before. It returns the digits where they
  -- stand, and the number that they are, when the parsers of nom read what they say.
  pub parse_chunk_header-Reads :
      (first : Bool) (i : Span) → Reads (IsChunkLine first) i (parse_chunk_header nom first i)
  unfolding parse_chunk_header next_line
  parse_chunk_header-Reads true i = sized_line-Reads i
  parse_chunk_header-Reads false i = Reads-bind _ _ i _ _ (crlf-Reads i) (λ r w _ f c.
      Reads-map _ _ r _
        (λ y s k. record {
          line = rw (c, k.line) refl;
          digits = k.digits;
          some_digits = k.some_digits;
          size = k.size;
          start = omega (arith, k.start, f.addr, ap length c);
        })
        (sized_line-Reads r))
