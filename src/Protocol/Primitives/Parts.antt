-- ===== src/Protocol/Primitives/Parts.antt =====
-- What the parsers of `src/protocol/h1/parser/primitives.rs` return are parts of their input.
use kawa.Prelude.{
  codes, parse_uint, max_u16, max_usize, ℕ, ◌≤◌, sym, ap, ◌∙◌, subst, inl, inr, Bool, true, false,
  Option, none, some, List, [], ◌++◌, append-nil, arith, ◌==◌, Bool-cases, Bytes, length, take,
  drop, length-take, take-append-drop,
}
use kawa.Storage.Span.{Span, IsPart, IsPart-trans, IsPlaced, IsPart-bounds, from, upto}
use kawa.Protocol.Lookup.{
  CharRange, char_ranges, char_predicate, make_char_lookup, streaming, take_while, take_while_fast,
  compare_no_case,
}
use kawa.Protocol.Lookup.Simd.{scan-le, take_while_simd-eq-take_while}
use kawa.Protocol.Nom.{Nom, IResult, ok, incomplete, error}
use kawa.Protocol.Nom.Parts.{
  TakesParts, Yields, Whole, IfSome, Yields-bind, Yields-under, Yields-inside, IsPart-placed,
}
use kawa.Protocol.Primitives.{
  take_cv_char, take_tchar, space, crlf, http_version, http_status, parse_request_line,
  parse_response_line, regular_field, parse_header_or_cookie, parse_header, separator, crumb_start,
  crumb_pair, parse_single_crumb, chunk_size, sized_line, next_line, parse_chunk_header,
  tchar_rules, vchar_rules, ck_char_rules, cv_char_rules, achar_rules,
}

-- Cutting a span at an index.
pub cut_parts : (i : Span) (n : ℕ) → n ≤ length i.bytes → IsPart i (from i n) × IsPart i (upto i n)
cut_parts i n h = (
  record {
    before = take n i.bytes;
    after = [];
    splits =
        sym (
          ap (λ z. take n i.bytes ++ z) (append-nil (drop n i.bytes)) ∙ take-append-drop n i.bytes);
    at = omega (arith, length-take n i.bytes);
  },
  record {
    before = [];
    after = drop n i.bytes;
    splits = sym (take-append-drop n i.bytes);
    at = omega arith;
  },
)

streaming-Yields : (i : Span) (n : ℕ) → n ≤ length i.bytes → Yields (IsPart i) i (streaming i n)
unfolding streaming
streaming-Yields i n h = elim (Bool-cases (n == length i.bytes)) [
  | inl e ↦ rw e tt
  | inr e ↦ rw e (cut_parts i n h)
]

module _ (u : Span) (placed : IsPlaced u) (page : 16 ≤ u.addr) where
  fast-Yields :
      (rules : List CharRange)
      → length (char_ranges rules) ≤ 16
      → (i : Span) → IsPart u i
      → Yields (IsPart u) u (take_while_fast (make_char_lookup rules) i)
  unfolding take_while_fast take_while make_char_lookup
  fast-Yields rules eight i p =
      subst (Yields (IsPart u) u)
        (sym (
          take_while_simd-eq-take_while rules eight i (IsPart-placed p placed)
            (omega (arith, IsPart-bounds p))))
        (Yields-under _ p (streaming-Yields i _ (scan-le (char_predicate rules) i.bytes)))

any : (i : Span) (x : IResult Span) → Yields (IsPart i) i x → Yields Whole i x
any i (ok r v) y = (y.0, tt)
any i incomplete y = tt
any i (error at) y = tt
any i (IResult.failure at) y = tt

-- The place where a part starts.
IsPart-start : {u i : Span} → IsPart u i → IsPart u (record { addr = i.addr; bytes = [] })
IsPart-start {u} {i} p = record {
  before = p.before;
  after = i.bytes ++ p.after;
  splits = p.splits;
  at = p.at;
}

module _ (u : Span) (placed : IsPlaced u) (page : 16 ≤ u.addr) where
  tchar-Yields : (i : Span) → IsPart u i → Yields (IsPart u) u (take_tchar i)
  unfolding char_ranges
  tchar-Yields = fast-Yields u placed page tchar_rules (omega arith)

  vchar-Yields :
      (i : Span)
      → IsPart u i
      → Yields (IsPart u) u (take_while_fast (make_char_lookup vchar_rules) i)
  unfolding char_ranges
  vchar-Yields = fast-Yields u placed page vchar_rules (omega arith)

  ck_char-Yields :
      (i : Span)
      → IsPart u i
      → Yields (IsPart u) u (take_while_fast (make_char_lookup ck_char_rules) i)
  unfolding char_ranges
  ck_char-Yields = fast-Yields u placed page ck_char_rules (omega arith)

  cv_char-Yields :
      (i : Span)
      → IsPart u i
      → Yields (IsPart u) u (take_while_fast (make_char_lookup cv_char_rules) i)
  unfolding char_ranges
  cv_char-Yields = fast-Yields u placed page cv_char_rules (omega arith)

  achar-Yields :
      (i : Span)
      → IsPart u i
      → Yields (IsPart u) u (take_while_fast (make_char_lookup achar_rules) i)
  unfolding char_ranges
  achar-Yields = fast-Yields u placed page achar_rules (omega arith)

  module _ (nom : Nom) (laws : TakesParts nom) where
    tag-Yields : (t : Bytes) (i : Span) → IsPart u i → Yields (IsPart u) u (nom.tag t i)
    tag-Yields t i p = Yields-under _ p (laws.tag t i)

    pub crlf-Yields : (i : Span) → IsPart u i → Yields (IsPart u) u (crlf nom i)
    unfolding crlf
    crlf-Yields i p = tag-Yields (codes "\r\n") i p

    blank-Yields : (i : Span) → IsPart u i → Yields Whole u (space nom i)
    unfolding space
    blank-Yields i p = Yields-inside Whole _ p (laws.char 32 i)

    spaces-Yields : (i : Span) → IsPart u i → Yields (IsPart u) u (nom.take_while nom.is_space i)
    spaces-Yields i p = Yields-under _ p (laws.take_while nom.is_space i)

    version-Yields : (i : Span) → IsPart u i → Yields Whole u (http_version nom i)
    unfolding http_version
    version-Yields i p =
        Yields-bind (IsPart u) Whole u _ _ (tag-Yields (codes "HTTP/1.") i p) (λ i _ p _.
          Yields-bind Whole Whole u _ _ (Yields-inside Whole _ p (laws.one_of (codes "01") i))
            (λ i _ p _. (p, tt)))

    status-Yields : (i : Span) → IsPart u i → Yields (λ s. IsPart u s.0) u (http_status nom i)
    unfolding http_status
    status-Yields i p =
        Yields-bind (IsPart u) _ u _ _ (Yields-under _ p (laws.take 3 i))
          (λ i status p q. go i status p q (parse_uint 10 max_u16 status.bytes))
      where
        go :
            (i status : Span)
            → IsPart u i
            → IsPart u status
            → (r : Option ℕ)
            → Yields {A = Span × ℕ}
                (λ s. IsPart u s.0)
                u
                (elim r [ some code ↦ ok i (status, code) | none ↦ error i ])
        go i status p q (some code) = (p, q)
        go i status p q none = tt

    pub request_line-Yields :
        (i : Span)
        → IsPart u i
        → Yields (λ r. IsPart u r.0 × IsPart u r.1) u (parse_request_line nom i)
    unfolding parse_request_line
    request_line-Yields i p = Yields-bind (IsPart u) _ u _ _ (tchar-Yields i p) (λ i _ p m.
        Yields-bind Whole _ u _ _ (blank-Yields i p) (λ i _ p _.
          Yields-bind (IsPart u) _ u _ _ (vchar-Yields i p) (λ i _ p t.
            Yields-bind Whole _ u _ _ (blank-Yields i p) (λ i _ p _.
              Yields-bind Whole _ u _ _ (version-Yields i p) (λ i _ p _.
                Yields-bind (IsPart u) _ u _ _ (crlf-Yields i p) (λ i _ p _. (p, (m, t))))))))

    pub response_line-Yields :
        (i : Span)
        → IsPart u i
        → Yields (λ r. IsPart u r.1 × IsPart u r.3) u (parse_response_line nom i)
    unfolding parse_response_line
    response_line-Yields i p = Yields-bind Whole _ u _ _ (version-Yields i p) (λ i _ p _.
        Yields-bind Whole _ u _ _ (blank-Yields i p) (λ i _ p _.
          Yields-bind (λ s. IsPart u s.0) _ u _ _ (status-Yields i p)
            (λ i _ p s. Yields-bind Whole _ u _ _ (blank-Yields i p) (λ i _ p _.
              Yields-bind (IsPart u) _ u _ _ (achar-Yields i p) (λ i _ p t.
                Yields-bind (IsPart u) _ u _ _ (crlf-Yields i p) (λ i _ p _. (p, (s, t))))))))

    -- A key and a value.
    abbrev pub PairIn : Span × Span → Type 0
    PairIn r = IsPart u r.0 × IsPart u r.1

    field-Yields :
        (key i : Span)
        → IsPart u key
        → IsPart u i
        → Yields (IfSome PairIn) u (regular_field nom key i)
    unfolding regular_field
    field-Yields key i k p =
        Yields-bind (IsPart u) _ u _ _ (achar-Yields i p)
          (λ i _ p v. Yields-bind (IsPart u) _ u _ _ (crlf-Yields i p) (λ i _ p _. (p, (k, v))))

    pub header_or_cookie-Yields :
        (i : Span) → IsPart u i → Yields (IfSome PairIn) u (parse_header_or_cookie nom i)
    unfolding parse_header_or_cookie
    header_or_cookie-Yields i p = Yields-bind (IsPart u) _ u _ _ (tchar-Yields i p) (λ i key p k.
        Yields-bind (IsPart u) _ u _ _ (tag-Yields (codes ":") i p) (λ i _ p _.
          Yields-bind (IsPart u) _ u _ _ (spaces-Yields i p) (λ i _ p _.
            elim (Bool-cases (compare_no_case key.bytes (codes "cookie"))) [
              | inl y ↦ rw y (p, tt)
              | inr n ↦ rw n (field-Yields key i k p)
            ])))

    pub header-Yields : (i : Span) → IsPart u i → Yields PairIn u (parse_header nom i)
    unfolding parse_header
    header-Yields i p = Yields-bind (IsPart u) _ u _ _ (tchar-Yields i p) (λ i _ p k.
        Yields-bind (IsPart u) _ u _ _ (tag-Yields (codes ":") i p) (λ i _ p _.
          Yields-bind (IsPart u) _ u _ _ (spaces-Yields i p) (λ i _ p _.
            Yields-bind (IsPart u) _ u _ _ (achar-Yields i p) (λ i _ p v.
              Yields-bind (IsPart u) _ u _ _ (crlf-Yields i p) (λ i _ p _. (p, (k, v)))))))

    size-Yields : (i : Span) → IsPart u i → Yields (λ s. IsPart u s.0) u (chunk_size nom i)
    unfolding chunk_size
    size-Yields i p =
        Yields-bind (IsPart u) _ u _ _ (Yields-under _ p (laws.hex_digit1 i))
          (λ i hexa p q. go i hexa p q (parse_uint 16 max_usize hexa.bytes))
      where
        go :
            (i hexa : Span)
            → IsPart u i
            → IsPart u hexa
            → (r : Option ℕ)
            → Yields {A = Span × ℕ}
                (λ s. IsPart u s.0)
                u
                (elim r [ some size ↦ ok i (hexa, size) | none ↦ error i ])
        go i hexa p q (some size) = (p, q)
        go i hexa p q none = tt

    sized_line-Yields : (i : Span) → IsPart u i → Yields (λ s. IsPart u s.0) u (sized_line nom i)
    unfolding sized_line
    sized_line-Yields i p =
        Yields-bind (λ s. IsPart u s.0) _ u _ _ (size-Yields i p)
          (λ i _ p s. Yields-bind (IsPart u) _ u _ _ (crlf-Yields i p) (λ i _ p _. (p, s)))

    pub chunk_header-Yields :
        (first : Bool) (i : Span)
        → IsPart u i
        → Yields (λ s. IsPart u s.0) u (parse_chunk_header nom first i)
    unfolding parse_chunk_header next_line
    chunk_header-Yields true i p = sized_line-Yields i p
    chunk_header-Yields false i p =
        Yields-bind (IsPart u) _ u _ _ (crlf-Yields i p) (λ i _ p _. sized_line-Yields i p)

    separator-Yields : (i : Span) → IsPart u i → Yields Whole u (separator nom i)
    unfolding separator
    separator-Yields i p =
        Yields-bind (λ v. Whole v.0 × Whole v.1) Whole u _ _
          (Yields-inside _ _ p (
            laws.tuple Span Span Whole Whole (nom.tag (codes ";")) (nom.take_while nom.is_space) i
              (any i _ (laws.tag (codes ";") i))
              (λ r q. Yields-inside Whole _ q (any r _ (laws.take_while nom.is_space r)))))
          (λ i _ p _. (p, tt))

    start-Yields : (first : Bool) (i : Span) → IsPart u i → Yields Whole u (crumb_start nom first i)
    unfolding crumb_start
    start-Yields true i p = (p, tt)
    start-Yields false i p = separator-Yields i p

    under-base :
        (i : Span) → IsPart u i → (x : IResult Span) → Yields (IsPart i) i x → Yields (IsPart u) i x
    under-base i p (ok r v) y = (y.0, IsPart-trans p y.1)
    under-base i p incomplete y = tt
    under-base i p (error at) y = tt
    under-base i p (IResult.failure at) y = tt

    value-Yields :
        (i : Span)
        → IsPart u i
        → Yields
            (IfSome (λ v. Whole v.0 × IsPart u v.1))
            u
            (nom.opt (Span × Span) (nom.tuple Span Span (nom.tag (codes "=")) take_cv_char) i)
    unfolding char_ranges
    value-Yields i p = Yields-inside _ _ p (
        laws.opt (Span × Span) (λ v. Whole v.0 × IsPart u v.1) _ i
          (laws.tuple Span Span Whole (IsPart u) (nom.tag (codes "=")) take_cv_char i
            (any i _ (laws.tag (codes "=") i))
            (λ r q. under-base i p _ (
              fast-Yields i (IsPart-placed p placed) (omega (arith, IsPart-bounds p)) cv_char_rules
                (omega arith) r q))))

    pub crumb-Yields :
        (first : Bool) (i : Span) → IsPart u i → Yields PairIn u (parse_single_crumb nom i first)
    unfolding parse_single_crumb crumb_pair
    crumb-Yields first i p = Yields-bind Whole _ u _ _ (start-Yields first i p) (λ i _ p _.
        Yields-bind (IsPart u) _ u _ _ (ck_char-Yields i p) (λ i key p k.
          Yields-bind (IfSome (λ v. Whole v.0 × IsPart u v.1)) _ u _ _ (value-Yields i p)
            (λ i v p q. (p, pair key v k q))))
      where
        pair :
            (key : Span) (v : Option (Span × Span))
            → IsPart u key
            → IfSome (λ v. Whole v.0 × IsPart u v.1) v
            → PairIn (crumb_pair nom key v)
        pair key none k q = (IsPart-start k, k)
        pair key (some v) k q = (k, q.1)
