-- ===== src/Protocol/Primitives.antt =====
-- `src/protocol/h1/parser/primitives.rs`: the lookups, and the parsers of the first line, of
-- headers and of cookies. `none` of an `Option` in a URL is the source's `None`.
pub mod Takes
pub mod Parts
pub mod Reads
pub mod Accepts
use kawa.Prelude.{
  codes, parse_uint, max_u16, max_usize, ℕ, Bool, not, Option, none, some, List, [], ◌∷◌, ◌==◌,
  if◌then◌else◌,
}
use kawa.Storage.Span.{Span}
use kawa.Storage.Repr.{Version, v10, v11}
use kawa.Protocol.Nom.{IResult, ok, error, ◌>>=◌, Nom}
use kawa.Protocol.Lookup.{
  CharRange, between, only, make_char_lookup, take_while_fast, compare_no_case,
}

-- With the feature `tolerant-parsing`.
abbrev pub last_invalid_char : ℕ
last_invalid_char = 0x9F

abbrev pub tchar_rules : List CharRange
tchar_rules =
    between 0x00 0x20
    ∷ between b'(' b')'
    ∷ between b'[' b']'
    ∷ only b'{'
    ∷ only b'}'
    ∷ only b','
    ∷ between b':' b'@'
    ∷ between 0x7F last_invalid_char
    ∷ []

abbrev pub vchar_rules : List CharRange
vchar_rules = between 0x00 0x20 ∷ between 0x7F last_invalid_char ∷ []

abbrev pub ck_char_rules : List CharRange
ck_char_rules = between 0x00 0x1F ∷ only b';' ∷ only b'=' ∷ between 0x7F last_invalid_char ∷ []

abbrev pub cv_char_rules : List CharRange
cv_char_rules = between 0x00 0x1F ∷ only b';' ∷ between 0x7F last_invalid_char ∷ []

abbrev pub achar_rules : List CharRange
achar_rules = between 0x00 0x08 ∷ between 0x0A 0x1F ∷ between 0x7F last_invalid_char ∷ []

-- `take_while_fast` of the module that each lookup makes.
abbrev pub take_tchar : Span → IResult Span
take_tchar = take_while_fast (make_char_lookup tchar_rules)

abbrev pub take_vchar : Span → IResult Span
take_vchar = take_while_fast (make_char_lookup vchar_rules)

abbrev pub take_ck_char : Span → IResult Span
take_ck_char = take_while_fast (make_char_lookup ck_char_rules)

abbrev pub take_cv_char : Span → IResult Span
take_cv_char = take_while_fast (make_char_lookup cv_char_rules)

abbrev pub take_achar : Span → IResult Span
take_achar = take_while_fast (make_char_lookup achar_rules)

module _ (nom : Nom) where
  unfoldable pub space : Span → IResult ℕ
  space i = nom.char b' ' i

  unfoldable pub crlf : Span → IResult Span
  crlf i = nom.tag (codes "\r\n") i

  unfoldable pub http_version : Span → IResult Version
  http_version i = do
    (i, _) ← nom.tag (codes "HTTP/1.") i
    (i, minor) ← nom.one_of (codes "01") i
    ok i (if minor == b'0' then v10 else v11)

  unfoldable pub http_status : Span → IResult (Span × ℕ)
  http_status i = do
    (i, status) ← nom.take 3 i
    elim (parse_uint 10 max_u16 status.bytes) [ some code ↦ ok i (status, code) | none ↦ error i ]

  unfoldable pub parse_request_line : Span → IResult (Span × Span × Version)
  unfolding space crlf http_version
  parse_request_line i = do
    (i, method) ← take_tchar i
    (i, _) ← space i
    (i, uri) ← take_vchar i
    (i, _) ← space i
    (i, version) ← http_version i
    (i, _) ← crlf i
    ok i (method, uri, version)

  unfoldable pub parse_response_line : Span → IResult (Version × Span × ℕ × Span)
  unfolding space crlf http_version http_status
  parse_response_line i = do
    (i, version) ← http_version i
    (i, _) ← space i
    (i, status) ← http_status i
    (i, _) ← space i
    (i, reason) ← take_achar i
    (i, _) ← crlf i
    ok i (version, status.0, status.1, reason)

  -- The value of a header that is no cookie.
  unfoldable pub regular_field : Span → Span → IResult (Option (Span × Span))
  unfolding crlf
  regular_field key i = do (i, val) ← take_achar i; (i, _) ← crlf i; ok i (some (key, val))

  -- `none` at a cookie header, whose crumbs are parsed one by one.
  unfoldable pub parse_header_or_cookie : Span → IResult (Option (Span × Span))
  unfolding regular_field compare_no_case
  parse_header_or_cookie i = do
    (i, key) ← take_tchar i
    (i, _) ← nom.tag (codes ":") i
    (i, _) ← nom.take_while nom.is_space i
    if compare_no_case key.bytes (codes "cookie") then ok i none else regular_field key i

  unfoldable pub parse_header : Span → IResult (Span × Span)
  unfolding crlf
  parse_header i = do
    (i, key) ← take_tchar i
    (i, _) ← nom.tag (codes ":") i
    (i, _) ← nom.take_while nom.is_space i
    (i, val) ← take_achar i
    (i, _) ← crlf i
    ok i (key, val)

  -- What stands before a crumb, and nothing before the first one.
  unfoldable pub separator : Span → IResult (Unit {0})
  separator i = do
    (i, _) ← nom.tuple Span Span (nom.tag (codes ";")) (nom.take_while nom.is_space) i
    ok i tt

  unfoldable pub crumb_start : Bool → Span → IResult (Unit {0})
  unfolding separator
  crumb_start first i = if not first then separator i else ok i tt

  -- A crumb without `=` is a value with an empty key, `&key[..0]`.
  unfoldable pub crumb_pair : Span → Option (Span × Span) → Span × Span
  crumb_pair key (some (eq, val)) = (key, val)
  crumb_pair key none = (record { addr = key.addr; bytes = [] }, key)

  unfoldable pub parse_single_crumb : Span → Bool → IResult (Span × Span)
  unfolding crumb_start crumb_pair
  parse_single_crumb i first = do
    (i, _) ← crumb_start first i
    (i, key) ← take_ck_char i
    (i, val) ← nom.opt (Span × Span) (nom.tuple Span Span (nom.tag (codes "=")) take_cv_char) i
    ok i (crumb_pair key val)

  unfoldable pub chunk_size : Span → IResult (Span × ℕ)
  chunk_size i = do
    (i, size_hexa) ← nom.hex_digit1 i
    elim (parse_uint 16 max_usize size_hexa.bytes) [
      | some size ↦ ok i (size_hexa, size)
      | none ↦ error i
    ]

  unfoldable pub sized_line : Span → IResult (Span × ℕ)
  unfolding chunk_size crlf
  sized_line i = do (i, size) ← chunk_size i; (i, _) ← crlf i; ok i size

  -- Behind the data of a chunk.
  unfoldable pub next_line : Span → IResult (Span × ℕ)
  unfolding sized_line crlf
  next_line i = do (i, _) ← crlf i; sized_line i

  unfoldable pub parse_chunk_header : Bool → Span → IResult (Span × ℕ)
  unfolding sized_line next_line
  parse_chunk_header first i = if first then sized_line i else next_line i
