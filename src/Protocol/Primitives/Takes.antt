-- ===== src/Protocol/Primitives/Takes.antt =====
-- How many bytes each parser of `src/protocol/h1/parser/primitives.rs` takes at least.
use kawa.Prelude.{
  codes, parse_uint, max_u16, max_usize, ℕ, ◌+◌, inl, inr, Bool, true, false, Option, none, some,
  List, arith, ◌==◌, if◌then◌else◌, Bool-cases, length, length-drop,
}
use kawa.Storage.Span.{Span}
use kawa.Protocol.Lookup.{
  CharRange, make_char_lookup, streaming, take_while_simd, take_while_fast, compare_no_case,
}
use kawa.Protocol.Nom.{Nom, ok, error}
use kawa.Protocol.Nom.Laws.{Takes, TakesBytes, Takes-weaken, Takes-bind}
use kawa.Protocol.Primitives.{
  take_cv_char, space, crlf, http_version, http_status, parse_request_line, parse_response_line,
  regular_field, parse_header_or_cookie, parse_header, separator, crumb_start, parse_single_crumb,
  chunk_size, sized_line, next_line, parse_chunk_header, tchar_rules, vchar_rules, ck_char_rules,
  cv_char_rules, achar_rules,
}

streaming-Takes : (i : Span) (n : ℕ) → Takes 0 i (streaming i n)
unfolding streaming
streaming-Takes i n = elim (Bool-cases (n == length i.bytes)) [
  | inl e ↦ rw e tt
  | inr e ↦ rw e (omega (arith, length-drop {0} n i.bytes))
]

fast-Takes :
    (rules : List CharRange) (i : Span) → Takes 0 i (take_while_fast (make_char_lookup rules) i)
unfolding take_while_fast take_while_simd
fast-Takes rules i = streaming-Takes i _

module _ (nom : Nom) (laws : TakesBytes nom) where
  pub crlf-Takes : (i : Span) → Takes 2 i (crlf nom i)
  unfolding crlf
  crlf-Takes i = laws.tag (codes "\r\n") i

  version-Takes : (i : Span) → Takes 8 i (http_version nom i)
  unfolding http_version
  version-Takes i =
      Takes-bind 7 1 i _ _ (laws.tag (codes "HTTP/1.") i)
        (λ i _. Takes-bind 1 0 i _ _ (laws.one_of (codes "01") i) (λ i _. omega arith))

  status-Takes : (i : Span) → Takes 3 i (http_status nom i)
  unfolding http_status
  status-Takes i =
      Takes-bind 3 0 i _ _ (laws.take 3 i)
        (λ i status. go i status (parse_uint 10 max_u16 status.bytes))
    where
      go :
          (i status : Span) (r : Option ℕ)
          → Takes {A = Span × ℕ} 0 i (elim r [ some code ↦ ok i (status, code) | none ↦ error i ])
      go i status (some code) = omega arith
      go i status none = tt

  pub request_line-Takes : (i : Span) → Takes 12 i (parse_request_line nom i)
  unfolding parse_request_line space
  request_line-Takes i = Takes-bind 0 12 i _ _ (fast-Takes tchar_rules i) (λ i _.
      Takes-bind 1 11 i _ _ (laws.char 32 i) (λ i _.
        Takes-bind 0 11 i _ _ (fast-Takes vchar_rules i) (λ i _.
          Takes-bind 1 10 i _ _ (laws.char 32 i) (λ i _.
            Takes-bind 8 2 i _ _ (version-Takes i)
              (λ i _. Takes-bind 2 0 i _ _ (crlf-Takes i) (λ i _. omega arith))))))

  pub response_line-Takes : (i : Span) → Takes 15 i (parse_response_line nom i)
  unfolding parse_response_line space
  response_line-Takes i = Takes-bind 8 7 i _ _ (version-Takes i) (λ i _.
      Takes-bind 1 6 i _ _ (laws.char 32 i) (λ i _. Takes-bind 3 3 i _ _ (status-Takes i) (λ i _.
        Takes-bind 1 2 i _ _ (laws.char 32 i) (λ i _.
          Takes-bind 0 2 i _ _ (fast-Takes achar_rules i)
            (λ i _. Takes-bind 2 0 i _ _ (crlf-Takes i) (λ i _. omega arith))))))

  field-Takes : (key i : Span) → Takes 2 i (regular_field nom key i)
  unfolding regular_field
  field-Takes key i =
      Takes-bind 0 2 i _ _ (fast-Takes achar_rules i)
        (λ i _. Takes-bind 2 0 i _ _ (crlf-Takes i) (λ i _. omega arith))

  pub header_or_cookie-Takes : (i : Span) → Takes 1 i (parse_header_or_cookie nom i)
  unfolding parse_header_or_cookie
  header_or_cookie-Takes i = Takes-bind 0 1 i _ _ (fast-Takes tchar_rules i) (λ i key.
      Takes-bind 1 0 i _ _ (laws.tag (codes ":") i) (λ i _.
        Takes-bind 0 0 i _ _ (laws.take_while nom.is_space i) (λ i _.
          elim (Bool-cases (compare_no_case key.bytes (codes "cookie"))) [
            | inl y ↦ rw y (omega arith)
            | inr n ↦ rw n (Takes-weaken 2 0 i _ (omega arith) (field-Takes key i))
          ])))

  pub header-Takes : (i : Span) → Takes 3 i (parse_header nom i)
  unfolding parse_header
  header-Takes i = Takes-bind 0 3 i _ _ (fast-Takes tchar_rules i) (λ i _.
      Takes-bind 1 2 i _ _ (laws.tag (codes ":") i) (λ i _.
        Takes-bind 0 2 i _ _ (laws.take_while nom.is_space i) (λ i _.
          Takes-bind 0 2 i _ _ (fast-Takes achar_rules i)
            (λ i _. Takes-bind 2 0 i _ _ (crlf-Takes i) (λ i _. omega arith)))))

  separator-Takes : (i : Span) → Takes 1 i (separator nom i)
  unfolding separator
  separator-Takes i =
      Takes-bind 1 0 i _ _
        (laws.tuple Span Span (nom.tag (codes ";")) (nom.take_while nom.is_space) 1 0
          (laws.tag (codes ";")) (laws.take_while nom.is_space) i)
        (λ i _. omega arith)

  -- Only the first crumb may be empty.
  abbrev pub crumb_size : Bool → ℕ
  crumb_size first = if first then 0 else 1

  start-Takes : (first : Bool) (i : Span) → Takes (crumb_size first) i (crumb_start nom first i)
  unfolding crumb_start
  start-Takes true i = omega arith
  start-Takes false i = separator-Takes i

  pub crumb-Takes :
      (first : Bool) (i : Span) → Takes (crumb_size first + 0) i (parse_single_crumb nom i first)
  unfolding parse_single_crumb
  crumb-Takes first i = Takes-bind (crumb_size first) 0 i _ _ (start-Takes first i) (λ i _.
      Takes-bind 0 0 i _ _ (fast-Takes ck_char_rules i) (λ i _.
        Takes-bind 0 0 i _ _
          (laws.opt (Span × Span) (nom.tuple Span Span (nom.tag (codes "=")) take_cv_char)
            (λ i. Takes-weaken 1 0 i _ (omega arith) (
              laws.tuple Span Span (nom.tag (codes "=")) take_cv_char 1 0 (laws.tag (codes "="))
                (fast-Takes cv_char_rules) i))
            i)
          (λ i _. omega arith)))

  size-Takes : (i : Span) → Takes 1 i (chunk_size nom i)
  unfolding chunk_size
  size-Takes i =
      Takes-bind 1 0 i _ _ (laws.hex_digit1 i)
        (λ i hexa. go i hexa (parse_uint 16 max_usize hexa.bytes))
    where
      go :
          (i hexa : Span) (r : Option ℕ)
          → Takes {A = Span × ℕ} 0 i (elim r [ some size ↦ ok i (hexa, size) | none ↦ error i ])
      go i hexa (some size) = omega arith
      go i hexa none = tt

  sized_line-Takes : (i : Span) → Takes 3 i (sized_line nom i)
  unfolding sized_line
  sized_line-Takes i =
      Takes-bind 1 2 i _ _ (size-Takes i)
        (λ i _. Takes-bind 2 0 i _ _ (crlf-Takes i) (λ i _. omega arith))

  pub chunk_header-Takes : (first : Bool) (i : Span) → Takes 3 i (parse_chunk_header nom first i)
  unfolding parse_chunk_header next_line
  chunk_header-Takes true i = sized_line-Takes i
  chunk_header-Takes false i =
      Takes-weaken 5 3 i _ (omega arith)
        (Takes-bind 2 3 i _ _ (crlf-Takes i) (λ i _. sized_line-Takes i))
