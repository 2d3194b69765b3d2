-- ===== src/Protocol/Primitives/Reads.antt =====
-- Which lines the parsers of `src/protocol/h1/parser/primitives.rs` accept, and where in them stands
-- what they return.
pub mod Lines
pub mod Crumbs
use kawa.Prelude.{
  Run, done, panic, out_of_fuel, to_run, then_run, codes, digit, push_digit, parse_digits,
  parse_uint, max_u16, max_usize, ℕ, zero, suc, ◌+◌, ◌-◌, ◌*◌, ◌/◌, ◌%◌, ◌^◌, ◌≤◌, ◌<◌, min, ◌≡◌,
  refl, sym, ap, ap₂, ◌∙◌, subst, ◌≢◌, ◌↔◌, ◌⊎◌, inl, inr, Bool, true, false, not, ◌&&◌, ◌||◌,
  Option, none, some, List, [], ◌∷◌, ◌++◌, map, append-nil, append_assoc, arith, ltb, leb, ◌==◌,
  if◌then◌else◌, ltb→lt, lt→ltb, le→ltb, leb→le, le→leb, lt→leb, ==_iff, Bool-cases, Option-cases,
  bind-eq-some, max64, max32, add64, sub64, mul64, add32, sub32, to_u32, sub64-eq-sub, sub32-eq-sub,
  Bytes, length, get_elem?, set, take, drop, replicate, All, length-append, length-take,
  length-drop, length-set, length-replicate, take-append-drop, take_cong, drop_cong, take-nil,
  drop-nil, take_zero, take_prefix, drop_prefix, take_all, drop_all, drop-drop, take-take,
  drop-take, take-add, take-drop-append, take-drop-take, drop-append_of_le, drop-append, not_le,
}
use kawa.Storage.Span.{Span, IsPlaced, from, upto}
use kawa.Protocol.Lookup.{
  CharRange, char_ranges, char_predicate, make_char_lookup, scan, streaming, take_while,
  take_while_fast, compare_no_case,
}
use kawa.Protocol.Lookup.Simd.{scan-le, take_while_simd-eq-take_while}
use kawa.Protocol.Nom.{Nom, IResult, ok, incomplete, error}
use kawa.Protocol.Nom.Reads.{
  IsFront, Reads, IsRead, IsOneOf, is_hex_digit, Opts, Both, ReadsFront, Reads-bind, Reads-ok,
  Reads-map, IsFront-placed,
}
use kawa.Protocol.Primitives.{
  take_cv_char, take_tchar, take_achar, take_vchar, take_ck_char, space, crlf, http_version,
  http_status, parse_request_line, parse_response_line, regular_field, parse_header_or_cookie,
  parse_header, separator, crumb_start, crumb_pair, parse_single_crumb, chunk_size, sized_line,
  next_line, parse_chunk_header, tchar_rules, vchar_rules, ck_char_rules, cv_char_rules,
  achar_rules,
}

-- All bytes pass a lookup.
abbrev pub IsText : List CharRange → Bytes → Type 0
IsText rules = All (λ c. char_predicate rules c ≡ true)

scan-IsText :
    (rules : List CharRange) (xs : Bytes) → IsText rules (take (scan (char_predicate rules) xs) xs)
unfolding scan
scan-IsText rules [] = tt
scan-IsText rules (x ∷ xs) = elim (Bool-cases (char_predicate rules x)) [
  | inl e ↦ rw e (e, scan-IsText rules xs)
  | inr e ↦ rw e tt
]

-- An input that the SIMD instructions can work on: in memory, but not in the first 16 bytes.
pub record IsInput (i : Span) : Type 0 where
  pub placed : IsPlaced i
  pub page : 16 ≤ i.addr

pub IsInput-rest : {i r : Span} {w : Bytes} → IsFront i w r → IsInput i → IsInput r
IsInput-rest f h = record {
  placed = IsFront-placed f h.placed;
  page = omega (arith, f.addr, h.page);
}

-- Bytes that pass a lookup, as a span.
abbrev pub Text : List CharRange → ℕ → Bytes → Span → Type 0
Text rules at w v = IsRead at w v × IsText rules w

streaming-Reads :
    (rules : List CharRange) (i : Span) (n : ℕ)
    → n ≤ length i.bytes
    → IsText rules (take n i.bytes)
    → Reads (Text rules) i (streaming i n)
unfolding streaming Reads
streaming-Reads rules i n h t = elim (Bool-cases (n == length i.bytes)) [
  | inl e ↦ rw e tt
  | inr e ↦ rw e (
    take n i.bytes,
    record {
      bytes = sym (take-append-drop n i.bytes);
      addr = omega (arith, length-take {0} n i.bytes);
    },
    (record { start = refl; shown = refl }, t),
  )
]

fast-Reads :
    (rules : List CharRange)
    → length (char_ranges rules) ≤ 16
    → (i : Span) → IsInput i
    → Reads (Text rules) i (take_while_fast (make_char_lookup rules) i)
unfolding take_while_fast take_while make_char_lookup
fast-Reads rules eight i h =
    subst (Reads (Text rules) i) (sym (take_while_simd-eq-take_while rules eight i h.placed h.page))
      (streaming-Reads rules i _ (scan-le (char_predicate rules) i.bytes)
        (scan-IsText rules i.bytes))

pub tchar-Reads : (i : Span) → IsInput i → Reads (Text tchar_rules) i (take_tchar i)
unfolding char_ranges
tchar-Reads = fast-Reads tchar_rules (omega arith)

pub vchar-Reads : (i : Span) → IsInput i → Reads (Text vchar_rules) i (take_vchar i)
unfolding char_ranges
vchar-Reads = fast-Reads vchar_rules (omega arith)

pub achar-Reads : (i : Span) → IsInput i → Reads (Text achar_rules) i (take_achar i)
unfolding char_ranges
achar-Reads = fast-Reads achar_rules (omega arith)

pub ck_char-Reads : (i : Span) → IsInput i → Reads (Text ck_char_rules) i (take_ck_char i)
unfolding char_ranges
ck_char-Reads = fast-Reads ck_char_rules (omega arith)

pub cv_char-Reads : (i : Span) → IsInput i → Reads (Text cv_char_rules) i (take_cv_char i)
unfolding char_ranges
cv_char-Reads = fast-Reads cv_char_rules (omega arith)

-- `key: val` and its end of line, in the bytes `w` at `at`.
pub record IsHeaderLine (is_space : ℕ → Bool) (at : ℕ) (w : Bytes) (r : Span × Span) : Type 0 where
  pub spaces : Bytes
  pub line : w ≡ (r.0).bytes ++ (codes ":" ++ (spaces ++ ((r.1).bytes ++ codes "\r\n")))
  pub blank : All (λ c. is_space c ≡ true) spaces
  pub key : IsText tchar_rules (r.0).bytes
  pub val : IsText achar_rules (r.1).bytes
  pub key_at : (r.0).addr ≡ at
  pub val_at : (r.1).addr ≡ at + (length (r.0).bytes + 1 + length spaces)

-- The start of a cookie header, up to the first byte behind its blanks: the crumbs are read one by
-- one.
pub record IsCookieStart (is_space : ℕ → Bool) (w : Bytes) : Type 0 where
  pub name : Bytes
  pub spaces : Bytes
  pub line : w ≡ name ++ (codes ":" ++ spaces)
  pub blank : All (λ c. is_space c ≡ true) spaces
  pub text : IsText tchar_rules name
  pub cookie : compare_no_case name (codes "cookie") ≡ true

abbrev pub IsField : (ℕ → Bool) → ℕ → Bytes → Option (Span × Span) → Type 0
IsField is_space at w (some r) =
    IsHeaderLine is_space at w r × (compare_no_case (r.0).bytes (codes "cookie") ≡ false)
IsField is_space at w none = IsCookieStart is_space w

module _ (nom : Nom) (laws : ReadsFront nom) where
  line_of :
      {i r s t : Span} {w x y z o : Bytes} {key val colon end : Span}
      → IsFront i w r
      → Text tchar_rules i.addr w key
      → IsFront r x s
      → IsRead r.addr x colon × (x ≡ codes ":")
      → IsFront s y t
      → IsRead s.addr y end × All (λ c. nom.is_space c ≡ true) y
      → Text achar_rules t.addr z val
      → o ≡ codes "\r\n"
      → IsHeaderLine nom.is_space i.addr (w ++ (x ++ (y ++ (z ++ (o ++ []))))) (key, val)
  line_of {y = y} f k g c e b v l = record {
    spaces = y;
    line = rw (k.0.shown, v.0.shown, c.1, l) refl;
    blank = b.1;
    key = rw k.0.shown k.1;
    val = rw v.0.shown v.1;
    key_at = k.0.start;
    val_at = omega (arith, v.0.start, e.addr, g.addr, f.addr, ap length k.0.shown, ap length c.1);
  }

  pub parse_header-Reads :
      (i : Span) → IsInput i → Reads (IsHeaderLine nom.is_space) i (parse_header nom i)
  unfolding parse_header crlf
  parse_header-Reads i h = Reads-bind (Text tchar_rules) _ i _ _ (tchar-Reads i h) (λ r w key f k.
      Reads-bind _ _ r _ _ (laws.tag (codes ":") r) (λ s x _ g c.
        Reads-bind _ _ s _ _ (laws.take_while nom.is_space s) (λ t y _ e b.
          Reads-bind (Text achar_rules) _ t _ _
            (achar-Reads t (IsInput-rest e (IsInput-rest g (IsInput-rest f h))))
            (λ u z val d v. Reads-bind _ _ u _ _ (laws.tag (codes "\r\n") u) (λ n o _ m l.
              Reads-ok {A = Span × Span} _ n (key, val) (line_of f k g c e b v l.1))))))

  -- When `parse_header_or_cookie` succeeds with a key and a value, what it takes off the input is the
  -- key, `:`, spaces, the value and an end of line; the two are the spans where they stand, and the
  -- key is not `cookie`. When it succeeds without them, it takes a name that is `cookie`, `:` and
  -- spaces. The parsers of nom are to read what they say, and the input lies in memory behind its
  -- first 16 bytes.
  pub parse_header_or_cookie-Reads :
      (i : Span) → IsInput i → Reads (IsField nom.is_space) i (parse_header_or_cookie nom i)
  unfolding parse_header_or_cookie regular_field crlf
  parse_header_or_cookie-Reads i h =
      Reads-bind (Text tchar_rules) _ i _ _ (tchar-Reads i h) (λ r w key f k.
        Reads-bind _ _ r _ _ (laws.tag (codes ":") r) (λ s x _ g c.
          Reads-bind _ _ s _ _ (laws.take_while nom.is_space s) (λ t y _ e b.
            elim (Bool-cases (compare_no_case key.bytes (codes "cookie"))) [
              | inl z ↦ rw z (
                  Reads-ok {A = Option (Span × Span)} _ t none (record {
                    name = key.bytes;
                    spaces = y;
                    line = rw (k.0.shown, c.1) (rw append-nil refl);
                    blank = b.1;
                    text = rw k.0.shown k.1;
                    cookie = z;
                  }))
              | inr z ↦ rw z (
                  Reads-bind (Text achar_rules) _ t _ _
                    (achar-Reads t (IsInput-rest e (IsInput-rest g (IsInput-rest f h))))
                    (λ u q val d v. Reads-bind _ _ u _ _ (laws.tag (codes "\r\n") u) (λ n o _ m l.
                      Reads-ok {A = Option (Span × Span)} _ n (some (key, val))
                        (line_of f k g c e b v l.1, z))))
            ])))
