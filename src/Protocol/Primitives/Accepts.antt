-- ===== src/Protocol/Primitives/Accepts.antt =====
-- Which headers `parse_header_or_cookie` accepts.
use kawa.Prelude.{
  codes, ℕ, ◌+◌, ◌≤◌, ◌≡◌, refl, sym, ap, ◌∙◌, subst, false, some, List, [], ◌∷◌, ◌++◌, arith, ◌==◌,
  Bytes, length, length-append, take_prefix, drop_prefix,
}
use kawa.Protocol.Lookup.{
  CharRange, char_ranges, char_predicate, make_char_lookup, scan, streaming, take_while,
  take_while_fast, compare_no_case,
}
use kawa.Protocol.Lookup.Simd.{take_while_simd-eq-take_while}
use kawa.Protocol.Nom.{Nom, ok}
use kawa.Protocol.Nom.Accepts.{at, took, AcceptsText}
use kawa.Protocol.Primitives.{
  take_tchar, take_achar, crlf, regular_field, parse_header_or_cookie, tchar_rules, achar_rules,
}
use kawa.Protocol.Primitives.Reads.{IsText, IsInput}

scan_lem :
    (rules : List CharRange) (w : Bytes) (c : ℕ) (rest : Bytes)
    → IsText rules w
    → char_predicate rules c ≡ false
    → scan (char_predicate rules) (w ++ (c ∷ rest)) ≡ length w
unfolding scan
scan_lem rules [] c rest t e = rw e refl
scan_lem rules (x ∷ w) c rest t e = rw (t.0, scan_lem rules w c rest t.1 e) refl

-- A lookup takes the bytes that pass, up to the first one that does not.
fast-took :
    (rules : List CharRange)
    → length (char_ranges rules) ≤ 16
    → (w : Bytes) (c : ℕ) (rest : Bytes) (addr : ℕ) → IsInput (at addr (w ++ (c ∷ rest)))
    → IsText rules w
    → char_predicate rules c ≡ false
    → take_while_fast (make_char_lookup rules) (at addr (w ++ (c ∷ rest))) ≡ took addr w (c ∷ rest)
unfolding take_while_fast take_while make_char_lookup streaming
fast-took rules eight w c rest addr h t e =
    take_while_simd-eq-take_while rules eight (at addr (w ++ (c ∷ rest))) h.placed h.page
    ∙ ap (streaming (at addr (w ++ (c ∷ rest)))) (scan_lem rules w c rest t e)
    ∙ cut
  where
    longer : (length w == length (w ++ (c ∷ rest))) ≡ false
    longer = ground (arith, length-append {0} w (c ∷ rest))

    cut : streaming (at addr (w ++ (c ∷ rest))) (length w) ≡ took addr w (c ∷ rest)
    cut =
        rw
          (
            longer,
            take_prefix (length w) w (c ∷ rest) refl,
            drop_prefix (length w) w (c ∷ rest) refl,
          )
          refl

-- The first byte of a value on its line.
abbrev pub first : Bytes → ℕ
first [] = b'\r'
first (c ∷ cs) = c

-- What follows that byte.
abbrev after_first : Bytes → Bytes → Bytes
after_first [] rest = b'\n' ∷ rest
after_first (c ∷ cs) rest = cs ++ (codes "\r\n" ++ rest)

first_lem : (val rest : Bytes) → val ++ (codes "\r\n" ++ rest) ≡ first val ∷ after_first val rest
first_lem [] rest = refl
first_lem (c ∷ cs) rest = refl

-- A header as the converter writes it, and what follows.
abbrev pub line : Bytes → Bytes → Bytes → Bytes
line key val rest = key ++ (codes ": " ++ (val ++ (codes "\r\n" ++ rest)))

module _ (nom : Nom) (laws : AcceptsText nom) (key val rest : Bytes) (addr : ℕ) where
  module _ (k : IsText tchar_rules key) (v : IsText achar_rules val)
      (h : IsInput (at addr (line key val rest))) where
    key-took :
        take_tchar (at addr (line key val rest))
        ≡ took addr key (codes ": " ++ (val ++ (codes "\r\n" ++ rest)))
    unfolding char_ranges char_predicate
    key-took =
        fast-took tchar_rules (omega arith) key b':' (b' ' ∷ (val ++ (codes "\r\n" ++ rest))) addr h
          k refl

    value-IsInput : IsInput (at (addr + length key + 1 + 1) (val ++ (codes "\r\n" ++ rest)))
    value-IsInput = record {
      placed = record {
        fits = omega (arith, h.placed.fits, lengths);
        small = omega (arith, h.placed.small, lengths);
      };
      page = omega (arith, h.page);
    }
      where
        lengths :
            length (line key val rest) ≡ length key + (2 + length (val ++ (codes "\r\n" ++ rest)))
        lengths =
            omega (arith, length-append {0} key (codes ": " ++ (val ++ (codes "\r\n" ++ rest))))

    spaces-took :
        nom.is_space (first val) ≡ false
        → nom.take_while nom.is_space
            (at (addr + length key + 1) (codes " " ++ (val ++ (codes "\r\n" ++ rest))))
          ≡ took (addr + length key + 1) (codes " ") (val ++ (codes "\r\n" ++ rest))
    spaces-took f =
        subst
          (λ z.
            nom.take_while nom.is_space (at (addr + length key + 1) (codes " " ++ z))
            ≡ took (addr + length key + 1) (codes " ") z)
          (sym (first_lem val rest))
          (laws.take_while nom.is_space (codes " ") (first val) (after_first val rest) _
            (laws.space, tt) f)

    value-took :
        take_achar (at (addr + length key + 1 + 1) (val ++ (codes "\r\n" ++ rest)))
        ≡ took (addr + length key + 1 + 1) val (codes "\r\n" ++ rest)
    unfolding char_ranges char_predicate
    value-took = fast-took achar_rules (omega arith) val b'\r' (b'\n' ∷ rest) _ value-IsInput v refl

    pub field_accepted :
        compare_no_case key (codes "cookie") ≡ false
        → nom.is_space (first val) ≡ false
        → parse_header_or_cookie nom (at addr (line key val rest))
          ≡ ok
              (at (addr + length key + 1 + 1 + length val + 2) rest)
              (some (at addr key, at (addr + length key + 1 + 1) val))
    unfolding parse_header_or_cookie regular_field crlf
    field_accepted c f =
        rw
          (
            key-took,
            laws.tag (codes ":") (codes " " ++ (val ++ (codes "\r\n" ++ rest))) (addr + length key),
            spaces-took f,
            c,
            value-took,
            laws.tag (codes "\r\n") rest (addr + length key + 1 + 1 + length val),
          )
          refl
