-- ===== src/Protocol/Rewrite.antt =====
-- A header line that is parsed, and what the HTTP/1 converter writes for it.
use kawa.Protocol.Primitives.Reads.{IsInput}
use kawa.Prelude.{
  codes, ℕ, ◌+◌, ◌≤◌, ◌<◌, ◌≡◌, refl, ap, ◌∙◌, subst, Bool, true, false, some, [], ◌++◌, map,
  append_assoc, arith, max32, Bytes, length, All, length-append,
}
use kawa.Protocol.Nom.Accepts.{AcceptsText, at}
use kawa.Protocol.Lookup.{compare_no_case}
use kawa.Protocol.Primitives.Accepts.{line, first, field_accepted}
use kawa.Protocol.Primitives.Reads.{IsText}
use kawa.Protocol.Primitives.{tchar_rules, achar_rules}
use kawa.Storage.Span.{Span, IsPart, IsPart-trans, IsPlaced}
use kawa.Storage.Slice.{data_of-new}
use kawa.Storage.Store
use kawa.Storage.Store.{Store, new_slice}
use kawa.Storage.OutBlock.{OutBlock}
use kawa.Storage.Repr.{is_elided}
use kawa.Storage.Kawa.Stream.{stream}
use kawa.Protocol.H1.{header_stores}
use kawa.Protocol.Nom.{Nom, ok}
use kawa.Protocol.Nom.Parts.{IsPart-placed}
use kawa.Protocol.Nom.Reads.{ReadsFront, Reads, IsFront}
use kawa.Protocol.Primitives.{parse_header_or_cookie, tchar_rules, achar_rules}
use kawa.Protocol.Primitives.Reads.{IsHeaderLine, IsField, parse_header_or_cookie-Reads}

-- What is written for a header whose key and value are parts of the buffer.
pub stream-header_stores :
    (buf key val : Span)
    → IsPlaced buf
    → length buf.bytes < max32
    → IsPart buf key
    → IsPart buf val
    → stream buf.bytes (
        map OutBlock.store
          (header_stores (record { key = new_slice buf key; val = new_slice buf val })))
      ≡ key.bytes ++ (codes ": " ++ (val.bytes ++ codes "\r\n"))
unfolding header_stores is_elided new_slice Store.is_empty
stream-header_stores buf key val placed small k v =
    rw ((data_of-new buf key placed k small).1, (data_of-new buf val placed v small).1) refl

module _ {sp : ℕ → Bool} {i r key val : Span} {w : Bytes} (f : IsFront i w r)
    (l : IsHeaderLine sp i.addr w (key, val)) where
  whole_line :
      i.bytes ≡ key.bytes ++ (codes ":" ++ (l.spaces ++ (val.bytes ++ (codes "\r\n" ++ r.bytes))))
  whole_line = f.bytes ∙ rw l.line (simp append_assoc refl)

  key_part : IsPart i key
  key_part = record {
    before = [];
    after = codes ":" ++ (l.spaces ++ (val.bytes ++ (codes "\r\n" ++ r.bytes)));
    splits = whole_line;
    at = omega (arith, l.key_at);
  }

  val_part : IsPart i val
  val_part = record {
    before = key.bytes ++ (codes ":" ++ l.spaces);
    after = codes "\r\n" ++ r.bytes;
    splits = whole_line ∙ simp append_assoc refl;
    at = omega (arith, l.val_at, length-append {0} key.bytes (codes ":" ++ l.spaces));
  }

-- A header line that is parsed as one is a key, a colon, spaces, a value and an end of line, and
-- the HTTP/1 converter writes it back with the same key and value and with a single space between
-- them, when the input is a part of a buffer smaller than 4 GiB.
pub header_rewritten :
    (nom : Nom) (laws : ReadsFront nom) (buf i r key val : Span)
    → IsPlaced buf
    → length buf.bytes < max32
    → IsPart buf i
    → 16 ≤ i.addr
    → parse_header_or_cookie nom i ≡ ok r (some (key, val))
    → (spaces : Bytes) × All (λ c. nom.is_space c ≡ true) spaces
      × (i.bytes ≡ key.bytes ++ (codes ":" ++ (spaces ++ (val.bytes ++ (codes "\r\n" ++ r.bytes)))))
      × (stream buf.bytes (
            map OutBlock.store
              (header_stores (record { key = new_slice buf key; val = new_slice buf val })))
          ≡ key.bytes ++ (codes ": " ++ (val.bytes ++ codes "\r\n")))
unfolding Reads
header_rewritten nom laws buf i r key val placed small p page e =
    let (w, f, l) : Reads (IsField nom.is_space) i (ok r (some (key, val))) =
      subst (Reads (IsField nom.is_space) i) e (
        parse_header_or_cookie-Reads nom laws i
          (record { placed = IsPart-placed p placed; page = page })) in
    (
      l.0.spaces,
      l.0.blank,
      whole_line f l.0,
      stream-header_stores buf key val placed small (IsPart-trans p (key_part f l.0))
          (IsPart-trans p (val_part f l.0)),
    )

-- What the HTTP/1 converter writes for a header is parsed to a header with the same key and value,
-- whatever follows: the key and the value are parts of a buffer smaller than 4 GiB and pass their
-- lookups, the key is not `cookie`, the value starts with no space, and the text lies in memory
-- behind the first 16 bytes. The parsers of nom are to accept what they say.
pub header_round_trip :
    (nom : Nom) (laws : AcceptsText nom) (buf key val : Span) (rest : Bytes) (addr : ℕ)
    → IsPlaced buf
    → length buf.bytes < max32
    → IsPart buf key
    → IsPart buf val
    → IsText tchar_rules key.bytes
    → IsText achar_rules val.bytes
    → compare_no_case key.bytes (codes "cookie") ≡ false
    → nom.is_space (first val.bytes) ≡ false
    → IsInput (at addr (line key.bytes val.bytes rest))
    → parse_header_or_cookie nom (
        at addr (
          stream buf.bytes (
            map OutBlock.store
              (header_stores (record { key = new_slice buf key; val = new_slice buf val })))
          ++ rest))
      ≡ ok
          (at (addr + length key.bytes + 1 + 1 + length val.bytes + 2) rest)
          (some (at addr key.bytes, at (addr + length key.bytes + 1 + 1) val.bytes))
header_round_trip nom laws buf key val rest addr placed small k v kt vt c f h =
    ap (λ z. parse_header_or_cookie nom (at addr z))
      (ap (λ z. z ++ rest) (stream-header_stores buf key val placed small k v)
        ∙ simp append_assoc refl)
    ∙ field_accepted nom laws key.bytes val.bytes rest addr kt vt h c f
