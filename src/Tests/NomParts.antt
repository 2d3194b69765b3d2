-- ===== src/Tests/NomParts.antt =====
-- The parsers of nom as functions return parts of their input.
use kawa.Prelude.{
  ℕ, ◌≤◌, ◌≡◌, refl, inl, inr, Bool, [], ◌∷◌, arith, leb, ◌==◌, if◌then◌else◌, leb→le, Bool-cases,
  Bytes, length, take, length-take,
}
use kawa.Storage.Span.{Span, from, upto}
use kawa.Protocol.Nom.{IResult, ok, incomplete, error, failure}
use kawa.Storage.Span.{IsPart, IsPart-refl}
use kawa.Protocol.Nom.Parts.{TakesParts, Yields, Whole, IfSome}
use kawa.Protocol.Primitives.Parts.{cut_parts}
use kawa.Tests.Noms.{
  eq_bytes, tag_with, count, while_with, first_byte, opt_of, second_of, first_of, is_hex, is_in,
  parsers, eq_bytes-length, count-le,
}

tag_part : (t : Bytes) (i : Span) → Yields (IsPart i) i (tag_with incomplete t i)
tag_part t i = elim (Bool-cases (eq_bytes (take (length t) i.bytes) t)) [
  | inl e ↦
      let fits : length t ≤ length i.bytes = omega (
        arith,
        length-take {0} (length t) i.bytes,
        eq_bytes-length (take (length t) i.bytes) t e,
      ) in
      rw e (cut_parts i (length t) fits)
  | inr e ↦ rw e (elim (Bool-cases (eq_bytes i.bytes (take (length i.bytes) t))) [
    | inl f ↦ rw f tt
    | inr f ↦ rw f tt
  ])
]

take_part :
    (n : ℕ) (i : Span)
    → Yields (IsPart i) i (if leb n (length i.bytes) then ok (from i n) (upto i n) else incomplete)
take_part n i = elim (Bool-cases (leb n (length i.bytes))) [
  | inl e ↦ rw e (cut_parts i n (leb→le n (length i.bytes) e))
  | inr e ↦ rw e tt
]

while_part : (p : ℕ → Bool) (i : Span) → Yields (IsPart i) i (while_with incomplete p i)
while_part p i = elim (Bool-cases (count p i.bytes == length i.bytes)) [
  | inl e ↦ rw e tt
  | inr e ↦ rw e (cut_parts i (count p i.bytes) (count-le p i.bytes))
]

first_byte_part :
    (p : ℕ → Bool) (i : Span) (bytes : Bytes)
    → length bytes ≡ length i.bytes
    → Yields Whole i (first_byte incomplete p i bytes)
first_byte_part p i [] h = tt
first_byte_part p i (c ∷ rest) h = elim (Bool-cases (p c)) [
  | inl e ↦ rw e ((cut_parts i 1 (omega (arith, h))).0, tt)
  | inr e ↦ rw e tt
]

hex_part : (i : Span) → Yields (IsPart i) i (parsers.hex_digit1 i)
hex_part i = elim (Bool-cases (count is_hex i.bytes == 0)) [
  | inl e ↦ rw e tt
  | inr e ↦ rw e (while_part is_hex i)
]

opt_part :
    (A : Type 0) (P : A → Type 0) (i : Span) (x : IResult A)
    → Yields P i x
    → Yields (IfSome P) i (opt_of A i x)
opt_part A P i (ok r a) h = h
opt_part A P i incomplete h = tt
opt_part A P i (error at) h = (IsPart-refl i, tt)
opt_part A P i (failure at) h = tt

second_part :
    (A B : Type 0) (P : A → Type 0) (Q : B → Type 0) (i : Span) (a : A) (y : IResult B)
    → P a
    → Yields Q i y
    → Yields (λ v. P v.0 × Q v.1) i (second_of A B a y)
second_part A B P Q i a (ok s b) h t = (t.0, (h, t.1))
second_part A B P Q i a incomplete h t = tt
second_part A B P Q i a (error at) h t = tt
second_part A B P Q i a (failure at) h t = tt

tuple_part :
    (A B : Type 0) (P : A → Type 0) (Q : B → Type 0) (i : Span) (x : IResult A)
    (q : Span → IResult B)
    → Yields P i x
    → ((r : Span) → IsPart i r → Yields Q i (q r))
    → Yields (λ v. P v.0 × Q v.1) i (first_of A B x q)
tuple_part A B P Q i (ok r a) q h g = second_part A B P Q i a (q r) h.1 (g r h.0)
tuple_part A B P Q i incomplete q h g = tt
tuple_part A B P Q i (error at) q h g = tt
tuple_part A B P Q i (failure at) q h g = tt

pub parsers-TakesParts : TakesParts parsers
parsers-TakesParts = record {
  tag = tag_part;
  take = take_part;
  take_while = while_part;
  char = λ c i. first_byte_part (λ x. x == c) i i.bytes refl;
  one_of = λ cs i. first_byte_part (is_in cs) i i.bytes refl;
  hex_digit1 = hex_part;
  opt = λ A P p i h. opt_part A P i (p i) h;
  tuple = λ A B P Q p q i h g. tuple_part A B P Q i (p i) q h g;
  offset = λ s t p. refl;
}
