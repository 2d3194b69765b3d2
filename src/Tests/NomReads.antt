-- ===== src/Tests/NomReads.antt =====
-- The parsers of nom as functions read the bytes that they say off the front of their input.
use kawa.Prelude.{
  ℕ, ◌≤◌, ◌<◌, ◌≡◌, refl, sym, ap, ap₂, ◌∙◌, subst, inl, inr, Bool, true, false, [], ◌∷◌, ◌++◌,
  arith, leb, ◌==◌, if◌then◌else◌, leb→le, ==_iff, Bool-cases, Bytes, length, take, drop, All,
  length-append, length-take, take-append-drop, take_prefix, drop_prefix,
}
use kawa.Storage.Span.{Span, from, upto}
use kawa.Protocol.Nom.{IResult, ok, incomplete, error, failure}
use kawa.Protocol.Nom.Reads.{
  IsFront, IsFront-trans, IsFront-nil, Reads, IsRead, IsOneOf, is_hex_digit, Opts, Both, ReadsFront,
  Reads-map,
}
use kawa.Protocol.Nom.Accepts.{AcceptsText, at, took}
use kawa.Tests.Noms.{
  eq_bytes, tag_with, count, while_with, first_byte, opt_of, second_of, first_of, is_hex, is_in,
  parsers, count-le,
}

eq_bytes-eq : (xs ys : Bytes) → eq_bytes xs ys ≡ true → xs ≡ ys
eq_bytes-eq [] [] h = refl
eq_bytes-eq [] (y ∷ ys) h = cc
eq_bytes-eq (x ∷ xs) [] h = cc
eq_bytes-eq (x ∷ xs) (y ∷ ys) h = elim (Bool-cases (x == y)) [
  | inl e ↦ ap₂ (λ a b. a ∷ b) ((==_iff x y).0 e) (eq_bytes-eq xs ys (rw e at h))
  | inr e ↦ absurd (cc (rw e at h))
]

front : (i : Span) (n : ℕ) → n ≤ length i.bytes → IsFront i (take n i.bytes) (from i n)
front i n h = record {
  bytes = sym (take-append-drop n i.bytes);
  addr = omega (arith, length-take {0} n i.bytes);
}

shown : (i : Span) (n : ℕ) → IsRead i.addr (take n i.bytes) (upto i n)
shown i n = record { start = refl; shown = refl }

tag_front :
    (t : Bytes) (i : Span) → Reads (λ at w v. IsRead at w v × (w ≡ t)) i (tag_with incomplete t i)
unfolding Reads
tag_front t i = elim (Bool-cases (eq_bytes (take (length t) i.bytes) t)) [
  | inl e ↦
      let same : take (length t) i.bytes ≡ t = eq_bytes-eq (take (length t) i.bytes) t e in
      let fits : length t ≤ length i.bytes =
        omega (arith, length-take {0} (length t) i.bytes, ap length same) in
      rw e (take (length t) i.bytes, front i (length t) fits, (shown i (length t), same))
  | inr e ↦ rw e (elim (Bool-cases (eq_bytes i.bytes (take (length i.bytes) t))) [
    | inl f ↦ rw f tt
    | inr f ↦ rw f tt
  ])
]

take_front :
    (n : ℕ) (i : Span)
    → Reads
        (λ at w v. IsRead at w v × (length w ≡ n))
        i
        (if leb n (length i.bytes) then ok (from i n) (upto i n) else incomplete)
unfolding Reads
take_front n i = elim (Bool-cases (leb n (length i.bytes))) [
  | inl e ↦
      let fits : n ≤ length i.bytes = leb→le n (length i.bytes) e in
      rw e (
        take n i.bytes,
        front i n fits,
        (shown i n, omega (arith, fits, length-take {0} n i.bytes)),
      )
  | inr e ↦ rw e tt
]

count-All : (p : ℕ → Bool) (xs : Bytes) → All (λ c. p c ≡ true) (take (count p xs) xs)
count-All p [] = tt
count-All p (x ∷ xs) = elim (Bool-cases (p x)) [
  | inl e ↦ rw e (e, count-All p xs)
  | inr e ↦ rw e tt
]

while_front :
    (p : ℕ → Bool) (i : Span)
    → Reads
        (λ at w v. IsRead at w v × All (λ c. p c ≡ true) w × (length w ≡ count p i.bytes))
        i
        (while_with incomplete p i)
unfolding Reads
while_front p i = elim (Bool-cases (count p i.bytes == length i.bytes)) [
  | inl e ↦ rw e tt
  | inr e ↦ rw e (
    take (count p i.bytes) i.bytes,
    front i (count p i.bytes) (count-le p i.bytes),
    (
      shown i (count p i.bytes),
      count-All p i.bytes,
      omega (arith, count-le p i.bytes, length-take {0} (count p i.bytes) i.bytes),
    ),
  )
]

byte_front :
    (p : ℕ → Bool) (i : Span) (bytes : Bytes)
    → i.bytes ≡ bytes
    → Reads (λ at w v. (w ≡ v ∷ []) × (p v ≡ true)) i (first_byte incomplete p i bytes)
unfolding Reads
byte_front p i [] h = tt
byte_front p i (c ∷ rest) h = elim (Bool-cases (p c)) [
  | inl e ↦
      rw e (
        c ∷ [],
        record { bytes = h ∙ ap (λ z. c ∷ z) (ap (drop 1) (sym h)); addr = refl },
        (refl, e),
      )
  | inr e ↦ rw e tt
]

is_in-IsOneOf : (cs : Bytes) (c : ℕ) → is_in cs c ≡ true → IsOneOf c cs
is_in-IsOneOf [] c h = cc
is_in-IsOneOf (x ∷ cs) c h = elim (Bool-cases (x == c)) [
  | inl e ↦ inl (sym ((==_iff x c).0 e))
  | inr e ↦ inr (is_in-IsOneOf cs c (rw e at h))
]

hex_some :
    (i : Span)
    → 0 < count is_hex i.bytes
    → Reads
        (λ at w v. IsRead at w v × All (λ c. is_hex_digit c ≡ true) w × (0 < length w))
        i
        (while_with incomplete is_hex i)
hex_some i p = Reads-map _ _ i _ (λ w v h. (h.0, h.1, omega (arith, p, h.2))) (while_front is_hex i)

hex_front :
    (i : Span)
    → Reads
        (λ at w v. IsRead at w v × All (λ c. is_hex_digit c ≡ true) w × (0 < length w))
        i
        (parsers.hex_digit1 i)
unfolding Reads
hex_front i = elim (Bool-cases (count is_hex i.bytes == 0)) [
  | inl e ↦ rw e tt
  | inr e ↦ let p : 0 < count is_hex i.bytes = ground arith in rw e (hex_some i p)
]

opt_front :
    (A : Type 0) (P : ℕ → Bytes → A → Type 0) (i : Span) (x : IResult A)
    → Reads P i x
    → Reads (Opts P) i (opt_of A i x)
unfolding Reads
opt_front A P i (ok r a) h = h
opt_front A P i incomplete h = tt
opt_front A P i (error at) h = ([], IsFront-nil i, refl)
opt_front A P i (failure at) h = tt

second_front :
    (A B : Type 0) (P : ℕ → Bytes → A → Type 0) (Q : ℕ → Bytes → B → Type 0) (i r : Span)
    (w : Bytes) (a : A) (y : IResult B)
    → IsFront i w r
    → P i.addr w a
    → Reads Q r y
    → Reads (Both P Q) i (second_of A B a y)
unfolding Reads
second_front A B P Q i r w a (ok s b) f p (x, g, q) =
    (w ++ x, IsFront-trans f g, (w, x, refl, p, subst (λ at. Q at x b) f.addr q))
second_front A B P Q i r w a incomplete f p q = tt
second_front A B P Q i r w a (error at) f p q = tt
second_front A B P Q i r w a (failure at) f p q = tt

tuple_front :
    (A B : Type 0) (P : ℕ → Bytes → A → Type 0) (Q : ℕ → Bytes → B → Type 0) (i : Span)
    (x : IResult A) (q : Span → IResult B)
    → Reads P i x
    → ((w : Bytes) (r : Span) → IsFront i w r → Reads Q r (q r))
    → Reads (Both P Q) i (first_of A B x q)
unfolding Reads
tuple_front A B P Q i (ok r a) q (w, f, p) g = second_front A B P Q i r w a (q r) f p (g w r f)
tuple_front A B P Q i incomplete q h g = tt
tuple_front A B P Q i (error at) q h g = tt
tuple_front A B P Q i (failure at) q h g = tt

pub parsers-ReadsFront : ReadsFront parsers
parsers-ReadsFront = record {
  tag = tag_front;
  take = take_front;
  take_while = λ p i. Reads-map _ _ i _ (λ w v h. (h.0, h.1)) (while_front p i);
  char = λ c i.
      Reads-map _ _ i _ (λ w v h. (h.0, (==_iff v c).0 h.1))
        (byte_front (λ x. x == c) i i.bytes refl);
  one_of = λ cs i.
      Reads-map _ _ i _ (λ w v h. (h.0, is_in-IsOneOf cs v h.1))
        (byte_front (is_in cs) i i.bytes refl);
  hex_digit1 = hex_front;
  opt = λ A P p i h. opt_front A P i (p i) h;
  tuple = λ A B P Q p q i h g. tuple_front A B P Q i (p i) q h g;
}

eq_bytes_refl : (t : Bytes) → eq_bytes t t ≡ true
eq_bytes_refl [] = refl
eq_bytes_refl (x ∷ xs) =
    let e : (x == x) ≡ true = (==_iff x x).1 refl in rw (e, eq_bytes_refl xs) refl

tag_accepts :
    (t rest : Bytes) (addr : ℕ) → tag_with incomplete t (at addr (t ++ rest)) ≡ took addr t rest
tag_accepts t rest addr =
    rw (take_prefix (length t) t rest refl, eq_bytes_refl t, drop_prefix (length t) t rest refl)
      refl

count_lem :
    (p : ℕ → Bool) (w : Bytes) (c : ℕ) (rest : Bytes)
    → All (λ c. p c ≡ true) w
    → p c ≡ false
    → count p (w ++ (c ∷ rest)) ≡ length w
count_lem p [] c rest t e = rw e refl
count_lem p (x ∷ w) c rest t e = rw (t.0, count_lem p w c rest t.1 e) refl

while_accepts :
    (p : ℕ → Bool) (w : Bytes) (c : ℕ) (rest : Bytes) (addr : ℕ)
    → All (λ c. p c ≡ true) w
    → p c ≡ false
    → while_with incomplete p (at addr (w ++ (c ∷ rest))) ≡ took addr w (c ∷ rest)
while_accepts p w c rest addr t e =
    let longer : (length w == length (w ++ (c ∷ rest))) ≡ false =
      ground (arith, length-append {0} w (c ∷ rest)) in
    rw
      (
        count_lem p w c rest t e,
        longer,
        take_prefix (length w) w (c ∷ rest) refl,
        drop_prefix (length w) w (c ∷ rest) refl,
      )
      refl

pub parsers-AcceptsText : AcceptsText parsers
parsers-AcceptsText = record { tag = tag_accepts; take_while = while_accepts; space = refl }
