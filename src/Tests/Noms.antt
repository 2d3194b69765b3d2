-- ===== src/Tests/Noms.antt =====
-- The parsers of nom as functions, so that the parser can be run, and how many bytes they take.
use kawa.Prelude.{
  parse_uint, max_usize, ℕ, suc, ◌+◌, ◌-◌, ◌≤◌, ◌≡◌, refl, ap, inl, inr, Bool, true, false, ◌&&◌,
  ◌||◌, Option, none, some, [], ◌∷◌, arith, leb, ◌==◌, if◌then◌else◌, leb→le, Bool-cases, Bytes,
  length, take, length-take, length-drop,
}
use kawa.Storage.Span.{Span, from, upto}
use kawa.Protocol.Nom.{Nom, IResult, ok, incomplete, error, failure}
use kawa.Protocol.Nom.Laws.{Takes, TakesBytes}

-- A version of the parsers of nom, to run the program with.
abbrev pub eq_bytes : Bytes → Bytes → Bool
eq_bytes [] [] = true
eq_bytes (x ∷ xs) (y ∷ ys) = (x == y) && eq_bytes xs ys
eq_bytes _ _ = false

abbrev pub tag_with : IResult Span → Bytes → Span → IResult Span
tag_with short t i =
    if eq_bytes (take (length t) i.bytes) t
    then ok (from i (length t)) (upto i (length t))
    else if eq_bytes i.bytes (take (length i.bytes) t)
    then short
    else error i

abbrev pub count : (ℕ → Bool) → Bytes → ℕ
count p [] = 0
count p (x ∷ xs) = if p x then suc (count p xs) else 0

abbrev pub while_with : IResult Span → (ℕ → Bool) → Span → IResult Span
while_with all p i =
    let n = count p i.bytes in if n == length i.bytes then all else ok (from i n) (upto i n)

abbrev pub first_byte : IResult ℕ → (ℕ → Bool) → Span → Bytes → IResult ℕ
first_byte none_left p i [] = none_left
first_byte none_left p i (c ∷ rest) = if p c then ok (from i 1) c else error i

abbrev char_with : IResult ℕ → (ℕ → Bool) → Span → IResult ℕ
char_with none_left p i = first_byte none_left p i i.bytes

abbrev pub is_in : Bytes → ℕ → Bool
is_in [] c = false
is_in (x ∷ xs) c = (x == c) || is_in xs c

abbrev pub is_hex : ℕ → Bool
is_hex c = leb 48 c && leb c 57 || leb 65 c && leb c 70 || leb 97 c && leb c 102

abbrev pub opt_of : (A : Type 0) → Span → IResult A → IResult (Option A)
opt_of A i (ok rest a) = ok rest (some a)
opt_of A i incomplete = incomplete
opt_of A i (error at) = ok i none
opt_of A i (failure at) = failure at

abbrev pub second_of : (A B : Type 0) → A → IResult B → IResult (A × B)
second_of A B a (ok rest b) = ok rest (a, b)
second_of A B a incomplete = incomplete
second_of A B a (error at) = error at
second_of A B a (failure at) = failure at

abbrev pub first_of : (A B : Type 0) → IResult A → (Span → IResult B) → IResult (A × B)
first_of A B (ok rest a) q = second_of A B a (q rest)
first_of A B incomplete q = incomplete
first_of A B (error at) q = error at
first_of A B (failure at) q = failure at

abbrev pub parsers : Nom
parsers = record {
  tag = tag_with incomplete;
  take = λ n i. if leb n (length i.bytes) then ok (from i n) (upto i n) else incomplete;
  take_while = while_with incomplete;
  tag_complete = λ t i. tag_with (error i) t i;
  take_while_complete = λ p i. while_with (ok (from i (length i.bytes)) i) p i;
  char = λ c. char_with incomplete (λ x. x == c);
  char_complete = λ c i. char_with (error i) (λ x. x == c) i;
  one_of = λ set. char_with incomplete (is_in set);
  hex_digit1 = λ i. if count is_hex i.bytes == 0 then error i else while_with incomplete is_hex i;
  is_space = λ c. (c == 32) || (c == 9);
  opt = λ A p i. opt_of A i (p i);
  tuple = λ A B p q i. first_of A B (p i) q;
  offset = λ s t. t.addr - s.addr;
  parse_to = parse_uint 10 max_usize;
}

pub eq_bytes-length : (xs ys : Bytes) → eq_bytes xs ys ≡ true → length xs ≡ length ys
eq_bytes-length [] [] h = refl
eq_bytes-length [] (y ∷ ys) h = cc
eq_bytes-length (x ∷ xs) [] h = cc
eq_bytes-length (x ∷ xs) (y ∷ ys) h = elim (Bool-cases (x == y)) [
  | inl e ↦ ap suc (eq_bytes-length xs ys (rw e at h))
  | inr e ↦ absurd (cc (rw e at h))
]

tag_law : (t : Bytes) (i : Span) → Takes (length t) i (tag_with incomplete t i)
tag_law t i = elim (Bool-cases (eq_bytes (take (length t) i.bytes) t)) [
  | inl e ↦ rw e (
      omega (
        arith,
        length-drop {0} (length t) i.bytes,
        length-take {0} (length t) i.bytes,
        eq_bytes-length (take (length t) i.bytes) t e,
      ))
  | inr e ↦ rw e (elim (Bool-cases (eq_bytes i.bytes (take (length i.bytes) t))) [
    | inl f ↦ rw f tt
    | inr f ↦ rw f tt
  ])
]

while_law : (p : ℕ → Bool) (i : Span) → Takes 0 i (while_with incomplete p i)
while_law p i = elim (Bool-cases (count p i.bytes == length i.bytes)) [
  | inl e ↦ rw e tt
  | inr e ↦ rw e (omega (arith, length-drop {0} (count p i.bytes) i.bytes))
]

first_byte_law :
    (p : ℕ → Bool) (i : Span) (bytes : Bytes)
    → length bytes ≡ length i.bytes
    → Takes 1 i (first_byte incomplete p i bytes)
first_byte_law p i [] h = tt
first_byte_law p i (c ∷ rest) h = elim (Bool-cases (p c)) [
  | inl e ↦ rw e (omega (arith, length-drop {0} 1 i.bytes, h))
  | inr e ↦ rw e tt
]

take_law :
    (n : ℕ) (i : Span)
    → Takes n i (if leb n (length i.bytes) then ok (from i n) (upto i n) else incomplete)
take_law n i = elim (Bool-cases (leb n (length i.bytes))) [
  | inl e ↦ rw e (omega (arith, length-drop {0} n i.bytes, leb→le n (length i.bytes) e))
  | inr e ↦ rw e tt
]

pub count-le : (p : ℕ → Bool) (xs : Bytes) → count p xs ≤ length xs
count-le p [] = omega arith
count-le p (x ∷ xs) = ground (arith, count-le p xs)

hex_law : (i : Span) → Takes 1 i (parsers.hex_digit1 i)
hex_law i = elim (Bool-cases (count is_hex i.bytes == 0)) [
  | inl e ↦ rw e tt
  | inr e ↦ rw e (elim (Bool-cases (count is_hex i.bytes == length i.bytes)) [
    | inl f ↦ rw f tt
    | inr f ↦
        rw f
          (ground (arith, length-drop {0} (count is_hex i.bytes) i.bytes, count-le is_hex i.bytes))
  ])
]

opt_law : (A : Type 0) (i : Span) (x : IResult A) → Takes 0 i x → Takes 0 i (opt_of A i x)
opt_law A i (ok r a) h = h
opt_law A i incomplete h = tt
opt_law A i (error at) h = omega arith
opt_law A i (failure at) h = tt

second_law :
    (A B : Type 0) (n m : ℕ) (i r : Span) (a : A) (y : IResult B)
    → length r.bytes + n ≤ length i.bytes
    → Takes m r y
    → Takes (n + m) i (second_of A B a y)
second_law A B n m i r a (ok s b) h t = omega arith
second_law A B n m i r a incomplete h t = tt
second_law A B n m i r a (error at) h t = tt
second_law A B n m i r a (failure at) h t = tt

tuple_law :
    (A B : Type 0) (n m : ℕ) (i : Span) (x : IResult A) (q : Span → IResult B)
    → Takes n i x
    → ((i : Span) → Takes m i (q i))
    → Takes (n + m) i (first_of A B x q)
tuple_law A B n m i (ok r a) q h g = second_law A B n m i r a (q r) h (g r)
tuple_law A B n m i incomplete q h g = tt
tuple_law A B n m i (error at) q h g = tt
tuple_law A B n m i (failure at) q h g = tt

pub parsers-TakesBytes : TakesBytes parsers
parsers-TakesBytes = record {
  tag = tag_law;
  take = take_law;
  take_while = while_law;
  char = λ c i. first_byte_law (λ x. x == c) i i.bytes refl;
  one_of = λ cs i. first_byte_law (is_in cs) i i.bytes refl;
  hex_digit1 = hex_law;
  opt = λ A p h i. opt_law A i (p i) (h i);
  tuple = λ A B p q n m h g i. tuple_law A B n m i (p i) q (h i) g;
}
