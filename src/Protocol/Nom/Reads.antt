-- ===== src/Protocol/Nom/Reads.antt =====
-- What the parsers rely on of nom, exactly: which bytes a parser reads off the front of its input,
-- and where what it returns stands.
use kawa.Prelude.{
  ℕ, ◌+◌, ◌<◌, ◌≡◌, refl, sym, ap, ◌∙◌, ◌⊎◌, Bool, true, ◌&&◌, ◌||◌, Option, none, some, [], ◌∷◌,
  ◌++◌, append_assoc, arith, leb, Bytes, length, All, length-append,
}
use kawa.Storage.Span.{Span, IsPlaced}
use kawa.Protocol.Nom.{Nom, IResult, ok, incomplete, error, failure, ◌>>=◌}

-- The bytes `w` are read off the front of `i`, and `r` is left.
pub record IsFront (i : Span) (w : Bytes) (r : Span) : Type 0 where
  pub bytes : i.bytes ≡ w ++ r.bytes
  pub addr : r.addr ≡ i.addr + length w

-- A result leaves what is behind some bytes `w` of `i`, and its value has the property `P` of the
-- address of `i` and of `w`.
unfoldable pub Reads : {A : Type 0} → (ℕ → Bytes → A → Type 0) → Span → IResult A → Type 0
Reads P i (ok r a) = (w : Bytes) × IsFront i w r × P i.addr w a
Reads P i incomplete = Unit
Reads P i (error at) = Unit
Reads P i (failure at) = Unit

-- The span of the bytes that are read.
pub record IsRead (at : ℕ) (w : Bytes) (v : Span) : Type 0 where
  pub start : v.addr ≡ at
  pub shown : v.bytes ≡ w

abbrev pub IsOneOf : ℕ → Bytes → Type 0
IsOneOf c [] = ⊥
IsOneOf c (x ∷ xs) = (c ≡ x) ⊎ IsOneOf c xs

abbrev pub is_hex_digit : ℕ → Bool
is_hex_digit c = leb b'0' c && leb c b'9' || leb b'A' c && leb c b'F' || leb b'a' c && leb c b'f'

abbrev pub Opts : {A : Type 0} → (ℕ → Bytes → A → Type 0) → ℕ → Bytes → Option A → Type 0
Opts P at w none = w ≡ []
Opts P at w (some a) = P at w a

-- Two properties, of bytes one behind the other.
abbrev pub Both :
    {A B : Type 0}
    → (ℕ → Bytes → A → Type 0)
    → (ℕ → Bytes → B → Type 0)
    → ℕ
    → Bytes
    → A × B
    → Type 0
Both P Q at w v = (x y : Bytes) × (w ≡ x ++ y) × P at x v.0 × Q (at + length x) y v.1

pub record ReadsFront (nom : Nom) : Type 1 where
  pub tag : (t : Bytes) (i : Span) → Reads (λ at w v. IsRead at w v × (w ≡ t)) i (nom.tag t i)
  pub take : (n : ℕ) (i : Span) → Reads (λ at w v. IsRead at w v × (length w ≡ n)) i (nom.take n i)
  pub take_while :
      (p : ℕ → Bool) (i : Span)
      → Reads (λ at w v. IsRead at w v × All (λ c. p c ≡ true) w) i (nom.take_while p i)
  pub char : (c : ℕ) (i : Span) → Reads (λ at w v. (w ≡ v ∷ []) × (v ≡ c)) i (nom.char c i)
  pub one_of :
      (cs : Bytes) (i : Span) → Reads (λ at w v. (w ≡ v ∷ []) × IsOneOf v cs) i (nom.one_of cs i)
  pub hex_digit1 :
      (i : Span)
      → Reads
          (λ at w v. IsRead at w v × All (λ c. is_hex_digit c ≡ true) w × (0 < length w))
          i
          (nom.hex_digit1 i)
  pub opt :
      (A : Type 0) (P : ℕ → Bytes → A → Type 0) (p : Span → IResult A) (i : Span)
      → Reads P i (p i)
      → Reads (Opts P) i (nom.opt A p i)
  pub tuple :
      (A B : Type 0) (P : ℕ → Bytes → A → Type 0) (Q : ℕ → Bytes → B → Type 0)
      (p : Span → IResult A) (q : Span → IResult B) (i : Span)
      → Reads P i (p i)
      → ((w : Bytes) (r : Span) → IsFront i w r → Reads Q r (q r))
      → Reads (Both P Q) i (nom.tuple A B p q i)

pub IsFront-nil : (i : Span) → IsFront i [] i
IsFront-nil i = record { bytes = refl; addr = omega arith }

pub IsFront-trans :
    {i r s : Span} {w x : Bytes} → IsFront i w r → IsFront r x s → IsFront i (w ++ x) s
IsFront-trans {i} {r} {s} {w} {x} f g = record {
  bytes = f.bytes ∙ ap (λ z. w ++ z) g.bytes ∙ sym (append_assoc w x s.bytes);
  addr = omega (arith, f.addr, g.addr, length-append {0} w x);
}

-- A parser, and then another one on what it leaves: their bytes stand one behind the other.
pub Reads-bind :
    {A B : Type 0} (P : ℕ → Bytes → A → Type 0) (Q : ℕ → Bytes → B → Type 0) (i : Span)
    (x : IResult A) (f : Span × A → IResult B)
    → Reads P i x
    → ((r : Span) (w : Bytes) (a : A)
        → IsFront i w r
        → P i.addr w a
        → Reads (λ at y b. Q i.addr (w ++ y) b) r (f (r, a)))
    → Reads Q i (x >>= f)
unfolding Reads
Reads-bind {B = B} P Q i (ok r a) f (w, fr, p) h = behind (f (r, a)) (h r w a fr p)
  where
    behind : (z : IResult B) → Reads (λ at y b. Q i.addr (w ++ y) b) r z → Reads Q i z
    behind (ok s b) (y, fs, q) = (w ++ y, IsFront-trans fr fs, q)
    behind incomplete q = tt
    behind (error at) q = tt
    behind (failure at) q = tt
Reads-bind P Q i incomplete f y h = tt
Reads-bind P Q i (error at) f y h = tt
Reads-bind P Q i (failure at) f y h = tt

-- A value that takes no more bytes.
pub Reads-ok :
    {A : Type 0} (P : ℕ → Bytes → A → Type 0) (i : Span) (a : A)
    → P i.addr [] a
    → Reads P i (ok i a)
unfolding Reads
Reads-ok P i a p = ([], IsFront-nil i, p)

pub Reads-map :
    {A : Type 0} (P Q : ℕ → Bytes → A → Type 0) (i : Span) (x : IResult A)
    → ((w : Bytes) (a : A) → P i.addr w a → Q i.addr w a)
    → Reads P i x
    → Reads Q i x
unfolding Reads
Reads-map P Q i (ok r a) h (w, f, p) = (w, f, h w a p)
Reads-map P Q i incomplete h p = tt
Reads-map P Q i (error at) h p = tt
Reads-map P Q i (failure at) h p = tt

-- What is left lies in memory as the input does.
pub IsFront-placed : {i r : Span} {w : Bytes} → IsFront i w r → IsPlaced i → IsPlaced r
IsFront-placed {i} {r} {w} f p = record {
  fits = omega (arith, p.fits, f.addr, lengths);
  small = omega (arith, p.small, lengths);
}
  where
    lengths : length i.bytes ≡ length w + length r.bytes
    lengths = ap length f.bytes ∙ length-append w r.bytes

-- A value that a conversion gives, or an error.
pub Reads-some :
    {A B : Type 0} (P : ℕ → Bytes → B → Type 0) (i : Span) (f : A → B) (o : Option A)
    → ((a : A) → o ≡ some a → P i.addr [] (f a))
    → Reads P i (elim o [ some a ↦ ok i (f a) | none ↦ error i ])
unfolding Reads
Reads-some P i f (some a) h = Reads-ok P i (f a) (h a refl)
Reads-some P i f none h = tt
