-- ===== src/Protocol/Nom/Parts.antt =====
-- What the parsers rely on of nom: what a parser returns are parts of its input, never copies.
use kawa.Prelude.{ℕ, ◌-◌, ◌≡◌, Bool, Option, none, some, arith, Bytes}
use kawa.Storage.Span.{Span, IsPart, IsPart-trans, IsPlaced, IsPart-bounds}
use kawa.Protocol.Nom.{Nom, IResult, ok, incomplete, error, failure, ◌>>=◌}

-- A result leaves a part of `u`, and its value has the property `P`.
abbrev pub Yields : {A : Type 0} → (A → Type 0) → Span → IResult A → Type 0
Yields P u (ok r a) = IsPart u r × P a
Yields P u incomplete = Unit
Yields P u (error at) = Unit
Yields P u (failure at) = Unit

abbrev pub Whole : {A : Type 0} → A → Type 0
Whole a = Unit

abbrev pub IfSome : {A : Type 0} → (A → Type 0) → Option A → Type 0
IfSome P none = Unit
IfSome P (some a) = P a

pub record TakesParts (nom : Nom) : Type 1 where
  pub tag : (t : Bytes) (i : Span) → Yields (IsPart i) i (nom.tag t i)
  pub take : (n : ℕ) (i : Span) → Yields (IsPart i) i (nom.take n i)
  pub take_while : (p : ℕ → Bool) (i : Span) → Yields (IsPart i) i (nom.take_while p i)
  pub char : (c : ℕ) (i : Span) → Yields Whole i (nom.char c i)
  pub one_of : (cs : Bytes) (i : Span) → Yields Whole i (nom.one_of cs i)
  pub hex_digit1 : (i : Span) → Yields (IsPart i) i (nom.hex_digit1 i)
  pub opt :
      (A : Type 0) (P : A → Type 0) (p : Span → IResult A) (i : Span)
      → Yields P i (p i)
      → Yields (IfSome P) i (nom.opt A p i)
  pub tuple :
      (A B : Type 0) (P : A → Type 0) (Q : B → Type 0) (p : Span → IResult A) (q : Span → IResult B)
      (i : Span)
      → Yields P i (p i)
      → ((r : Span) → IsPart i r → Yields Q i (q r))
      → Yields (λ v. P v.0 × Q v.1) i (nom.tuple A B p q i)
  -- `Offset` on a part is how far it starts behind the start.
  pub offset : (s t : Span) → IsPart s t → nom.offset s t ≡ t.addr - s.addr

pub Yields-bind :
    {A B : Type 0} (P : A → Type 0) (Q : B → Type 0) (u : Span) (x : IResult A)
    (f : Span × A → IResult B)
    → Yields P u x
    → ((r : Span) (a : A) → IsPart u r → P a → Yields Q u (f (r, a)))
    → Yields Q u (x >>= f)
Yields-bind P Q u (ok r a) f y h = h r a y.0 y.1
Yields-bind P Q u incomplete f y h = tt
Yields-bind P Q u (error at) f y h = tt
Yields-bind P Q u (failure at) f y h = tt

-- A part of a part.
pub Yields-under :
    {u i : Span} (x : IResult Span) → IsPart u i → Yields (IsPart i) i x → Yields (IsPart u) u x
Yields-under (ok r v) p y = (IsPart-trans p y.0, IsPart-trans p y.1)
Yields-under incomplete p y = tt
Yields-under (error at) p y = tt
Yields-under (failure at) p y = tt

pub Yields-inside :
    {A : Type 0} (P : A → Type 0) {u i : Span} (x : IResult A)
    → IsPart u i
    → Yields P i x
    → Yields P u x
Yields-inside P (ok r v) p y = (IsPart-trans p y.0, y.1)
Yields-inside P incomplete p y = tt
Yields-inside P (error at) p y = tt
Yields-inside P (failure at) p y = tt

pub IsPart-placed : {u i : Span} → IsPart u i → IsPlaced u → IsPlaced i
IsPart-placed p h = record {
  fits = omega (arith, IsPart-bounds p, h.fits);
  small = omega (arith, IsPart-bounds p, h.small);
}
