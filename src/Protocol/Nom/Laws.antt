-- ===== src/Protocol/Nom/Laws.antt =====
-- What the parsers rely on of nom: how many bytes a parser takes off the front of its input.
use kawa.Prelude.{ℕ, ◌+◌, ◌≤◌, Bool, arith, Bytes, length}
use kawa.Storage.Span.{Span}
use kawa.Protocol.Nom.{Nom, IResult, ok, incomplete, error, failure, ◌>>=◌}

-- A result leaves at least `n` bytes less than the input has.
abbrev pub Takes : {A : Type 0} → ℕ → Span → IResult A → Type 0
Takes n i (ok r a) = length r.bytes + n ≤ length i.bytes
Takes n i incomplete = Unit
Takes n i (error at) = Unit
Takes n i (failure at) = Unit

pub record TakesBytes (nom : Nom) : Type 1 where
  pub tag : (t : Bytes) (i : Span) → Takes (length t) i (nom.tag t i)
  pub take : (n : ℕ) (i : Span) → Takes n i (nom.take n i)
  pub take_while : (p : ℕ → Bool) (i : Span) → Takes 0 i (nom.take_while p i)
  pub char : (c : ℕ) (i : Span) → Takes 1 i (nom.char c i)
  pub one_of : (cs : Bytes) (i : Span) → Takes 1 i (nom.one_of cs i)
  pub hex_digit1 : (i : Span) → Takes 1 i (nom.hex_digit1 i)
  pub opt :
      (A : Type 0) (p : Span → IResult A)
      → ((i : Span) → Takes 0 i (p i))
      → (i : Span) → Takes 0 i (nom.opt A p i)
  pub tuple :
      (A B : Type 0) (p : Span → IResult A) (q : Span → IResult B) (n m : ℕ)
      → ((i : Span) → Takes n i (p i))
      → ((i : Span) → Takes m i (q i))
      → (i : Span) → Takes (n + m) i (nom.tuple A B p q i)

pub Takes-weaken :
    {A : Type 0} (m n : ℕ) (i : Span) (x : IResult A) → n ≤ m → Takes m i x → Takes n i x
Takes-weaken m n i (ok r a) h t = omega arith
Takes-weaken m n i incomplete h t = tt
Takes-weaken m n i (error at) h t = tt
Takes-weaken m n i (failure at) h t = tt

Takes-behind :
    {B : Type 0} (n m : ℕ) (i r : Span) (y : IResult B)
    → length r.bytes + n ≤ length i.bytes
    → Takes m r y
    → Takes (n + m) i y
Takes-behind n m i r (ok s b) h t = omega arith
Takes-behind n m i r incomplete h t = tt
Takes-behind n m i r (error at) h t = tt
Takes-behind n m i r (failure at) h t = tt

-- A parser and then another one.
pub Takes-bind :
    {A B : Type 0} (n m : ℕ) (i : Span) (x : IResult A) (f : Span × A → IResult B)
    → Takes n i x
    → ((r : Span) (a : A) → Takes m r (f (r, a)))
    → Takes (n + m) i (x >>= f)
Takes-bind n m i (ok r a) f t h = Takes-behind n m i r (f (r, a)) t (h r a)
Takes-bind n m i incomplete f t h = tt
Takes-bind n m i (error at) f t h = tt
Takes-bind n m i (failure at) f t h = tt
