-- ===== src/Protocol/Nom.antt =====
-- The interface of the crate nom, which is not part of the repository: the type of its results and
-- the parsers that the source calls, as a record that the model takes for an argument.
pub mod Laws
pub mod Parts
pub mod Reads
pub mod Accepts
use kawa.Prelude.{ℕ, Bool, Option, Bytes}
use kawa.Storage.Span.{Span}

-- `IResult<&[u8], A>`: what is left and the value, `Incomplete`, or an error at an input. The
-- source never reads the `Needed` of the first nor the `ErrorKind` of the others.
pub data IResult (A : Type 0) : Type 0 where
  ok : Span → A → IResult A
  incomplete : IResult A
  error : Span → IResult A
  failure : Span → IResult A

-- The operator `?`: a `do` block reads `let (i, a) = m?;` as `(i, a) ← m`.
infixl 5 ◌>>=◌
abbrev pub ◌>>=◌ : {A B : Type 0} → IResult A → (Span × A → IResult B) → IResult B
ok i a >>= f = f (i, a)
incomplete >>= f = incomplete
error i >>= f = error i
failure i >>= f = failure i

-- The parsers of nom that the source uses; `char` and `one_of` return the character.
pub record Nom : Type 1 where
  -- `bytes::streaming`
  pub tag : Bytes → Span → IResult Span
  pub take : ℕ → Span → IResult Span
  pub take_while : (ℕ → Bool) → Span → IResult Span
  -- `bytes::complete`
  pub tag_complete : Bytes → Span → IResult Span
  pub take_while_complete : (ℕ → Bool) → Span → IResult Span
  -- `character`
  pub char : ℕ → Span → IResult ℕ
  pub char_complete : ℕ → Span → IResult ℕ
  pub one_of : Bytes → Span → IResult ℕ
  pub hex_digit1 : Span → IResult Span
  pub is_space : ℕ → Bool
  -- `combinator` and `sequence`
  pub opt : (A : Type 0) → (Span → IResult A) → Span → IResult (Option A)
  pub tuple : (A B : Type 0) → (Span → IResult A) → (Span → IResult B) → Span → IResult (A × B)
  -- The traits `Offset` and `ParseTo<usize>` on byte slices
  pub offset : Span → Span → ℕ
  pub parse_to : Bytes → Option ℕ
