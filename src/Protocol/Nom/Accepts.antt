-- ===== src/Protocol/Nom/Accepts.antt =====
-- What the parsers rely on of nom, the other way round: on which inputs a parser succeeds.
use kawa.Prelude.{ℕ, ◌+◌, ◌≡◌, Bool, true, false, ◌∷◌, ◌++◌, Bytes, length, All}
use kawa.Storage.Span.{Span}
use kawa.Protocol.Nom.{Nom, IResult, ok}

-- Bytes at an address.
abbrev pub at : ℕ → Bytes → Span
at addr bytes = record { addr = addr; bytes = bytes }

-- The first `n` bytes of an input are taken, that is `w`.
abbrev pub took : ℕ → Bytes → Bytes → IResult Span
took addr w rest = ok (at (addr + length w) rest) (at addr w)

pub record AcceptsText (nom : Nom) : Type 0 where
  pub tag : (t rest : Bytes) (addr : ℕ) → nom.tag t (at addr (t ++ rest)) ≡ took addr t rest
  pub take_while :
      (p : ℕ → Bool) (w : Bytes) (c : ℕ) (rest : Bytes) (addr : ℕ)
      → All (λ c. p c ≡ true) w
      → p c ≡ false
      → nom.take_while p (at addr (w ++ (c ∷ rest))) ≡ took addr w (c ∷ rest)
  -- `character::is_space`
  pub space : nom.is_space b' ' ≡ true
