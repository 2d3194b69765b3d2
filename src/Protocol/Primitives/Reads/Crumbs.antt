-- ===== src/Protocol/Primitives/Reads/Crumbs.antt =====
-- Crumbs of a cookie header: which bytes their parser accepts.
use kawa.Prelude.{
  codes, ℕ, ◌+◌, ◌≡◌, refl, ap, ◌∙◌, subst, ◌⊎◌, inl, inr, Bool, true, false, Option, none, some,
  [], ◌++◌, append-nil, arith, if◌then◌else◌, Bytes, length, All,
}
use kawa.Storage.Span.{Span}
use kawa.Protocol.Nom.{Nom}
use kawa.Protocol.Nom.Reads.{Reads, IsRead, Opts, Both, ReadsFront, Reads-bind, Reads-ok}
use kawa.Protocol.Primitives.{
  take_cv_char, separator, crumb_start, crumb_pair, parse_single_crumb, ck_char_rules,
  cv_char_rules,
}
use kawa.Protocol.Primitives.Reads.{
  IsText, Text, IsInput, IsInput-rest, ck_char-Reads, cv_char-Reads,
}

-- Nothing stands before the first crumb.
abbrev pub Separates : (ℕ → Bool) → Bool → ℕ → Bytes → Unit {0} → Type 0
Separates is_space first at w u =
    if first
    then w ≡ []
    else (spaces : Bytes) × (w ≡ codes ";" ++ spaces) × All (λ c. is_space c ≡ true) spaces

-- A crumb, behind the separator of the one before it. Without `=` the key is empty.
abbrev pub IsPair : ℕ → Bytes → Span × Span → Type 0
IsPair at w r =
    ((w ≡ (r.0).bytes ++ (codes "=" ++ (r.1).bytes))
      × IsText ck_char_rules (r.0).bytes
      × IsText cv_char_rules (r.1).bytes
      × ((r.0).addr ≡ at)
      × ((r.1).addr ≡ at + (length (r.0).bytes + 1)))
    ⊎ (((r.0).bytes ≡ [])
        × (w ≡ (r.1).bytes)
        × IsText ck_char_rules (r.1).bytes
        × ((r.0).addr ≡ at)
        × ((r.1).addr ≡ at))

pub record IsCrumb (is_space : ℕ → Bool) (first : Bool) (at : ℕ) (w : Bytes) (r : Span × Span)
    : Type 0 where
  pub separator : Bytes
  pub pair : Bytes
  pub line : w ≡ separator ++ pair
  pub separates : Separates is_space first at separator tt
  pub is_pair : IsPair (at + length separator) pair r

module _ (nom : Nom) (laws : ReadsFront nom) where
  start-Reads :
      (first : Bool) (i : Span) → Reads (Separates nom.is_space first) i (crumb_start nom first i)
  unfolding crumb_start separator
  start-Reads true i = Reads-ok {A = Unit {0}} _ i tt refl
  start-Reads false i =
      Reads-bind _ _ i _ _
        (laws.tuple Span Span _ _ (nom.tag (codes ";")) (nom.take_while nom.is_space) i
          (laws.tag (codes ";") i) (λ w r _. laws.take_while nom.is_space r))
        (λ r w v f t.
          let (x, y, e, a, b) = t in
          Reads-ok {A = Unit {0}} _ r tt (y, append-nil w ∙ e ∙ ap (λ z. z ++ y) a.1, b.1))

  abbrev IsValue : ℕ → Bytes → Span × Span → Type 0
  IsValue = Both (λ at w v. IsRead at w v × (w ≡ codes "=")) (Text cv_char_rules)

  IsValue-Reads :
      (i : Span)
      → IsInput i
      → Reads
          (Opts IsValue)
          i
          (nom.opt (Span × Span) (nom.tuple Span Span (nom.tag (codes "=")) take_cv_char) i)
  IsValue-Reads i h = laws.opt (Span × Span) IsValue _ i (
      laws.tuple Span Span _ (Text cv_char_rules) (nom.tag (codes "=")) take_cv_char i
        (laws.tag (codes "=") i) (λ w r f. cv_char-Reads r (IsInput-rest f h)))

  pair_of :
      (at : ℕ) (w x : Bytes) (key : Span) (v : Option (Span × Span))
      → Text ck_char_rules at w key
      → Opts IsValue (at + length w) x v
      → IsPair at (w ++ x) (crumb_pair nom key v)
  unfolding crumb_pair
  pair_of at w x key none k v =
      inr (refl, rw (v, k.0.shown) (append-nil w), rw k.0.shown k.1, k.0.start, k.0.start)
  pair_of at w x key (some (eq, val)) k (y, z, e, a, b) = inl (
    rw (e, k.0.shown, b.0.shown, a.1) refl,
    rw k.0.shown k.1,
    rw b.0.shown b.1,
    k.0.start,
    omega (arith, b.0.start, ap length a.1, ap length k.0.shown),
  )

  -- When `parse_single_crumb` succeeds, what it takes off the input is `;` and spaces, unless the
  -- crumb is the first, and then either a key, `=` and a value, or a value alone, for which it
  -- returns an empty key. It returns key and value where they stand. The parsers of nom are to read
  -- what they say, and the input lies in memory behind its first 16 bytes.
  pub parse_single_crumb-Reads :
      (first : Bool) (i : Span)
      → IsInput i
      → Reads (IsCrumb nom.is_space first) i (parse_single_crumb nom i first)
  unfolding parse_single_crumb
  parse_single_crumb-Reads first i h =
      Reads-bind (Separates nom.is_space first) _ i _ _ (start-Reads first i) (λ r w _ f sep.
        Reads-bind (Text ck_char_rules) _ r _ _ (ck_char-Reads r (IsInput-rest f h)) (λ s x key g k.
          Reads-bind (Opts IsValue) _ s _ _ (IsValue-Reads s (IsInput-rest g (IsInput-rest f h)))
            (λ t y v e q. Reads-ok {A = Span × Span} _ t (crumb_pair nom key v) (record {
              separator = w;
              pair = x ++ y;
              line = rw append-nil refl;
              separates = sep;
              is_pair =
                  subst (λ at. IsPair at (x ++ y) (crumb_pair nom key v)) f.addr
                    (pair_of r.addr x y key v k (subst (λ at. Opts IsValue at y v) g.addr q));
            }))))
