-- ===== src/Protocol/Headers/Rounds.antt =====
-- The loop of `process_headers` over the blocks, one round at a time.
use kawa.Prelude.{◌≡◌, refl, ap, ◌∙◌, Option, none, some, List, ◌∷◌}
use mathlib.Core.Option
use kawa.Storage.Span.{Span}
use kawa.Storage.Repr.{Block}
use kawa.Protocol.Nom.{Nom}
use kawa.Protocol.Headers.{Found, Round, process_block, process_blocks}

pub map-eq-some :
    {A B : Type 0} (f : A → B) (r : Option A) {y : B}
    → Option.map f r ≡ some y
    → (x : A) × (r ≡ some x) × (f x ≡ y)
map-eq-some f none h = cc
map-eq-some f (some x) h = (x, refl, cc h)

module _ (nom : Nom) (buf : Span) where
  -- A loop that is not cut short has done its first block and then the others.
  abbrev pub FirstDone : Found → Found → Block → List Block → List Block → Type 0
  FirstDone st st' b bs bs' =
      (mid : Found) × (b' : Block) × (rest : List Block) × (process_block nom buf st b
        ≡ some (mid, b', none))
      × (process_blocks nom buf mid bs ≡ some (st', rest, none))
      × (bs' ≡ b' ∷ rest)

  pub first_done :
      (st st' : Found) (b : Block) (bs bs' : List Block)
      → process_blocks nom buf st (b ∷ bs) ≡ some (st', bs', none)
      → FirstDone st st' b bs bs'
  unfolding process_blocks
  first_done st st' b bs bs' e = go (process_block nom buf st b) refl e
    where
      go :
          (r : Option (Round Block))
          → process_block nom buf st b ≡ r
          → elim r [
            | none ↦ none
            | some (mid, b', stop) ↦ elim stop [
              | some m ↦ some (mid, b' ∷ bs, some m)
              | none ↦
                  Option.map {B = Round (List Block)}
                    (λ r. (r.0, b' ∷ r.1, r.2))
                    (process_blocks nom buf mid bs)
            ]
          ]
            ≡ some (st', bs', none)
          → FirstDone st st' b bs bs'
      go none h k = cc
      go (some (mid, b', some m)) h k = cc
      go (some (mid, b', none)) h k =
          let (r, d, q) =
            map-eq-some (λ (r : Round (List Block)). (r.0, b' ∷ r.1, r.2))
              (process_blocks nom buf mid bs) k in
          (
            mid,
            b',
            r.1,
            h,
            d ∙ ap some (λ i. ((q i).0, r.1, (q i).2)),
            cc (ap (λ (z : Round (List Block)). z.1) q),
          )
