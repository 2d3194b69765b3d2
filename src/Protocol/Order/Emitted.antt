-- ===== src/Protocol/Order/Emitted.antt =====
-- What the HTTP/1 converter queues for blocks whose slices lie in order.
use kawa.Prelude.{
  ℕ, ◌+◌, ◌≡◌, refl, subst, inl, inr, Bool, true, false, ◌&&◌, ◌||◌, Option, some, List, [], ◌∷◌,
  ◌++◌, arith, if◌then◌else◌, Bool-cases, All,
}
use mathlib.Core.Option.{some-injective}
use mathlib.Core.Option
use kawa.Storage.Store.{Store}
use kawa.Storage.Repr.{Block, Pair, Flags, is_elided, StatusLine, ResponseLine, Version, pop}
use kawa.Protocol.H1.{as_store, text, line_stores, cookie_stores, header_stores, flags_stores}
use kawa.Protocol.H1.Output.{emit}
use kawa.Protocol.Order.{IsLaid, IsPlain, IsWritable, kept, pair_kept}

-- A store, and other ones behind it.
IsLaid-first :
    (lo hi : ℕ) (s : Store) (ss ts : List Store)
    → ((m : ℕ) → IsLaid m hi ss → IsLaid m hi ts)
    → IsLaid lo hi (s ∷ ss)
    → IsLaid lo hi (s ∷ ts)
IsLaid-first lo hi (Store.slice s) ss ts f h = (h.0, f (s.start + s.len) h.1)
IsLaid-first lo hi (Store.static bytes) ss ts f h = (h.0, f lo h.1)
IsLaid-first lo hi Store.empty ss ts f h = absurd h
IsLaid-first lo hi (Store.detached s) ss ts f h = absurd h
IsLaid-first lo hi (Store.alloc bytes index) ss ts f h = absurd h
IsLaid-first lo hi (Store.shared bytes index) ss ts f h = absurd h

-- What is queued for the blocks `bs`, when their slices are `ks`.
abbrev Emits : Option (List Store) → List Store → Type 0
Emits o ks = (ss : List Store) × (o ≡ some ss) × ((lo hi : ℕ) → IsLaid lo hi ks → IsLaid lo hi ss)

header_lem :
    (p : Pair) (o : Option (List Store)) (ks : List Store)
    → Emits o ks
    → Emits (Option.map (λ rest. header_stores p ++ rest) o) (pair_kept p ++ ks)
unfolding header_stores
header_lem p o ks (ss, e, f) = elim (Bool-cases (is_elided p)) [
  | inl z ↦ rw (z, e) (ss, refl, f)
  | inr z ↦
      rw (z, e)
        (
          _,
          refl,
          λ lo hi. IsLaid-first lo hi p.key (p.val ∷ ks) _ (λ m h.
              (omega arith, IsLaid-first m hi p.val ks _ (λ n k. (omega arith, f n hi k)) h)),
        )
]

flags_lem :
    (st : Bool) (g : Flags) (o : Option (List Store)) (ks : List Store)
    → Emits o ks
    → Emits (Option.map (λ rest. flags_stores st g ++ rest) o) ks
unfolding flags_stores
flags_lem st g o ks (ss, e, f) =
    rw e
      (_, refl, λ lo hi h. ends (st && g.end_body) (g.end_header || g.end_chunk) lo hi (f lo hi h))
  where
    ends :
        (a b : Bool) (lo hi : ℕ)
        → IsLaid lo hi ss
        → IsLaid lo hi
            (((if a then text "0\r\n" ∷ [] else []) ++ (if b then text "\r\n" ∷ [] else [])) ++ ss)
    ends true true lo hi h = (omega arith, (omega arith, h))
    ends true false lo hi h = (omega arith, h)
    ends false true lo hi h = (omega arith, h)
    ends false false lo hi h = h

-- Blocks behind the status line, whichever line is left.
plain_lem :
    (line left : StatusLine) (st : Bool) (bs : List Block)
    → All IsPlain bs
    → Emits (emit left [] st bs) (kept line bs)
unfolding cookie_stores
plain_lem line left st [] p = ([], refl, λ lo hi h. h)
plain_lem line left st (Block.status_line ∷ bs) p = absurd p.0
plain_lem line left st (Block.cookies ∷ bs) p =
    let (ss, e, f) = plain_lem line left st bs p.1 in rw e (ss, refl, f)
plain_lem line left st (Block.header q ∷ bs) p =
    header_lem q (emit left [] st bs) (kept line bs) (plain_lem line left st bs p.1)
plain_lem line left st (Block.chunk_header s ∷ bs) p =
    let (ss, e, f) = plain_lem line left st bs p.1 in
    rw e (_, refl, λ lo hi. IsLaid-first lo hi s (kept line bs) _ (λ m h. (omega arith, f m hi h)))
plain_lem line left st (Block.chunk s ∷ bs) p =
    let (ss, e, f) = plain_lem line left st bs p.1 in
    rw e (_, refl, λ lo hi. IsLaid-first lo hi s (kept line bs) ss (λ m h. f m hi h))
plain_lem line left st (Block.flags g ∷ bs) p =
    flags_lem st g (emit left [] st bs) (kept line bs) (plain_lem line left st bs p.1)

-- A version that can be written is a constant.
version_lem :
    (v : Version) (s : Store)
    → as_store v ≡ some s
    → (lo hi : ℕ) (ss : List Store) → IsLaid lo hi ss
    → IsLaid lo hi (s ∷ ss)
unfolding as_store
version_lem Version.v10 s e lo hi ss h =
    subst (λ z. IsLaid lo hi (z ∷ ss)) (some-injective _ _ e) (omega arith, h)
version_lem Version.v11 s e lo hi ss h =
    subst (λ z. IsLaid lo hi (z ∷ ss)) (some-injective _ _ e) (omega arith, h)
version_lem Version.v20 s e lo hi ss h =
    subst (λ z. IsLaid lo hi (z ∷ ss)) (some-injective _ _ e) (omega arith, h)
version_lem Version.unknown s e lo hi ss h = cc

answer_stores :
    (r : ResponseLine) (v : Store)
    → as_store r.version ≡ some v
    → line_stores (StatusLine.response r)
      ≡ some (v ∷ text " " ∷ r.status ∷ text " " ∷ r.reason ∷ text "\r\n" ∷ [])
unfolding line_stores
answer_stores r v e = rw e refl

-- Blocks that can be written are, with their slices in order.
pub emit_lem :
    (line : StatusLine) (st : Bool) (bs : List Block)
    → IsWritable line bs
    → Emits (emit line [] st bs) (kept line bs)
unfolding pop
emit_lem line st [] p = ([], refl, λ lo hi h. h)
emit_lem (StatusLine.response r) st (Block.status_line ∷ bs) ((v, e), p) =
    let line = StatusLine.response r in
    let (ss, e', f) = plain_lem line (pop line).0 st bs p in
    rw (emit, answer_stores r v e, e')
      (
        _,
        refl,
        λ lo hi h. version_lem r.version v e lo hi _ (
          omega arith,
          IsLaid-first lo hi r.status (r.reason ∷ kept line bs) _
              (λ m h. (
                omega arith,
                IsLaid-first m hi r.reason (kept line bs) _ (λ n k. (omega arith, f n hi k)) h,
              ))
              h,
        ),
      )
emit_lem (StatusLine.request r) st (Block.status_line ∷ bs) p = absurd p.0
emit_lem StatusLine.unknown st (Block.status_line ∷ bs) p = absurd p.0
emit_lem line st (Block.cookies ∷ bs) p = plain_lem line line st (Block.cookies ∷ bs) p
emit_lem line st (Block.header q ∷ bs) p = plain_lem line line st (Block.header q ∷ bs) p
emit_lem line st (Block.chunk_header s ∷ bs) p =
    plain_lem line line st (Block.chunk_header s ∷ bs) p
emit_lem line st (Block.chunk s ∷ bs) p = plain_lem line line st (Block.chunk s ∷ bs) p
emit_lem line st (Block.flags g ∷ bs) p = plain_lem line line st (Block.flags g ∷ bs) p
