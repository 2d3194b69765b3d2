-- ===== src/Protocol/Order/Filed.antt =====
-- Blocks that can be written still can when some of them are elided.
use kawa.Prelude.{ℕ, ◌≡◌, refl, sym, ap, subst, inl, inr, List, [], ◌∷◌, ◌++◌, All}
use kawa.Storage.Repr.{Block, StatusLine, RequestLine}
use kawa.Protocol.Headers.Elides.{Same, AllSame, SameLine}
use kawa.Protocol.Order.{
  IsLaid, IsPlain, IsWritable, IsFiled, kept, block_kept, pair_kept, IsLaid-le, IsLaid-below,
  IsLaid-append, IsLaid-split,
}

Same-IsPlain : (b b' : Block) → Same b b' → IsPlain b → IsPlain b'
Same-IsPlain b b' (inl e) p = subst IsPlain (sym e) p
Same-IsPlain b b' (inr (h, h', e, e', z)) p = subst IsPlain (sym e') tt

AllSame-IsPlain : (bs bs' : List Block) → AllSame bs bs' → All IsPlain bs → All IsPlain bs'
AllSame-IsPlain [] [] s p = tt
AllSame-IsPlain [] (b' ∷ bs') s p = absurd s
AllSame-IsPlain (b ∷ bs) [] s p = absurd s
AllSame-IsPlain (b ∷ bs) (b' ∷ bs') s p =
    (Same-IsPlain b b' s.0 p.0, AllSame-IsPlain bs bs' s.1 p.1)

plain-IsWritable : (line : StatusLine) (bs : List Block) → All IsPlain bs → IsWritable line bs
plain-IsWritable line [] p = tt
plain-IsWritable line (Block.status_line ∷ bs) p = absurd p.0
plain-IsWritable line (Block.cookies ∷ bs) p = p
plain-IsWritable line (Block.header h ∷ bs) p = p
plain-IsWritable line (Block.chunk_header s ∷ bs) p = p
plain-IsWritable line (Block.chunk s ∷ bs) p = p
plain-IsWritable line (Block.flags f ∷ bs) p = p

AllSame-IsWritable :
    (line : StatusLine) (bs bs' : List Block)
    → AllSame bs bs'
    → IsWritable line bs
    → IsWritable line bs'
AllSame-IsWritable line [] [] s w = tt
AllSame-IsWritable line [] (b' ∷ bs') s w = absurd s
AllSame-IsWritable line (b ∷ bs) [] s w = absurd s
AllSame-IsWritable line (Block.status_line ∷ bs) (b' ∷ bs') (inl e, s) w =
    subst (λ z. IsWritable line (z ∷ bs')) (sym e) (w.0, AllSame-IsPlain bs bs' s w.1)
AllSame-IsWritable line (Block.status_line ∷ bs) (b' ∷ bs') (inr (h, h', e, e', z), s) w = cc
AllSame-IsWritable line (Block.cookies ∷ bs) (b' ∷ bs') s w =
    plain-IsWritable line (b' ∷ bs') (AllSame-IsPlain (Block.cookies ∷ bs) (b' ∷ bs') s w)
AllSame-IsWritable line (Block.header h ∷ bs) (b' ∷ bs') s w =
    plain-IsWritable line (b' ∷ bs') (AllSame-IsPlain (Block.header h ∷ bs) (b' ∷ bs') s w)
AllSame-IsWritable line (Block.chunk_header c ∷ bs) (b' ∷ bs') s w =
    plain-IsWritable line (b' ∷ bs') (AllSame-IsPlain (Block.chunk_header c ∷ bs) (b' ∷ bs') s w)
AllSame-IsWritable line (Block.chunk c ∷ bs) (b' ∷ bs') s w =
    plain-IsWritable line (b' ∷ bs') (AllSame-IsPlain (Block.chunk c ∷ bs) (b' ∷ bs') s w)
AllSame-IsWritable line (Block.flags f ∷ bs) (b' ∷ bs') s w =
    plain-IsWritable line (b' ∷ bs') (AllSame-IsPlain (Block.flags f ∷ bs) (b' ∷ bs') s w)

AllSame-IsLaid :
    (line : StatusLine) (bs bs' : List Block) (lo hi : ℕ)
    → AllSame bs bs'
    → IsLaid lo hi (kept line bs)
    → IsLaid lo hi (kept line bs')
AllSame-IsLaid line [] [] lo hi s h = h
AllSame-IsLaid line [] (b' ∷ bs') lo hi s h = absurd s
AllSame-IsLaid line (b ∷ bs) [] lo hi s h = absurd s
AllSame-IsLaid line (b ∷ bs) (b' ∷ bs') lo hi (inl e, s) h =
    let (mid, first, rest) = IsLaid-split lo hi (block_kept line b) (kept line bs) h in
    subst (λ z. IsLaid lo hi (block_kept line z ++ kept line bs')) (sym e)
      (IsLaid-append lo mid hi (block_kept line b) (kept line bs') first
        (AllSame-IsLaid line bs bs' mid hi s rest))
AllSame-IsLaid line (b ∷ bs) (b' ∷ bs') lo hi (inr (q, q', e, e', z), s) h =
    let (mid, first, rest) = IsLaid-split lo hi (block_kept line b) (kept line bs) h in
    rw (e', z)
      (IsLaid-below mid lo hi (kept line bs') (IsLaid-le lo mid (block_kept line b) first)
        (AllSame-IsLaid line bs bs' mid hi s rest))

kept-request :
    (r r' : RequestLine) (bs : List Block)
    → kept (StatusLine.request r) bs ≡ kept (StatusLine.request r') bs
kept-request r r' [] = refl
kept-request r r' (Block.status_line ∷ bs) = kept-request r r' bs
kept-request r r' (Block.cookies ∷ bs) = kept-request r r' bs
kept-request r r' (Block.header q ∷ bs) = ap (λ z. pair_kept q ++ z) (kept-request r r' bs)
kept-request r r' (Block.chunk_header s ∷ bs) = ap (λ z. s ∷ z) (kept-request r r' bs)
kept-request r r' (Block.chunk s ∷ bs) = ap (λ z. s ∷ z) (kept-request r r' bs)
kept-request r r' (Block.flags f ∷ bs) = kept-request r r' bs

request-IsWritable :
    (r r' : RequestLine) (bs : List Block)
    → IsWritable (StatusLine.request r) bs
    → IsWritable (StatusLine.request r') bs
request-IsWritable r r' [] w = tt
request-IsWritable r r' (Block.status_line ∷ bs) w = absurd w.0
request-IsWritable r r' (Block.cookies ∷ bs) w = w
request-IsWritable r r' (Block.header q ∷ bs) w = w
request-IsWritable r r' (Block.chunk_header s ∷ bs) w = w
request-IsWritable r r' (Block.chunk s ∷ bs) w = w
request-IsWritable r r' (Block.flags f ∷ bs) w = w

-- What `process_headers` may change keeps the blocks writable and in order.
pub Same-IsFiled :
    (lo hi : ℕ) (line line' : StatusLine) (bs bs' : List Block)
    → AllSame bs bs'
    → SameLine line line'
    → IsFiled lo hi line bs
    → IsFiled lo hi line' bs'
Same-IsFiled lo hi line line' bs bs' s (inl e) f =
    subst (λ l. IsFiled lo hi l bs') (sym e)
      (AllSame-IsWritable line bs bs' s f.0, AllSame-IsLaid line bs bs' lo hi s f.1)
Same-IsFiled lo hi line line' bs bs' s (inr (r, r', e, e')) f =
    let w = AllSame-IsWritable line bs bs' s f.0 in
    let h = AllSame-IsLaid line bs bs' lo hi s f.1 in
    subst (λ l. IsFiled lo hi l bs') (sym e')
      (
        request-IsWritable r r' bs' (subst (λ l. IsWritable l bs') e w),
        subst (IsLaid lo hi) (kept-request r r' bs') (subst (λ l. IsLaid lo hi (kept l bs')) e h),
      )
