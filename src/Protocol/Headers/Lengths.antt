-- ===== src/Protocol/Headers/Lengths.antt =====
-- What `process_headers` lets through of `Content-Length` and `Transfer-Encoding`.
use kawa.Prelude.{
  codes, ℕ, ◌≡◌, refl, sym, ap, ◌∙◌, subst, ◌≢◌, ◌⊎◌, inl, inr, true, false, Option, none, some,
  List, [], ◌∷◌, ◌++◌, arith, ◌==◌, ==_iff, Bool-cases, bind-eq-some, Bytes, length,
}
use kawa.Protocol.Headers.Rounds.{map-eq-some, first_done}
use kawa.Protocol.Headers.{ends_chunked}
use mathlib.Core.Option
use kawa.Storage.Span.{Span}
use kawa.Storage.Slice
use kawa.Storage.Slice.{Slice}
use kawa.Storage.Store
use kawa.Storage.Store.{Store}
use kawa.Storage.Repr.{Block, Pair, BodySize}
use kawa.Protocol.Nom.{Nom}
use kawa.Protocol.Lookup.{compare_no_case}
use kawa.Protocol.Headers.{
  Found, Round, host_header, length_header, content_length_header, encoding_header, keyed_header,
  process_key, process_block, process_blocks,
}

-- How a later header may change the body size: a length once found stays, or gives way to chunks.
abbrev pub Settles : BodySize → BodySize → Type 0
Settles a b = (a ≡ BodySize.empty) ⊎ (b ≡ a) ⊎ (b ≡ BodySize.chunked)

Settles-trans : (a b c : BodySize) → Settles a b → Settles b c → Settles a c
Settles-trans a b c (inl e) k = inl e
Settles-trans a b c (inr (inl e)) (inl k) = inl (sym e ∙ k)
Settles-trans a b c (inr (inl e)) (inr (inl k)) = inr (inl (k ∙ e))
Settles-trans a b c (inr (inl e)) (inr (inr k)) = inr (inr k)
Settles-trans a b c (inr (inr e)) (inl k) = absurd (cc (e, k))
Settles-trans a b c (inr (inr e)) (inr (inl k)) = inr (inr (k ∙ e))
Settles-trans a b c (inr (inr e)) (inr (inr k)) = inr (inr k)

host-body_size : (st : Found) (h : Pair) → (host_header st h).0.body_size ≡ st.body_size
unfolding host_header
host-body_size st h = elim (Bool-cases (Store.is_empty st.authority)) [
  | inl e ↦ rw e refl
  | inr e ↦ rw e refl
]

-- The body size that an accepted `Content-Length` leaves.
abbrev pub HasLength : ℕ → BodySize → Type 0
HasLength n size = (size ≡ BodySize.length n) ⊎ (size ≡ BodySize.chunked)

length-HasLength :
    (size : BodySize) (st : Found) (h : Pair) (n : ℕ)
    → st.body_size ≡ size
    → (length_header size st h n).2 ≡ none
    → HasLength n (length_header size st h n).0.body_size
      × Settles size (length_header size st h n).0.body_size
unfolding length_header
length-HasLength BodySize.empty st h n e k = (inl refl, inl refl)
length-HasLength BodySize.chunked st h n e k = (inr e, inr (inr e))
length-HasLength (BodySize.length m) st h n e k = elim (Bool-cases (m == n)) [
  | inl same ↦
      let eq : m ≡ n = (==_iff m n).0 same in
      rw same (inl refl, inr (inl (ap BodySize.length (sym eq))))
  | inr other ↦ absurd (cc (rw other at k))
]

content_length-HasLength :
    (st : Found) (h : Pair) (r : Option ℕ)
    → (content_length_header st h r).2 ≡ none
    → (n : ℕ) × (r ≡ some n)
      × HasLength n (content_length_header st h r).0.body_size
      × Settles st.body_size (content_length_header st h r).0.body_size
unfolding content_length_header
content_length-HasLength st h none k = absurd (cc k)
content_length-HasLength st h (some n) k =
    let l = length-HasLength st.body_size st h n refl k in (n, refl, l.0, l.1)

encoding-Settles :
    (st : Found) (h : Pair) (val : Bytes)
    → Settles st.body_size (encoding_header st h val).0.body_size
unfolding encoding_header
encoding-Settles st h val = elim (Bool-cases (ends_chunked val)) [
  | inl e ↦ rw e (inr (inr refl))
  | inr e ↦ rw e (inr (inl refl))
]

-- Names of different lengths are different.
different :
    (key left right : Bytes)
    → length left ≢ length right
    → compare_no_case key left ≡ true
    → compare_no_case key right ≡ false
unfolding compare_no_case
different key left right h e = ground arith

HasLength-Settles : (n : ℕ) (a b : BodySize) → HasLength n a → Settles a b → HasLength n b
HasLength-Settles n a b (inl e) (inl k) = absurd (cc (e, k))
HasLength-Settles n a b (inl e) (inr (inl k)) = inl (k ∙ e)
HasLength-Settles n a b (inl e) (inr (inr k)) = inr k
HasLength-Settles n a b (inr e) (inl k) = absurd (cc (e, k))
HasLength-Settles n a b (inr e) (inr (inl k)) = inr (k ∙ e)
HasLength-Settles n a b (inr e) (inr (inr k)) = inr k

module _ (nom : Nom) (buf : Span) where
  -- What an accepted `Content-Length` header says, and leaves as the body size.
  abbrev pub SaysLength : Store → BodySize → Type 0
  SaysLength val size =
      (v : Bytes) × (n : ℕ) × (Store.data_of val buf ≡ some v)
      × (nom.parse_to v ≡ some n)
      × HasLength n size

  content_length-SaysLength :
      (st : Found) (h : Pair) (r : Round Pair)
      → Option.map (λ val. content_length_header st h (nom.parse_to val)) (Store.data_of h.val buf)
        ≡ some r
      → r.2 ≡ none
      → SaysLength h.val r.0.body_size × Settles st.body_size r.0.body_size
  content_length-SaysLength st h r e k =
      let (v, d, q) =
        map-eq-some (λ val. content_length_header st h (nom.parse_to val)) (Store.data_of h.val buf)
          e in
      let (n, p, size, settles) =
        content_length-HasLength st h (nom.parse_to v) (ap (λ z. z.2) q ∙ k) in
      (
        (v, n, d, p, subst (λ z. HasLength n z.0.body_size) q size),
        subst (λ z. Settles st.body_size z.0.body_size) q settles,
      )

  keyed-SaysLength :
      (st : Found) (h : Pair) (key : Bytes) (r : Round Pair)
      → keyed_header nom buf st h key ≡ some r
      → r.2 ≡ none
      → compare_no_case key (codes "content-length") ≡ true
      → SaysLength h.val r.0.body_size × Settles st.body_size r.0.body_size
  unfolding keyed_header
  keyed-SaysLength st h key r e k y =
      let n = different key (codes "content-length") (codes "host") (λ q. cc q) y in
      content_length-SaysLength st h r (rw (n, y) at e) k

  keyed-Settles :
      (st : Found) (h : Pair) (key : Bytes) (r : Round Pair)
      → keyed_header nom buf st h key ≡ some r
      → r.2 ≡ none
      → Settles st.body_size r.0.body_size
  unfolding keyed_header
  keyed-Settles st h key r e k = elim (Bool-cases (compare_no_case key (codes "host"))) [
    | inl y ↦
        let q : host_header st h ≡ r = cc (rw y at e) in
        inr (inl (ap (λ (z : Round Pair). z.0.body_size) (sym q) ∙ host-body_size st h))
    | inr n ↦ elim (Bool-cases (compare_no_case key (codes "content-length"))) [
      | inl y ↦ (content_length-SaysLength st h r (rw (n, y) at e) k).1
      | inr m ↦ elim (Bool-cases (compare_no_case key (codes "transfer-encoding"))) [
        | inl y ↦
            let (v, d, q) =
              map-eq-some (encoding_header st h) (Store.data_of h.val buf) (rw (n, m, y) at e) in
            subst (λ z. Settles st.body_size z.0.body_size) q (encoding-Settles st h v)
        | inr o ↦
            let q : (st, h, none) ≡ r = cc (rw (n, m, o) at e) in
            inr (inl (ap (λ (z : Round Pair). z.0.body_size) (sym q)))
      ]
    ]
  ]

  process_key-Settles :
      (st : Found) (h : Pair) (key : Store) (r : Round Pair)
      → process_key nom buf st h key ≡ some r
      → r.2 ≡ none
      → Settles st.body_size r.0.body_size
  unfolding process_key
  process_key-Settles st h (Store.slice key) r e k =
      let (part, d, q) =
        bind-eq-some (Slice.data_of key buf) (λ part. keyed_header nom buf st h part.bytes) e in
      keyed-Settles st h part.bytes r q k
  process_key-Settles st h Store.empty r e k = cc
  process_key-Settles st h (Store.detached s) r e k = cc
  process_key-Settles st h (Store.static bytes) r e k = cc
  process_key-Settles st h (Store.alloc bytes index) r e k = cc
  process_key-Settles st h (Store.shared bytes index) r e k = cc

  process_block-Settles :
      (st st' : Found) (b b' : Block)
      → process_block nom buf st b ≡ some (st', b', none)
      → Settles st.body_size st'.body_size
  unfolding process_block
  process_block-Settles st st' (Block.header h) b' e =
      let (r, d, q) =
        map-eq-some (λ (r : Round Pair). (r.0, Block.header r.1, r.2))
          (process_key nom buf st h h.key) e in
      subst (λ z. Settles st.body_size z.body_size) (ap (λ z. z.0) q)
        (process_key-Settles st h h.key r d (ap (λ z. z.2) q))
  process_block-Settles st st' Block.status_line b' e = inr (inl (cc e))
  process_block-Settles st st' Block.cookies b' e = inr (inl (cc e))
  process_block-Settles st st' (Block.chunk_header s) b' e = inr (inl (cc e))
  process_block-Settles st st' (Block.chunk s) b' e = inr (inl (cc e))
  process_block-Settles st st' (Block.flags f) b' e = inr (inl (cc e))

  process_blocks-Settles :
      (st st' : Found) (bs bs' : List Block)
      → process_blocks nom buf st bs ≡ some (st', bs', none)
      → Settles st.body_size st'.body_size
  unfolding process_blocks
  process_blocks-Settles st st' [] bs' e = inr (inl (cc e))
  process_blocks-Settles st st' (b ∷ bs) bs' e =
      let (mid, b', rest, one, more, _) = first_done nom buf st st' b bs bs' e in
      Settles-trans st.body_size mid.body_size st'.body_size (process_block-Settles st mid b b' one)
        (process_blocks-Settles mid st' bs rest more)

  process_block-SaysLength :
      (st st' : Found) (key : Slice) (val : Store) (b' : Block) (part : Span)
      → process_block nom buf st (Block.header (record { key = Store.slice key; val = val }))
        ≡ some (st', b', none)
      → Slice.data_of key buf ≡ some part
      → compare_no_case part.bytes (codes "content-length") ≡ true
      → SaysLength val st'.body_size
  unfolding process_block process_key
  process_block-SaysLength st st' key val b' part e d y =
      let h : Pair = record { key = Store.slice key; val = val } in
      let (r, found, q) =
        map-eq-some (λ (r : Round Pair). (r.0, Block.header r.1, r.2))
          (process_key nom buf st h h.key) e in
      let (part', d', keyed) =
        bind-eq-some (Slice.data_of key buf) (λ part. keyed_header nom buf st h part.bytes) found in
      let same : part' ≡ part = cc (d, d') in
      subst (λ z. SaysLength val z.body_size) (ap (λ z. z.0) q)
        (keyed-SaysLength st h part'.bytes r keyed (ap (λ z. z.2) q)
          (ap (λ (z : Span). compare_no_case z.bytes (codes "content-length")) same ∙ y)).0

  -- When the loop over the headers refuses nothing, each `Content-Length` header whose key is a
  -- slice holds a number, and the body size at the end is that number or chunked.
  pub content_lengths_agree :
      (front back bs' : List Block) (st st' : Found) (key : Slice) (val : Store) (part : Span)
      → process_blocks nom buf st
          (front ++ (Block.header (record { key = Store.slice key; val = val }) ∷ back))
        ≡ some (st', bs', none)
      → Slice.data_of key buf ≡ some part
      → compare_no_case part.bytes (codes "content-length") ≡ true
      → SaysLength val st'.body_size
  content_lengths_agree [] back bs' st st' key val part e d y =
      let (mid, b', rest, one, more, _) = first_done nom buf st st' _ back bs' e in
      let (v, n, dv, p, size) = process_block-SaysLength st mid key val b' part one d y in
      (
        v,
        n,
        dv,
        p,
        HasLength-Settles n mid.body_size st'.body_size size
            (process_blocks-Settles mid st' back rest more),
      )
  content_lengths_agree (b ∷ front) back bs' st st' key val part e d y =
      let (mid, b', rest, one, more, _) = first_done nom buf st st' b _ bs' e in
      content_lengths_agree front back rest mid st' key val part more d y

  -- A body once found to be chunked stays so, whatever headers follow, when none is refused.
  pub chunked_stays :
      (st st' : Found) (bs bs' : List Block)
      → st.body_size ≡ BodySize.chunked
      → process_blocks nom buf st bs ≡ some (st', bs', none)
      → st'.body_size ≡ BodySize.chunked
  chunked_stays st st' bs bs' c e = go (process_blocks-Settles st st' bs bs' e)
    where
      go : Settles st.body_size st'.body_size → st'.body_size ≡ BodySize.chunked
      go (inl z) = absurd (cc (z, c))
      go (inr (inl same)) = same ∙ c
      go (inr (inr k)) = k
