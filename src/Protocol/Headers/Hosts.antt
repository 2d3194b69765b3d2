-- ===== src/Protocol/Headers/Hosts.antt =====
-- What `process_headers` makes of the `Host` headers and the authority.
use kawa.Prelude.{
  codes, ℕ, suc, ◌≡◌, refl, sym, ap, ◌∙◌, inl, inr, true, false, Option, none, some, List, [], ◌∷◌,
  ◌++◌, ◌==◌, Bool-cases, bind-eq-some, Bytes, length,
}
use kawa.Storage.Span.{Span}
use kawa.Storage.Slice
use kawa.Storage.Slice.{Slice}
use kawa.Storage.Store
use kawa.Storage.Store.{Store}
use kawa.Storage.Repr.{Block, Pair, BodySize, elide, is_elided}
use kawa.Protocol.Nom.{Nom}
use kawa.Protocol.Lookup.{compare_no_case}
use kawa.Protocol.Headers.{
  Found, Round, host_header, length_header, content_length_header, encoding_header, keyed_header,
  process_key, process_block, process_blocks,
}
use kawa.Protocol.Headers.Rounds.{map-eq-some, first_done}

length-authority :
    (size : BodySize) (st : Found) (h : Pair) (n : ℕ)
    → (length_header size st h n).0.authority ≡ st.authority
unfolding length_header
length-authority BodySize.empty st h n = refl
length-authority BodySize.chunked st h n = refl
length-authority (BodySize.length m) st h n = elim (Bool-cases (m == n)) [
  | inl e ↦ rw e refl
  | inr e ↦ rw e refl
]

content_length-authority :
    (st : Found) (h : Pair) (r : Option ℕ)
    → (content_length_header st h r).0.authority ≡ st.authority
unfolding content_length_header
content_length-authority st h none = refl
content_length-authority st h (some n) = length-authority st.body_size st h n

-- After a `Host` header that is not empty there is an authority, and the header is elided.
host_header_lem :
    (st : Found) (h : Pair)
    → Store.is_empty h.val ≡ false
    → (Store.is_empty (host_header st h).0.authority ≡ false)
      × (is_elided (host_header st h).1 ≡ true)
      × ((host_header st h).2 ≡ none)
unfolding host_header is_elided elide Store.is_empty
host_header_lem st h full = elim (Bool-cases (Store.is_empty st.authority)) [
  | inl e ↦ rw e (full, refl, refl)
  | inr e ↦ rw e (e, refl, refl)
]

module _ (nom : Nom) (buf : Span) where
  keyed-authority :
      (st : Found) (h : Pair) (key : Bytes) (r : Round Pair)
      → keyed_header nom buf st h key ≡ some r
      → Store.is_empty st.authority ≡ false
      → r.0.authority ≡ st.authority
  unfolding keyed_header host_header encoding_header
  keyed-authority st h key r e full = elim (Bool-cases (compare_no_case key (codes "host"))) [
    | inl y ↦
        let q : (st, elide h, none) ≡ r = cc (rw (y, full) at e) in
        ap (λ (z : Round Pair). z.0.authority) (sym q)
    | inr n ↦ elim (Bool-cases (compare_no_case key (codes "content-length"))) [
      | inl y ↦
          let (v, d, q) =
            map-eq-some (λ val. content_length_header st h (nom.parse_to val))
              (Store.data_of h.val buf) (rw (n, y) at e) in
          ap (λ (z : Round Pair). z.0.authority) (sym q)
          ∙ content_length-authority st h (nom.parse_to v)
      | inr m ↦ elim (Bool-cases (compare_no_case key (codes "transfer-encoding"))) [
        | inl y ↦
            let (v, d, q) =
              map-eq-some (encoding_header st h) (Store.data_of h.val buf) (rw (n, m, y) at e) in
            ap (λ (z : Round Pair). z.0.authority) (sym q)
        | inr o ↦
            let q : (st, h, none) ≡ r = cc (rw (n, m, o) at e) in
            ap (λ (z : Round Pair). z.0.authority) (sym q)
      ]
    ]
  ]

  process_key-authority :
      (st : Found) (h : Pair) (key : Store) (r : Round Pair)
      → process_key nom buf st h key ≡ some r
      → Store.is_empty st.authority ≡ false
      → r.0.authority ≡ st.authority
  unfolding process_key
  process_key-authority st h (Store.slice key) r e full =
      let (part, d, q) =
        bind-eq-some (Slice.data_of key buf) (λ part. keyed_header nom buf st h part.bytes) e in
      keyed-authority st h part.bytes r q full
  process_key-authority st h Store.empty r e full = cc
  process_key-authority st h (Store.detached s) r e full = cc
  process_key-authority st h (Store.static bytes) r e full = cc
  process_key-authority st h (Store.alloc bytes index) r e full = cc
  process_key-authority st h (Store.shared bytes index) r e full = cc

  process_block-authority :
      (st st' : Found) (b b' : Block)
      → process_block nom buf st b ≡ some (st', b', none)
      → Store.is_empty st.authority ≡ false
      → st'.authority ≡ st.authority
  unfolding process_block
  process_block-authority st st' (Block.header h) b' e full =
      let (r, d, q) =
        map-eq-some (λ (r : Round Pair). (r.0, Block.header r.1, r.2))
          (process_key nom buf st h h.key) e in
      ap (λ (z : Found). z.authority) (sym (ap (λ z. z.0) q))
      ∙ process_key-authority st h h.key r d full
  process_block-authority st st' Block.status_line b' e full = cc e
  process_block-authority st st' Block.cookies b' e full = cc e
  process_block-authority st st' (Block.chunk_header s) b' e full = cc e
  process_block-authority st st' (Block.chunk s) b' e full = cc e
  process_block-authority st st' (Block.flags f) b' e full = cc e

  -- An authority once found, in the target or in a `Host` header, is kept whatever headers
  -- follow, when none is refused.
  pub authority_stays :
      (st st' : Found) (bs bs' : List Block)
      → process_blocks nom buf st bs ≡ some (st', bs', none)
      → Store.is_empty st.authority ≡ false
      → st'.authority ≡ st.authority
  unfolding process_blocks
  authority_stays st st' [] bs' e full = cc e
  authority_stays st st' (b ∷ bs) bs' e full =
      let (mid, b', rest, one, more, _) = first_done nom buf st st' b bs bs' e in
      let same = process_block-authority st mid b b' one full in
      authority_stays mid st' bs rest more (ap Store.is_empty same ∙ full) ∙ same

  process_block-host :
      (st mid : Found) (key : Slice) (val : Store) (b' : Block) (part : Span)
      → process_block nom buf st (Block.header (record { key = Store.slice key; val = val }))
        ≡ some (mid, b', none)
      → Slice.data_of key buf ≡ some part
      → compare_no_case part.bytes (codes "host") ≡ true
      → Store.is_empty val ≡ false
      → (Store.is_empty mid.authority ≡ false)
        × (p : Pair) × (b' ≡ Block.header p)
        × (is_elided p ≡ true)
  unfolding process_block process_key keyed_header
  process_block-host st mid key val b' part e d y full =
      let h : Pair = record { key = Store.slice key; val = val } in
      let l = host_header_lem st h full in
      let q : ((host_header st h).0, Block.header (host_header st h).1, (host_header st h).2)
          ≡ (mid, b', none) =
        cc (rw (d, y) at e) in
      (
        ap (λ (z : Round Block). Store.is_empty z.0.authority) (sym q) ∙ l.0,
        (host_header st h).1,
        ap (λ (z : Round Block). z.1) (sym q),
        l.1,
      )

  -- When the loop refuses no header, a `Host` header whose value is not `Empty` is elided at its
  -- place among the blocks, and there is an authority at the end.
  pub hosts_elided :
      (front back bs' : List Block) (st st' : Found) (key : Slice) (val : Store) (part : Span)
      → process_blocks nom buf st
          (front ++ (Block.header (record { key = Store.slice key; val = val }) ∷ back))
        ≡ some (st', bs', none)
      → Slice.data_of key buf ≡ some part
      → compare_no_case part.bytes (codes "host") ≡ true
      → Store.is_empty val ≡ false
      → (Store.is_empty st'.authority ≡ false)
        × (left : List Block) × (p : Pair) × (right : List Block) × (bs'
            ≡ left ++ (Block.header p ∷ right))
        × (length left ≡ length front)
        × (is_elided p ≡ true)
  hosts_elided [] back bs' st st' key val part e d y full =
      let (mid, b', rest, one, more, shape) = first_done nom buf st st' _ back bs' e in
      let (some_authority, p, is_header, gone) =
        process_block-host st mid key val b' part one d y full in
      (
        ap Store.is_empty (authority_stays mid st' back rest more some_authority) ∙ some_authority,
        [],
        p,
        rest,
        shape ∙ ap (λ z. z ∷ rest) is_header,
        refl,
        gone,
      )
  hosts_elided (b ∷ front) back bs' st st' key val part e d y full =
      let (mid, b', rest, one, more, shape) = first_done nom buf st st' b _ bs' e in
      let (known, left, p, right, same, place, gone) =
        hosts_elided front back rest mid st' key val part more d y full in
      (known, b' ∷ left, p, right, shape ∙ ap (λ z. b' ∷ z) same, ap suc place, gone)
