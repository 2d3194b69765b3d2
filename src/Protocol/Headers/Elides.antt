-- ===== src/Protocol/Headers/Elides.antt =====
-- `process_headers` leaves each block as it is or elides it.
use kawa.Prelude.{
  codes, ℕ, ◌≡◌, refl, sym, ap, subst, ◌⊎◌, inl, inr, true, Option, none, some, List, [], ◌∷◌, ◌==◌,
  Bool-cases, ◌>>=◌, Bytes,
}
use mathlib.Core.Option
use kawa.Storage.Span.{Span}
use kawa.Storage.Slice
use kawa.Storage.Store
use kawa.Storage.Store.{Store}
use kawa.Storage.Repr.{Block, Pair, elide, is_elided, StatusLine, RequestLine, BodySize, Message}
use kawa.Storage.Kawa.{Kawa}
use kawa.Protocol.Nom.{Nom}
use kawa.Protocol.Lookup.{compare_no_case}
use kawa.Protocol.Headers.{
  Found, Round, host_header, length_header, content_length_header, encoding_header, keyed_header,
  process_key, process_block, process_blocks, request_target, has_no_body, conclude, refuse,
  finish_headers, process_headers,
}

-- A block is left as it was, or elided.
abbrev pub Same : Block → Block → Type 0
Same b b' =
    (b' ≡ b)
    ⊎ ((h h' : Pair) × (b ≡ Block.header h) × (b' ≡ Block.header h') × (is_elided h' ≡ true))

abbrev pub AllSame : List Block → List Block → Type 0
AllSame [] [] = Unit
AllSame (b ∷ bs) (b' ∷ bs') = Same b b' × AllSame bs bs'
AllSame _ _ = ⊥

AllSame-refl : (bs : List Block) → AllSame bs bs
AllSame-refl [] = tt
AllSame-refl (b ∷ bs) = (inl refl, AllSame-refl bs)

abbrev SamePair : Pair → Option (Round Pair) → Type 0
SamePair h none = Unit
SamePair h (some r) = (r.1 ≡ h) ⊎ (is_elided r.1 ≡ true)

abbrev SameBlock : Block → Option (Round Block) → Type 0
SameBlock b none = Unit
SameBlock b (some r) = Same b r.1

abbrev SameBlocks : List Block → Option (Round (List Block)) → Type 0
SameBlocks bs none = Unit
SameBlocks bs (some r) = AllSame bs r.1

host_same : (st : Found) (h : Pair) → SamePair h (some (host_header st h))
unfolding host_header elide is_elided Store.is_empty
host_same st h = elim (Bool-cases (Store.is_empty st.authority)) [
  | inl z ↦ rw z (inr refl)
  | inr z ↦ rw z (inr refl)
]

length_same :
    (size : BodySize) (st : Found) (h : Pair) (n : ℕ)
    → SamePair h (some (length_header size st h n))
unfolding length_header elide is_elided Store.is_empty
length_same BodySize.empty st h n = inl refl
length_same BodySize.chunked st h n = inr refl
length_same (BodySize.length m) st h n = elim (Bool-cases (m == n)) [
  | inl z ↦ rw z (inr refl)
  | inr z ↦ rw z (inl refl)
]

content_length_same :
    (st : Found) (h : Pair) (n : Option ℕ) → SamePair h (some (content_length_header st h n))
unfolding content_length_header
content_length_same st h none = inl refl
content_length_same st h (some n) = length_same st.body_size st h n

map_same :
    (h : Pair) (f : Bytes → Round Pair) (o : Option Bytes)
    → ((v : Bytes) → SamePair h (some (f v)))
    → SamePair h (Option.map f o)
map_same h f none g = tt
map_same h f (some v) g = g v

module _ (nom : Nom) (buf : Span) where
  keyed_same : (st : Found) (h : Pair) (key : Bytes) → SamePair h (keyed_header nom buf st h key)
  unfolding keyed_header encoding_header
  keyed_same st h key = elim (Bool-cases (compare_no_case key (codes "host"))) [
    | inl z ↦ rw z (host_same st h)
    | inr z ↦ elim (Bool-cases (compare_no_case key (codes "content-length"))) [
      | inl y ↦ rw (z, y) (map_same h _ _ (λ v. content_length_same st h (nom.parse_to v)))
      | inr y ↦ elim (Bool-cases (compare_no_case key (codes "transfer-encoding"))) [
        | inl x ↦ rw (z, y, x) (map_same h _ _ (λ v. inl refl))
        | inr x ↦ rw (z, y, x) (inl refl)
      ]
    ]
  ]

  key_same : (st : Found) (h : Pair) (key : Store) → SamePair h (process_key nom buf st h key)
  unfolding process_key
  key_same st h Store.empty = tt
  key_same st h (Store.slice key) = found (Slice.data_of key buf)
    where
      found : (o : Option Span) → SamePair h (o >>= (λ part. keyed_header nom buf st h part.bytes))
      found none = tt
      found (some part) = keyed_same st h part.bytes
  key_same st h (Store.detached s) = tt
  key_same st h (Store.static bytes) = tt
  key_same st h (Store.alloc bytes index) = tt
  key_same st h (Store.shared bytes index) = tt

  block_same : (st : Found) (b : Block) → SameBlock b (process_block nom buf st b)
  unfolding process_block
  block_same st (Block.header h) = header (process_key nom buf st h h.key) (key_same st h h.key)
    where
      header :
          (o : Option (Round Pair))
          → SamePair h o
          → SameBlock
              (Block.header h)
              (Option.map {B = Round Block} (λ r. (r.0, Block.header r.1, r.2)) o)
      header none s = tt
      header (some r) (inl e) = inl (ap Block.header e)
      header (some r) (inr e) = inr (h, r.1, refl, refl, e)
  block_same st Block.status_line = inl refl
  block_same st Block.cookies = inl refl
  block_same st (Block.chunk_header s) = inl refl
  block_same st (Block.chunk s) = inl refl
  block_same st (Block.flags f) = inl refl

  blocks_same : (st : Found) (bs : List Block) → SameBlocks bs (process_blocks nom buf st bs)
  unfolding process_blocks
  blocks_same st [] = tt
  blocks_same st (b ∷ bs) =
      first (process_block nom buf st b) (block_same st b) (λ st. blocks_same st bs)
    where
      behind :
          (b' : Block) (o : Option (Round (List Block)))
          → Same b b'
          → SameBlocks bs o
          → SameBlocks (b ∷ bs) (Option.map {B = Round (List Block)} (λ r. (r.0, b' ∷ r.1, r.2)) o)
      behind b' none s t = tt
      behind b' (some r) s t = (s, t)

      first :
          (o : Option (Round Block))
          → SameBlock b o
          → ((st : Found) → SameBlocks bs (process_blocks nom buf st bs))
          → SameBlocks (b ∷ bs) (elim o [
            | none ↦ none
            | some (st', b', stop) ↦ elim stop [
              | some m ↦ some (st', b' ∷ bs, some m)
              | none ↦
                  Option.map {B = Round (List Block)}
                    (λ r. (r.0, b' ∷ r.1, r.2))
                    (process_blocks nom buf st' bs)
            ]
          ])
      first none s ih = tt
      first (some (st', b', some m)) s ih = (s, AllSame-refl bs)
      first (some (st', b', none)) s ih = behind b' (process_blocks nom buf st' bs) s (ih st')

-- Of a status line, only a request gets other stores.
abbrev pub SameLine : StatusLine → StatusLine → Type 0
SameLine l l' =
    (l' ≡ l) ⊎ ((r r' : RequestLine) × (l ≡ StatusLine.request r) × (l' ≡ StatusLine.request r'))

abbrev pub Elides : Kawa → Kawa → Type 0
Elides k j =
    (j.storage ≡ k.storage)
    × (j.out ≡ k.out)
    × AllSame k.blocks j.blocks
    × SameLine k.detached.status_line j.detached.status_line

abbrev pub ElidesIf : Kawa → Option Kawa → Type 0
ElidesIf k none = Unit
ElidesIf k (some j) = Elides k j

conclude_same :
    (k : Kawa) (authority path : Store) (line : StatusLine)
    → k.detached.status_line ≡ line
    → ((conclude k authority path line).storage ≡ k.storage)
      × ((conclude k authority path line).out ≡ k.out)
      × ((conclude k authority path line).blocks ≡ k.blocks)
      × SameLine line (conclude k authority path line).detached.status_line
unfolding conclude
conclude_same k authority path (StatusLine.request r) e = (refl, refl, refl, inr (r, _, refl, refl))
conclude_same k authority path (StatusLine.response r) e = elim (Bool-cases (has_no_body r.code)) [
  | inl z ↦ rw z (refl, refl, refl, inl e)
  | inr z ↦ rw z (refl, refl, refl, inl e)
]
conclude_same k authority path StatusLine.unknown e = (refl, refl, refl, inl e)

finish_same :
    (k : Kawa) (path : Store) (r : Option (Round (List Block)))
    → SameBlocks k.blocks r
    → ElidesIf k (Option.map (finish_headers k path) r)
unfolding finish_headers
finish_same k path none s = tt
finish_same k path (some (st, bs, some m)) s = (refl, refl, s, inl refl)
finish_same k path (some (st, bs, none)) s =
    let k' = record k { blocks = bs; body_size = st.body_size } in
    let (a, b, c, l) = conclude_same k' st.authority path k.detached.status_line refl in
    (a, b, subst (AllSame k.blocks) (sym c) s, l)

-- `process_headers` changes neither the buffer nor the queue, elides blocks or leaves them, and
-- gives only a request line other stores.
pub process_headers-ElidesIf : (nom : Nom) (k : Kawa) → ElidesIf k (process_headers nom k)
unfolding process_headers
process_headers-ElidesIf nom k = target (request_target nom k.storage.buffer k.detached.status_line)
  where
    target :
        (t : Option (Option (Store × Store)))
        → ElidesIf k (elim t [
          | none ↦ none
          | some none ↦ some (refuse k Message.invalid_uri)
          | some (some (authority, path)) ↦ Option.map (finish_headers k path) (
              process_blocks nom k.storage.buffer
                (record { authority = authority; body_size = k.body_size })
                k.blocks)
        ])
    target none = tt
    target (some none) = (refl, refl, AllSame-refl k.blocks, inl refl)
    target (some (some (authority, path))) =
        finish_same k path _ (blocks_same nom k.storage.buffer _ k.blocks)
