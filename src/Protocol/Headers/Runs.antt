-- ===== src/Protocol/Headers/Runs.antt =====
-- `process_headers` on what the parser leaves: no indexing of the buffer panics.
use kawa.Prelude.{
  codes, ℕ, ◌≡◌, refl, inl, inr, Option, none, some, List, [], ◌∷◌, Bool-cases, Bytes, length, All,
}
use mathlib.Core.Option
use kawa.Storage.Slice
use kawa.Storage.Slice.{Slice, IsInside, data_of_lem}
use kawa.Storage.Span.{Span}
use kawa.Storage.Store
use kawa.Storage.Store.{Store}
use kawa.Storage.Repr.{Block, Pair, StatusLine, Message}
use kawa.Storage.Kawa.{Kawa}
use kawa.Protocol.Nom.{Nom}
use kawa.Protocol.Lookup.{compare_no_case}
use kawa.Protocol.Headers.{
  Found, Round, keyed_header, process_key, process_block, process_blocks, request_target, target_of,
  finish_headers, process_headers, conclude, has_no_body, refuse,
}

-- A slice of the buffer, as every key and value is that the parser makes.
abbrev pub SliceIn : ℕ → Store → Type 0
SliceIn n (Store.slice s) = IsInside n s
SliceIn n _ = ⊥

abbrev pub LineRaw : ℕ → StatusLine → Type 0
LineRaw n (StatusLine.request r) = SliceIn n r.method × SliceIn n r.uri
LineRaw n _ = Unit

abbrev pub BlockRaw : ℕ → Block → Type 0
BlockRaw n (Block.header p) = SliceIn n p.key × SliceIn n p.val
BlockRaw n _ = Unit

abbrev Runs : {A : Type 0} → Option A → Type 0
Runs {A} x = (a : A) × (x ≡ some a)

Runs-map : {A B : Type 0} (f : A → B) (x : Option A) → Runs x → Runs (Option.map f x)
Runs-map f x r = rw r.1 (f r.0, refl)

module _ (nom : Nom) (buf : Span) where
  val-Runs : (s : Store) → SliceIn (length buf.bytes) s → Runs (Store.data_of s buf)
  unfolding Store.data_of
  val-Runs (Store.slice s) h = rw (data_of_lem s buf h) (_, refl)
  val-Runs Store.empty h = absurd h
  val-Runs (Store.detached s) h = absurd h
  val-Runs (Store.static bytes) h = absurd h
  val-Runs (Store.alloc bytes index) h = absurd h
  val-Runs (Store.shared bytes index) h = absurd h

  keyed-Runs :
      (st : Found) (h : Pair) (key : Bytes)
      → SliceIn (length buf.bytes) h.val
      → Runs (keyed_header nom buf st h key)
  unfolding keyed_header
  keyed-Runs st h key v = elim (Bool-cases (compare_no_case key (codes "host"))) [
    | inl a ↦ rw a (_, refl)
    | inr a ↦ elim (Bool-cases (compare_no_case key (codes "content-length"))) [
      | inl b ↦ rw (a, b) (Runs-map _ _ (val-Runs h.val v))
      | inr b ↦ elim (Bool-cases (compare_no_case key (codes "transfer-encoding"))) [
        | inl c ↦ rw (a, b, c) (Runs-map _ _ (val-Runs h.val v))
        | inr c ↦ rw (a, b, c) (_, refl)
      ]
    ]
  ]

  key-Runs :
      (st : Found) (h : Pair) (key : Store)
      → SliceIn (length buf.bytes) key
      → SliceIn (length buf.bytes) h.val
      → Runs (process_key nom buf st h key)
  unfolding process_key
  key-Runs st h (Store.slice s) i v =
      rw (data_of_lem s buf i) (keyed-Runs st h (Slice.window buf.bytes s) v)
  key-Runs st h Store.empty i v = absurd i
  key-Runs st h (Store.detached s) i v = absurd i
  key-Runs st h (Store.static bytes) i v = absurd i
  key-Runs st h (Store.alloc bytes index) i v = absurd i
  key-Runs st h (Store.shared bytes index) i v = absurd i

  block-Runs :
      (st : Found) (b : Block) → BlockRaw (length buf.bytes) b → Runs (process_block nom buf st b)
  unfolding process_block
  block-Runs st (Block.header h) r = Runs-map _ _ (key-Runs st h h.key r.0 r.1)
  block-Runs st Block.status_line r = (_, refl)
  block-Runs st Block.cookies r = (_, refl)
  block-Runs st (Block.chunk_header s) r = (_, refl)
  block-Runs st (Block.chunk s) r = (_, refl)
  block-Runs st (Block.flags f) r = (_, refl)

  blocks-Runs :
      (st : Found) (bs : List Block)
      → All (BlockRaw (length buf.bytes)) bs
      → Runs (process_blocks nom buf st bs)
  unfolding process_blocks
  blocks-Runs st [] r = (_, refl)
  blocks-Runs st (b ∷ bs) r =
      rw (process_blocks, (block-Runs st b r.0).1)
        (rest (block-Runs st b r.0).0 (λ st'. blocks-Runs st' bs r.1))
    where
      rest :
          (v : Round Block)
          → ((st' : Found) → Runs (process_blocks nom buf st' bs))
          → Runs {A = Round (List Block)} (elim v.2 [
            | some m ↦ some (v.0, v.1 ∷ bs, some m)
            | none ↦ Option.map (λ r. (r.0, v.1 ∷ r.1, r.2)) (process_blocks nom buf v.0 bs)
          ])
      rest (st', b', some m) ih = (_, refl)
      rest (st', b', none) ih = Runs-map _ _ (ih st')

  target-Runs :
      (line : StatusLine) → LineRaw (length buf.bytes) line → Runs (request_target nom buf line)
  unfolding request_target
  target-Runs (StatusLine.request r) h = sliced r.uri r.method h.1 h.0
    where
      sliced :
          (uri method : Store)
          → SliceIn (length buf.bytes) uri
          → SliceIn (length buf.bytes) method
          → Runs (target_of nom buf uri method)
      sliced (Store.slice u) (Store.slice m) i j =
          rw (data_of_lem u buf i, data_of_lem m buf j) (_, refl)
      sliced uri method i j = (_, refl)
  target-Runs (StatusLine.response r) h = (_, refl)
  target-Runs StatusLine.unknown h = (_, refl)

finish_headers-storage :
    (k : Kawa) (path : Store) (r : Round (List Block))
    → (finish_headers k path r).storage ≡ k.storage
unfolding finish_headers conclude
finish_headers-storage k path (st, bs, some m) = refl
finish_headers-storage k path (st, bs, none) = concluded k.detached.status_line
  where
    concluded :
        (line : StatusLine)
        → (conclude
            (record k { blocks = bs; body_size = st.body_size })
            st.authority
            path
            line).storage
          ≡ k.storage
    concluded (StatusLine.request r) = refl
    concluded (StatusLine.response r) = elim (Bool-cases (has_no_body r.code)) [
      | inl z ↦ rw z refl
      | inr z ↦ rw z refl
    ]
    concluded StatusLine.unknown = refl

-- When the target, the keys and the values are slices of the buffer, `process_headers` does not
-- panic, and it leaves the buffer as it is.
pub process_headers-runs :
    (nom : Nom) (k : Kawa)
    → LineRaw (length k.storage.buffer.bytes) k.detached.status_line
    → All (BlockRaw (length k.storage.buffer.bytes)) k.blocks
    → (k' : Kawa) × (process_headers nom k ≡ some k') × (k'.storage ≡ k.storage)
unfolding process_headers
process_headers-runs nom k line blocks =
    let t = target-Runs nom k.storage.buffer k.detached.status_line line in
    rw (process_headers, t.1) (from_target t.0)
  where
    from_target :
        (t : Option (Store × Store))
        → (k' : Kawa) × ((elim t [
          | none ↦ some (refuse k Message.invalid_uri)
          | some (authority, path) ↦ Option.map (finish_headers k path) (
              process_blocks nom k.storage.buffer
                (record { authority = authority; body_size = k.body_size })
                k.blocks)
        ])
            ≡ some k')
          × (k'.storage ≡ k.storage)
    from_target none = (_, refl, refl)
    from_target (some (authority, path)) =
        let b =
          blocks-Runs nom k.storage.buffer
            (record { authority = authority; body_size = k.body_size }) k.blocks blocks in
        rw (b.1) (_, refl, finish_headers-storage k path b.0)
