-- ===== src/Protocol/H1/Writes.antt =====
-- `prepare` with the HTTP/1 converter writes the text of the message.
use kawa.Prelude.{
  Run, done, panic, out_of_fuel, codes, ℕ, ◌<◌, ◌≡◌, refl, sym, ap, ◌∙◌, subst, inl, inr, Bool,
  true, false, ◌&&◌, ◌||◌, Option, none, some, List, [], ◌∷◌, ◌++◌, map, append-nil, append_assoc,
  if◌then◌else◌, Bool-cases, Bytes, length,
}
use mathlib.Core.Option
use kawa.Storage.Store
use kawa.Storage.Store.{Store}
use kawa.Storage.Store.Content.{content}
use kawa.Storage.OutBlock.{OutBlock}
use kawa.Storage.Repr.{Block, Pair, Flags, BodySize, StatusLine, Version, is_elided, pop}
use kawa.Storage.Kawa.{Kawa, is_streaming}
use kawa.Storage.Prepare.{prepare}
use kawa.Protocol.H1.{
  as_store, line_stores, crumb_stores, cookie_stores, header_stores, flags_stores, h1_converter,
}
use kawa.Protocol.H1.Output.{emit, Queues, h1_prepare}
use kawa.Protocol.H1.Wire.{
  spent, behind, joined, is_chunked, line_text, crumbs, cookie_text, header_text, flags_text, wire,
  contents,
}

pub pop-spent : (line : StatusLine) → pop line ≡ (spent line, line)
unfolding pop
pop-spent (StatusLine.request r) = refl
pop-spent (StatusLine.response r) = refl
pop-spent StatusLine.unknown = refl

module _ (buf : Bytes) where
  pub contents-append :
      (ss ts : List Store) → contents buf (ss ++ ts) ≡ contents buf ss ++ contents buf ts
  contents-append [] ts = refl
  contents-append (s ∷ ss) ts =
      ap (λ z. content buf s ++ z) (contents-append ss ts)
      ∙ sym (append_assoc (content buf s) (contents buf ss) (contents buf ts))

  -- One block, and those behind it.
  step_lem :
      (ss : List Store) (t : Bytes) (o : Option (List Store)) (w : Option Bytes)
      → contents buf ss ≡ t
      → Option.map (contents buf) o ≡ w
      → Option.map (contents buf) (Option.map (λ rest. ss ++ rest) o)
        ≡ Option.map (λ rest. t ++ rest) w
  step_lem ss t none w e f = subst (λ w. none ≡ Option.map (λ rest. t ++ rest) w) f refl
  step_lem ss t (some rest) w e f =
      subst (λ w. some (contents buf (ss ++ rest)) ≡ Option.map (λ rest. t ++ rest) w) f
        (ap some (contents-append ss rest ∙ ap (λ z. z ++ contents buf rest) e))

  line_lem : (line : StatusLine) → Option.map (contents buf) (line_stores line) ≡ line_text buf line
  unfolding line_stores as_store
  line_lem (StatusLine.request r) = version r.version
    where
      version :
          (v : Version)
          → Option.map (contents buf) (line_stores (StatusLine.request (record r { version = v })))
            ≡ line_text buf (StatusLine.request (record r { version = v }))
      version Version.v10 = refl
      version Version.v11 = refl
      version Version.v20 = refl
      version Version.unknown = refl
  line_lem (StatusLine.response r) = version r.version
    where
      version :
          (v : Version)
          → Option.map (contents buf) (line_stores (StatusLine.response (record r { version = v })))
            ≡ line_text buf (StatusLine.response (record r { version = v }))
      version Version.v10 = refl
      version Version.v11 = refl
      version Version.v20 = refl
      version Version.unknown = refl
  line_lem StatusLine.unknown = refl

  later_crumbs : (jar : List Pair) → contents buf (crumb_stores false jar) ≡ behind (crumbs buf jar)
  unfolding crumb_stores is_elided
  later_crumbs [] = refl
  later_crumbs (c ∷ jar) = elim (Bool-cases (Store.is_empty c.key)) [
    | inl z ↦ rw z (later_crumbs jar)
    | inr z ↦ rw (z, later_crumbs jar) (simp append_assoc refl)
  ]

  first_crumbs : (jar : List Pair) → contents buf (crumb_stores true jar) ≡ joined (crumbs buf jar)
  unfolding crumb_stores is_elided
  first_crumbs [] = refl
  first_crumbs (c ∷ jar) = elim (Bool-cases (Store.is_empty c.key)) [
    | inl z ↦ rw z (first_crumbs jar)
    | inr z ↦ rw (z, later_crumbs jar) (simp append_assoc refl)
  ]

  cookie_lem : (jar : List Pair) → contents buf (cookie_stores jar) ≡ cookie_text buf jar
  unfolding cookie_stores
  cookie_lem [] = refl
  cookie_lem (c ∷ jar) =
      ap (λ z. codes "Cookie: " ++ z)
        (contents-append (crumb_stores true (c ∷ jar)) _
          ∙ ap (λ z. z ++ codes "\r\n") (first_crumbs (c ∷ jar)))

  header_lem : (p : Pair) → contents buf (header_stores p) ≡ header_text buf p
  unfolding header_stores is_elided
  header_lem p = elim (Bool-cases (Store.is_empty p.key)) [ inl z ↦ rw z refl | inr z ↦ rw z refl ]

  flags_lem :
      (chunked : Bool) (f : Flags) → contents buf (flags_stores chunked f) ≡ flags_text chunked f
  unfolding flags_stores
  flags_lem chunked f = ends (chunked && f.end_body) (f.end_header || f.end_chunk)
    where
      ends :
          (a b : Bool)
          → contents buf (
              (if a then Store.static (codes "0\r\n") ∷ [] else [])
              ++ (if b then Store.static (codes "\r\n") ∷ [] else []))
            ≡ (if a then codes "0\r\n" else []) ++ (if b then codes "\r\n" else [])
      ends true true = refl
      ends true false = refl
      ends false true = refl
      ends false false = refl

  -- The status line, or a panic.
  status_lem :
      (o : Option (List Store)) (t : Option Bytes) (rest : Option (List Store)) (w : Option Bytes)
      → Option.map (contents buf) o ≡ t
      → Option.map (contents buf) rest ≡ w
      → Option.map
          (contents buf)
          (elim o [ none ↦ none | some ss ↦ Option.map (λ rest. ss ++ rest) rest ])
        ≡ elim t [ none ↦ none | some t ↦ Option.map (λ rest. t ++ rest) w ]
  status_lem none t rest w e f =
      subst (λ t. none ≡ elim t [ none ↦ none | some t ↦ Option.map (λ rest. t ++ rest) w ]) e refl
  status_lem (some ss) t rest w e f =
      subst
        (λ t.
          Option.map (contents buf) (Option.map (λ rest. ss ++ rest) rest)
          ≡ elim t [ none ↦ none | some t ↦ Option.map (λ rest. t ++ rest) w ])
        e (step_lem ss (contents buf ss) rest w refl f)

  pub emit-wire :
      (line : StatusLine) (jar : List Pair) (size : BodySize) (bs : List Block)
      → Option.map (contents buf) (emit line jar (is_chunked size) bs) ≡ wire buf line jar size bs
  emit-wire line jar size [] = refl
  emit-wire line jar size (Block.status_line ∷ bs) =
      subst
        (λ p.
          Option.map (contents buf) (elim (line_stores p.1) [
            | none ↦ none
            | some ss ↦ Option.map (λ rest. ss ++ rest) (emit p.0 jar (is_chunked size) bs)
          ])
          ≡ wire buf line jar size (Block.status_line ∷ bs))
        (sym (pop-spent line))
        (status_lem (line_stores line) (line_text buf line)
          (emit (spent line) jar (is_chunked size) bs) (wire buf (spent line) jar size bs)
          (line_lem line) (emit-wire (spent line) jar size bs))
  emit-wire line jar size (Block.cookies ∷ bs) =
      step_lem (cookie_stores jar) (cookie_text buf jar) _ _ (cookie_lem jar)
        (emit-wire line [] size bs)
  emit-wire line jar size (Block.header p ∷ bs) =
      step_lem (header_stores p) (header_text buf p) _ _ (header_lem p) (emit-wire line jar size bs)
  emit-wire line jar size (Block.chunk_header s ∷ bs) =
      step_lem (s ∷ Store.static (codes "\r\n") ∷ []) (content buf s ++ codes "\r\n") _ _ refl
        (emit-wire line jar size bs)
  emit-wire line jar size (Block.chunk s ∷ bs) =
      step_lem (s ∷ []) (content buf s) _ _ (append-nil (content buf s))
        (emit-wire line jar size bs)
  emit-wire line jar size (Block.flags f ∷ bs) =
      step_lem (flags_stores (is_chunked size) f) (flags_text (is_chunked size) f) _ _
        (flags_lem (is_chunked size) f) (emit-wire line jar size bs)

pub is_streaming-is_chunked : (k : Kawa) → is_streaming k ≡ is_chunked k.body_size
unfolding is_streaming
is_streaming-is_chunked k = of_size k.body_size
  where
    of_size : (size : BodySize) → is_streaming (record k { body_size = size }) ≡ is_chunked size
    of_size BodySize.empty = refl
    of_size BodySize.chunked = refl
    of_size (BodySize.length n) = refl

-- A run that queues stores with the text `t` behind what was there, and nothing else, and leaves no
-- block and the buffer as it was; where there is no text it panics.
abbrev pub Writes : Kawa → Option Bytes → Run (Unit {0} × Kawa) → Type 0
Writes k (some t) (done (_, j)) =
    (ss : List Store) × (j.out ≡ k.out ++ map OutBlock.store ss)
    × (contents k.storage.buffer.bytes ss ≡ t)
    × (j.blocks ≡ [])
    × (j.storage ≡ k.storage)
Writes k none panic = Unit
Writes k _ _ = ⊥

Queues-Writes :
    (k : Kawa) (o : Option (List Store)) (w : Option Bytes) (r : Run (Unit {0} × Kawa))
    → Option.map (contents k.storage.buffer.bytes) o ≡ w
    → Queues k o r
    → Writes k w r
Queues-Writes k none w r e q = subst (λ w. Writes k w r) e (none_lem r q)
  where
    none_lem : (r : Run (Unit {0} × Kawa)) → Queues k none r → Writes k none r
    none_lem (done x) q = absurd q
    none_lem panic q = tt
    none_lem out_of_fuel q = absurd q
Queues-Writes k (some ss) w r e q = subst (λ w. Writes k w r) e (some_lem r q)
  where
    some_lem :
        (r : Run (Unit {0} × Kawa))
        → Queues k (some ss) r
        → Writes k (some (contents k.storage.buffer.bytes ss)) r
    some_lem (done (u, j)) (o, b, s) = (ss, o, refl, b, s)
    some_lem panic q = absurd q
    some_lem out_of_fuel q = absurd q

-- `prepare` with the HTTP/1 converter, on fuel above the number of blocks, ends. It queues stores, and
-- no delimiter, behind the output that was there, whose contents are the text of the blocks in their
-- order: the status line with the authority as its Host header, the headers as `key: val`, the
-- cookies in one header with `; ` between them, the chunks with their sizes on a line, and the last
-- chunk and the empty lines where the flags ask for them. It leaves no block. It panics exactly when
-- a status line is to be written that is unknown or of an unknown version.
pub h1_prepare-Writes :
    (fuel : ℕ) (k : Kawa)
    → length k.blocks < fuel
    → Writes k
        (wire k.storage.buffer.bytes k.detached.status_line k.detached.jar k.body_size k.blocks)
        (prepare h1_converter fuel tt k)
h1_prepare-Writes fuel k h =
    Queues-Writes k (emit k.detached.status_line k.detached.jar (is_streaming k) k.blocks) _ _
      (rw (is_streaming-is_chunked k) (
        emit-wire k.storage.buffer.bytes k.detached.status_line k.detached.jar k.body_size
          k.blocks))
      (h1_prepare fuel k h)
