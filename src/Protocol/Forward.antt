-- ===== src/Protocol/Forward.antt =====
-- A body on its way through the proxy: parsed, converted back to HTTP/1, shown to the socket and
-- consumed.
use kawa.Prelude.{
  Run, done, panic, out_of_fuel, then_run, ℕ, ◌+◌, ◌-◌, ◌<◌, min, ◌≡◌, refl, ap, ◌∙◌, subst, inl,
  inr, Bool, true, false, some, List, [], ◌∷◌, ◌++◌, map, append-nil, arith, ◌==◌, if◌then◌else◌,
  Bool-cases, max64, Bytes, length, drop, drop_all,
}
use kawa.Storage.Slice.{Slice, IsInside, window, length-window}
use kawa.Storage.Store
use kawa.Storage.Store.{Store}
use kawa.Storage.OutBlock.{OutBlock}
use kawa.Storage.Repr.{Block, BodySize, ParsingPhase, StatusLine, Pair}
use kawa.Storage.Kawa.{Kawa, as_io_slice, consume, is_streaming}
use kawa.Storage.Kawa.Stream.{stream, as_io_slice_shows}
use kawa.Storage.Kawa.Consume.{IsSendable, consume_drops}
use kawa.Storage.Prepare.{prepare}
use kawa.Protocol.Nom.{Nom}
use kawa.Protocol.Nom.Parts.{TakesParts}
use kawa.Protocol.H1.{h1_converter, flags_stores}
use kawa.Protocol.H1.Output.{Queues, emit, h1_prepare}
use kawa.Protocol.Parser.{parse, no_callbacks, flags_of}
use kawa.Protocol.Parser.Safe.{IsMemory}
use kawa.Protocol.Parser.Body.{body_read, body_parsed}

-- The bytes of the body that are there.
abbrev pub received : Kawa → Bytes
received k =
    window k.storage.buffer.bytes
      (record { start = k.storage.head; len = min (k.storage.end - k.storage.head) k.expects })

Queues-done :
    (k : Kawa) (ss : List Store) (r : Run (Unit {0} × Kawa))
    → Queues k (some ss) r
    → (j : Kawa) × (r ≡ done (tt, j))
      × (j.out ≡ k.out ++ map OutBlock.store ss)
      × (j.blocks ≡ [])
      × (j.storage ≡ k.storage)
Queues-done k ss (done (u, j)) (a, b, c) = (j, refl, a, b, c)
Queues-done k ss panic q = absurd q
Queues-done k ss out_of_fuel q = absurd q

-- A body of known length is written as it is.
emit-body :
    (line : StatusLine) (jar : List Pair) (part : Store) (ended : Bool)
    → emit line jar false
        (Block.chunk part ∷ (if ended then flags_of true false false true ∷ [] else []))
      ≡ some (part ∷ [])
unfolding flags_stores
emit-body line jar part true = refl
emit-body line jar part false = refl

module _ (nom : Nom) (parts : TakesParts nom) (k : Kawa) (n : ℕ) (m : IsMemory k.storage) where
  abbrev taken : ℕ
  taken = min (k.storage.end - k.storage.head) k.expects

  abbrev part : Slice
  part = record { start = k.storage.head; len = min (k.storage.end - k.storage.head) k.expects }

  part-IsInside : IsInside (length k.storage.buffer.bytes) part
  part-IsInside = record {
    inside = omega (arith, m.valid.head_end, m.valid.end_capacity);
    start_word = omega (arith, m.valid.head_end, m.valid.end_capacity, m.small);
    len_word = omega (arith, m.valid.end_capacity, m.small);
  }

  few_blocks : k.blocks ≡ [] → length (body_read k taken).blocks < 3
  few_blocks b = elim (Bool-cases (k.expects - taken == 0)) [
    | inl z ↦ rw (b, z) (omega arith)
    | inr z ↦ rw (b, z) (omega arith)
  ]

  -- The chunk alone is written.
  emitted :
      k.body_size ≡ BodySize.length n
      → k.blocks ≡ []
      → emit k.detached.status_line k.detached.jar
          (is_streaming (body_read k taken))
          (body_read k taken).blocks
        ≡ some (Store.slice part ∷ [])
  unfolding is_streaming
  emitted s b =
      rw (s, b) (emit-body k.detached.status_line k.detached.jar _ (k.expects - taken == 0))

  -- What `prepare` leaves.
  abbrev queued : Kawa → Kawa
  queued j = record j {
    storage = record (k.storage) { head = k.storage.head + taken };
    blocks = [];
    out = OutBlock.store (Store.slice part) ∷ [];
  }

  converted :
      k.body_size ≡ BodySize.length n
      → k.blocks ≡ []
      → k.out ≡ []
      → (j : Kawa) × (prepare h1_converter 3 tt (body_read k taken) ≡ done (tt, queued j))
  converted s b o =
      let k' : Kawa = body_read k taken in
      let q : Queues k' (some (Store.slice part ∷ [])) (prepare h1_converter 3 tt k') =
        subst (λ ss. Queues k' ss (prepare h1_converter 3 tt k')) (emitted s b)
          (h1_prepare 3 k' (few_blocks b)) in
      let (j, run, out, blocks, storage) = Queues-done k' (Store.slice part ∷ []) _ q in
      let out' : j.out ≡ OutBlock.store (Store.slice part) ∷ [] =
        out ∙ ap (λ o. o ++ (OutBlock.store (Store.slice part) ∷ [])) o in
      (j, run ∙ (λ i. done (tt, record j { storage = storage i; blocks = blocks i; out = out' i })))

  queued-IsSendable : (j : Kawa) → IsSendable (queued j)
  queued-IsSendable j = record {
    storage = record {
      placed = m.valid.placed;
      start_head = omega (arith, m.valid.start_head);
      head_end = omega (arith, m.valid.head_end);
      end_capacity = m.valid.end_capacity;
    };
    small = m.small;
    converted = refl;
    fits = (part-IsInside, tt);
    order = (m.valid.start_head, omega arith);
  }

  -- A body of known length passes through as it is. Where nothing waits to be converted or sent
  -- and unparsed bytes are there, `parse` and then `prepare` with the HTTP/1 converter return, the
  -- socket is shown exactly the unparsed bytes that belong to the body, and when they are sent,
  -- `consume` does not panic and nothing is left to send.
  pub body_forwarded :
      k.parsing_phase ≡ ParsingPhase.body
      → k.body_size ≡ BodySize.length n
      → k.storage.head < k.storage.end
      → k.blocks ≡ []
      → k.out ≡ []
      → (j i : Kawa) × (then_run (parse nom no_callbacks k) (prepare h1_converter 3 tt)
          ≡ done (tt, j))
        × (as_io_slice j ≡ some (received k ∷ []))
        × (consume j (length (received k)) ≡ some i)
        × (stream i.storage.buffer.bytes i.out ≡ [])
  unfolding as_io_slice Store.is_empty
  body_forwarded e s h b o =
      let (j, run) = converted s b o in
      let (i, sent, ok, left) =
        consume_drops (queued j) (length (received k)) (queued-IsSendable j) word
          (omega (arith, ap length all)) in
      (
        queued j,
        i,
        rw (body_parsed nom parts k m n e s h) run,
        as_io_slice_shows (k.storage.buffer) (OutBlock.store (Store.slice part) ∷ [])
            (part-IsInside, tt),
        sent,
        left
            ∙ ap (drop (length (received k))) all
            ∙ drop_all (length (received k)) (received k) (omega arith),
      )
    where
      all : received k ++ [] ≡ received k
      all = append-nil (received k)

      word : length (received k) < max64
      word = omega (
        arith,
        length-window k.storage.buffer.bytes part part-IsInside,
        m.valid.end_capacity,
        m.small,
      )
