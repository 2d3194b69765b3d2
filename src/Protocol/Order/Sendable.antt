-- ===== src/Protocol/Order/Sendable.antt =====
-- What the HTTP/1 converter leaves of a response that `parse` has read: an output that can be sent.
use kawa.Prelude.{
  Run, done, panic, out_of_fuel, suc, ◌≡◌, refl, sym, ap, ◌∙◌, subst, some, List, [], ◌∷◌, ◌++◌,
  map, arith, Bytes, length,
}
use mathlib.Core.Option
use kawa.Storage.Store.{Store}
use kawa.Storage.OutBlock.{OutBlock}
use kawa.Storage.Kawa.{Kawa, is_streaming, as_io_slice}
use kawa.Storage.Store.Content.{content}
use kawa.Storage.Kawa.Stream.{frame, as_io_slice_shows}
use kawa.Storage.Kawa.Consume.{IsSendable}
use kawa.Storage.Prepare.{prepare}
use kawa.Protocol.H1.{h1_converter}
use kawa.Protocol.H1.Output.{emit, Queues, h1_prepare}
use kawa.Protocol.Parser.Safe.{IsMemory}
use kawa.Protocol.Order.{IsLaid, IsLaid-queue}
use kawa.Protocol.Order.Emitted.{emit_lem}
use kawa.Protocol.Order.Ready.{IsReady}
use kawa.Protocol.H1.Wire.{wire, contents}
use kawa.Protocol.H1.Writes.{emit-wire, is_streaming-is_chunked}

-- The slices of an output, one behind the other.
abbrev pub whole : List Bytes → Bytes
whole [] = []
whole (b ∷ bs) = b ++ whole bs

whole-frame :
    (buf : Bytes) (ss : List Store) → whole (frame buf (map OutBlock.store ss)) ≡ contents buf ss
whole-frame buf [] = refl
whole-frame buf (s ∷ ss) = ap (λ z. content buf s ++ z) (whole-frame buf ss)

queue-IsSendable :
    (k j : Kawa) (ss : List Store)
    → IsMemory k.storage
    → k.out ≡ []
    → IsLaid k.storage.start k.storage.head ss
    → j.out ≡ k.out ++ map OutBlock.store ss
    → j.blocks ≡ []
    → j.storage ≡ k.storage
    → IsSendable j × (as_io_slice j ≡ some (frame k.storage.buffer.bytes (map OutBlock.store ss)))
unfolding as_io_slice
queue-IsSendable k j ss m none_out laid o b s =
    let out : j.out ≡ map OutBlock.store ss = o ∙ ap (λ z. z ++ map OutBlock.store ss) none_out in
    let v = m.valid in
    let (fits, order, full) =
      IsLaid-queue (length k.storage.buffer.bytes) k.storage.start k.storage.head ss m.small
        (omega (arith, v.head_end, v.end_capacity)) laid in
    (
      record {
        storage = rw s v;
        small = rw s m.small;
        converted = b;
        fits = rw (s, out) fits;
        order = rw (s, out) order;
      },
      rw (s, out) (as_io_slice_shows k.storage.buffer (map OutBlock.store ss) fits ∙ rw full refl),
    )

-- From a state of a response that `parse` may leave, with no cookie in its jar, `prepare` with the
-- HTTP/1 converter ends without a panic, and the output that it leaves can be sent: no block is
-- left, and its slices lie one behind the other in the parsed part of the data. `as_io_slice` does
-- not panic, and the bytes that it shows are the whole text of the message.
pub response-IsSendable :
    (k : Kawa)
    → IsReady k
    → k.detached.jar ≡ []
    → (j : Kawa) × (slices : List Bytes) × (prepare h1_converter (suc (length k.blocks)) tt k
        ≡ done (tt, j))
      × IsSendable j
      × (as_io_slice j ≡ some slices)
      × (wire k.storage.buffer.bytes k.detached.status_line [] k.body_size k.blocks
          ≡ some (whole slices))
response-IsSendable k r empty_jar =
    let (filed, fresh, none_out) = r.in_place in
    let (ss, e, f) = emit_lem k.detached.status_line (is_streaming k) k.blocks filed.0 in
    let laid = f k.storage.start k.storage.head filed.1 in
    let emits : emit k.detached.status_line k.detached.jar (is_streaming k) k.blocks ≡ some ss =
      ap (λ jar. emit k.detached.status_line jar (is_streaming k) k.blocks) empty_jar ∙ e in
    queued ss laid none_out (text ss e) (prepare h1_converter (suc (length k.blocks)) tt k) (
      subst (λ o. Queues k o (prepare h1_converter (suc (length k.blocks)) tt k)) emits
        (h1_prepare (suc (length k.blocks)) k (omega arith)))
  where
    text :
        (ss : List Store)
        → emit k.detached.status_line [] (is_streaming k) k.blocks ≡ some ss
        → wire k.storage.buffer.bytes k.detached.status_line [] k.body_size k.blocks
          ≡ some (whole (frame k.storage.buffer.bytes (map OutBlock.store ss)))
    text ss e =
        sym (emit-wire k.storage.buffer.bytes k.detached.status_line [] k.body_size k.blocks)
        ∙ ap
            (λ st.
              Option.map (contents k.storage.buffer.bytes)
                (emit k.detached.status_line [] st k.blocks))
            (sym (is_streaming-is_chunked k))
        ∙ ap (Option.map (contents k.storage.buffer.bytes)) e
        ∙ ap some (sym (whole-frame k.storage.buffer.bytes ss))

    queued :
        (ss : List Store)
        → IsLaid k.storage.start k.storage.head ss
        → k.out ≡ []
        → wire k.storage.buffer.bytes k.detached.status_line [] k.body_size k.blocks
          ≡ some (whole (frame k.storage.buffer.bytes (map OutBlock.store ss)))
        → (x : Run (Unit {0} × Kawa)) → Queues k (some ss) x
        → (j : Kawa) × (slices : List Bytes) × (x ≡ done (tt, j))
          × IsSendable j
          × (as_io_slice j ≡ some slices)
          × (wire k.storage.buffer.bytes k.detached.status_line [] k.body_size k.blocks
              ≡ some (whole slices))
    queued ss laid none_out text (done (u, j)) (o, b, s) =
        let (sendable, shown) = queue-IsSendable k j ss r.memory none_out laid o b s in
        (j, _, refl, sendable, shown, text)
    queued ss laid none_out text panic q = absurd q
    queued ss laid none_out text out_of_fuel q = absurd q
