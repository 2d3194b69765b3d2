-- ===== src/Tests/Outputs.antt =====
-- A response on its way out: the theorems on `prepare`, `as_io_slice` and `consume` applied to it.
use kawa.Prelude.{◌≡◌, refl, true, false, none, some, List, [], ◌∷◌, arith, drop}
use kawa.Storage.Slice.{Slice, IsInside}
use kawa.Storage.Store.{slice}
use kawa.Storage.OutBlock.{OutBlock}
use kawa.Storage.Repr.{Block, Kind, StatusLine, Version, ParsingPhase, BodySize}
use kawa.Storage.Kawa
use kawa.Storage.Kawa.{Kawa, as_io_slice, consume, is_streaming}
use kawa.Storage.Kawa.Stream.{stream}
use kawa.Storage.Kawa.Consume.{IsSendable, consume_drops, consume_overrun}
use kawa.Storage.Prepare.{prepare}
use kawa.Protocol.H1.{h1_converter, text}
use kawa.Protocol.H1.Wire as H1Wire
use kawa.Protocol.H1.Writes.{h1_prepare-Writes, Writes}
use kawa.Protocol.H2.Wire as H2Wire
use kawa.Protocol.H2.Blocks.{WritesMarked}
use kawa.Protocol.H2.Writes.{h2_prepare-WritesMarked}
use kawa.Protocol.H2.{h2_converter}
use kawa.Tests.Buffers.{memory, half_parsed, half_parsed-IsValid}

abbrev part : Slice
part = record { start = 4; len = 2 }

part-IsInside : IsInside 16 part
part-IsInside = record { inside = omega arith; start_word = omega arith; len_word = omega arith }

-- A header that refers to the buffer, then a constant.
abbrev queued : List OutBlock
queued = OutBlock.store (slice part) ∷ OutBlock.store (text "\r\n") ∷ []

abbrev sending : Kawa
sending = record (Kawa.new Kind.response half_parsed) { out = queued }

sending-IsSendable : IsSendable sending
unfolding Kawa.new
sending-IsSendable = record {
  storage = half_parsed-IsValid;
  small = omega arith;
  converted = refl;
  fits = (part-IsInside, (omega arith, tt));
  order = (omega arith, (tt, omega arith));
}

consume_drops_example :
    (j : Kawa) × (consume sending 3 ≡ some j)
    × IsSendable j
    × (stream j.storage.buffer.bytes j.out ≡ drop 3 (stream memory.bytes queued))
unfolding Kawa.new
consume_drops_example = consume_drops sending 3 sending-IsSendable (omega arith) (omega arith)

consume_overrun_example : consume sending 5 ≡ none
unfolding Kawa.new
consume_overrun_example = consume_overrun sending 5 sending-IsSendable (omega arith) (omega arith)

-- A parsed response with one header and no body.
abbrev pub parsed : Kawa
parsed = record (Kawa.new Kind.response half_parsed) {
  blocks =
      Block.status_line
      ∷ Block.header (record { key = text "Server"; val = slice part })
      ∷ Block.flags
          (record { end_body = true; end_chunk = false; end_header = true; end_stream = true })
      ∷ [];
  detached = record {
    status_line =
        StatusLine.response
          (record { version = Version.v11; code = 200; status = text "200"; reason = text "OK" });
    jar = [];
  };
  parsing_phase = ParsingPhase.terminated;
  body_size = BodySize.empty;
}

h1_prepare-Writes_example :
    Writes parsed
      (H1Wire.wire memory.bytes parsed.detached.status_line [] BodySize.empty parsed.blocks)
      (prepare h1_converter 4 tt parsed)
unfolding Kawa.new
h1_prepare-Writes_example = h1_prepare-Writes 4 parsed (omega arith)

h2_prepare-WritesMarked_example :
    WritesMarked parsed
      (H2Wire.wire memory.bytes parsed.detached.status_line [] parsed.blocks)
      (prepare h2_converter 4 tt parsed)
unfolding Kawa.new
h2_prepare-WritesMarked_example =
    h2_prepare-WritesMarked 4 parsed (omega arith) (tt, ((omega arith, part-IsInside), (tt, tt)))
