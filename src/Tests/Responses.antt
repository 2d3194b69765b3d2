-- ===== src/Tests/Responses.antt =====
-- A response, read and made ready to be sent.
use kawa.Prelude.{
  done, codes, ℕ, ◌≤◌, ◌≡◌, refl, true, false, some, List, [], ◌∷◌, arith, Bytes, length,
}
use kawa.Storage.Span.{Span}
use kawa.Storage.Slice.{Slice}
use kawa.Storage.Store.{slice, is_empty}
use kawa.Storage.Repr.{Block, is_elided, Kind, StatusLine, Version, ParsingPhase, BodySize}
use kawa.Storage.Kawa.{Kawa, as_io_slice}
use kawa.Storage.Kawa.Consume.{IsSendable}
use kawa.Storage.Buffer.{Buffer}
use kawa.Storage.Prepare.{prepare}
use kawa.Protocol.H1.{h1_converter, as_store}
use kawa.Protocol.Parser.{parse, no_callbacks}
use kawa.Protocol.Parser.Safe.{IsMemory}
use kawa.Protocol.Order.Ready.{IsReady, parse-IsReady}
use kawa.Protocol.Order.Sendable.{response-IsSendable, whole}
use kawa.Protocol.H1.Wire.{wire}
use kawa.Tests.Noms.{parsers, parsers-TakesBytes}
use kawa.Tests.NomParts.{parsers-TakesParts}
use kawa.Tests.NomReads.{parsers-ReadsFront}

-- A response whose headers end, in a buffer that holds nothing else.
abbrev response : Span
response = record { addr = 4096; bytes = codes "HTTP/1.1 204 No Content\r\nServer: kawa\r\n\r\n" }

abbrev storage_at : ℕ → Buffer
storage_at head = record { start = 0; head = head; end = length response.bytes; buffer = response }

storage_at-IsMemory : (head : ℕ) → head ≤ length response.bytes → IsMemory (storage_at head)
storage_at-IsMemory head h = record {
  valid = record {
    placed = record { fits = omega arith; small = omega arith };
    start_head = omega arith;
    head_end = h;
    end_capacity = omega arith;
  };
  small = omega arith;
  page = omega arith;
}

abbrev received : Kawa
received = record {
  storage = storage_at 0;
  blocks = [];
  out = [];
  detached = record { status_line = StatusLine.unknown; jar = [] };
  kind = Kind.response;
  expects = 0;
  parsing_phase = ParsingPhase.status_line;
  body_size = BodySize.empty;
  consumed = false;
}

received-IsReady : IsReady received
received-IsReady = record {
  memory = storage_at-IsMemory 0 (omega arith);
  raw = (tt, tt);
  in_place = ((tt, omega arith), (refl, refl), refl);
}

parse-IsReady_example : (k' : Kawa) × (parse parsers no_callbacks received ≡ done k') × IsReady k'
parse-IsReady_example =
    parse-IsReady parsers parsers-ReadsFront parsers-TakesParts parsers-TakesBytes received
      received-IsReady

abbrev part : ℕ → ℕ → Slice
part start len = record { start = start; len = len }

-- The same response when it is read.
abbrev read : Kawa
read = record {
  storage = storage_at (length response.bytes);
  blocks =
      Block.status_line
      ∷ Block.header (record { key = slice (part 25 6); val = slice (part 33 4) })
      ∷ Block.flags
          (record { end_body = false; end_chunk = false; end_header = true; end_stream = true })
      ∷ [];
  out = [];
  detached = record {
    status_line = StatusLine.response (record {
      version = Version.v11;
      code = 204;
      status = slice (part 9 3);
      reason = slice (part 13 10);
    });
    jar = [];
  };
  kind = Kind.response;
  expects = 0;
  parsing_phase = ParsingPhase.terminated;
  body_size = BodySize.length 0;
  consumed = false;
}

read-IsReady : IsReady read
unfolding as_store is_elided is_empty
read-IsReady = record {
  memory = storage_at-IsMemory (length response.bytes) (omega arith);
  raw = tt;
  in_place = (
    (
      ((_, refl), (tt, (tt, tt))),
      (omega arith, (omega arith, (omega arith, (omega arith, omega arith)))),
    ),
    tt,
    refl,
  );
}

response-IsSendable_example :
    (j : Kawa) × (slices : List Bytes) × (prepare h1_converter 4 tt read ≡ done (tt, j))
    × IsSendable j
    × (as_io_slice j ≡ some slices)
    × (wire response.bytes read.detached.status_line [] read.body_size read.blocks
        ≡ some (whole slices))
response-IsSendable_example = response-IsSendable read read-IsReady refl

wire_test :
    wire response.bytes read.detached.status_line [] read.body_size read.blocks
    ≡ some response.bytes
unfolding is_empty
wire_test = refl
