-- ===== src/Tests/Parsers.antt =====
-- Runs of the parser.
use kawa.Prelude.{done, codes, ◌≡◌, Bool, false, some, [], arith, length}
use kawa.Storage.Span.{Span}
use kawa.Storage.Repr.{Kind}
use kawa.Storage.Kawa
use kawa.Storage.Kawa.{Kawa}
use kawa.Protocol.Parser.{turns, enough}
use kawa.Protocol.Parser.Ends.{turns_end}
use kawa.Storage.Repr.{StatusLine, ParsingPhase, BodySize}
use kawa.Protocol.Parser.{parse, no_callbacks}
use kawa.Protocol.Parser.Safe.{IsMemory, late, RawAt}
use kawa.Protocol.Parser.Parsed.{IsParsed}
use kawa.Protocol.Parser.Returns.{parse_returns}
use kawa.Tests.Buffers.{memory, half_parsed}
use kawa.Tests.Noms.{parsers, parsers-TakesBytes}
use kawa.Tests.NomParts.{parsers-TakesParts}

turns_end_example :
    (t : Kawa × Span × Bool) × (turns parsers
        (enough parsers memory)
        (Kawa.new Kind.request half_parsed)
        memory
      ≡ some t)
turns_end_example = turns_end parsers parsers-TakesBytes (Kawa.new Kind.request half_parsed) memory

-- A request whose headers end, in a buffer that holds nothing else.
abbrev request : Span
request = record { addr = 4096; bytes = codes "GET /a HTTP/1.1\r\nHost: b\r\n\r\n" }

abbrev received : Kawa
received = record {
  storage = record { start = 0; head = 0; end = length request.bytes; buffer = request };
  blocks = [];
  out = [];
  detached = record { status_line = StatusLine.unknown; jar = [] };
  kind = Kind.request;
  expects = 0;
  parsing_phase = ParsingPhase.status_line;
  body_size = BodySize.empty;
  consumed = false;
}

received-IsMemory : IsMemory received.storage
received-IsMemory = record {
  valid = record {
    placed = record { fits = omega arith; small = omega arith };
    start_head = omega arith;
    head_end = omega arith;
    end_capacity = omega arith;
  };
  small = omega arith;
  page = omega arith;
}

parse_returns_example :
    (k' : Kawa) × (parse parsers no_callbacks received ≡ done k')
    × IsParsed received.storage k'.storage
    × RawAt (late k'.parsing_phase) k'
parse_returns_example =
    parse_returns parsers parsers-TakesBytes parsers-TakesParts received received-IsMemory (tt, tt)
