-- ===== src/Tests/Bodies.antt =====
-- Messages whose body is on its way.
use kawa.Prelude.{done, then_run, ◌-◌, min, ◌≡◌, refl, true, false, some, [], ◌∷◌, arith, length}
use kawa.Storage.Repr.{Kind, StatusLine, ParsingPhase, BodySize}
use kawa.Storage.Kawa.{Kawa, is_terminated, as_io_slice, consume}
use kawa.Storage.Kawa.Stream.{stream}
use kawa.Storage.Prepare.{prepare}
use kawa.Protocol.H1.{h1_converter}
use kawa.Protocol.Parser.{parse, no_callbacks}
use kawa.Protocol.Parser.Safe.{IsMemory}
use kawa.Protocol.Parser.Body.{body_read, body_parsed}
use kawa.Protocol.Parser.Arrival.{arrive, body_arrives}
use kawa.Protocol.Parser.Chunk.{chunk_read, chunk_parsed}
use kawa.Protocol.Forward.{received, body_forwarded}
use kawa.Tests.Buffers.{half_parsed, half_parsed-IsValid}
use kawa.Tests.Noms.{parsers}
use kawa.Tests.NomParts.{parsers-TakesParts}

-- Three bytes of a body are still expected, and five are unparsed.
abbrev expecting : Kawa
expecting = record {
  storage = half_parsed;
  blocks = [];
  out = [];
  detached = record { status_line = StatusLine.unknown; jar = [] };
  kind = Kind.response;
  expects = 3;
  parsing_phase = ParsingPhase.body;
  body_size = BodySize.length 9;
  consumed = false;
}

expecting-IsMemory : IsMemory half_parsed
expecting-IsMemory = record { valid = half_parsed-IsValid; small = omega arith; page = omega arith }

body_parsed_example :
    parse parsers no_callbacks expecting ≡ done (body_read expecting (min (12 - 7) 3))
body_parsed_example =
    body_parsed parsers parsers-TakesParts expecting expecting-IsMemory 9 refl refl (omega arith)

body_forwarded_example :
    (j i : Kawa) × (then_run (parse parsers no_callbacks expecting) (prepare h1_converter 3 tt)
      ≡ done (tt, j))
    × (as_io_slice j ≡ some (received expecting ∷ []))
    × (consume j (length (received expecting)) ≡ some i)
    × (stream i.storage.buffer.bytes i.out ≡ [])
body_forwarded_example =
    body_forwarded parsers parsers-TakesParts expecting 9 expecting-IsMemory refl refl (omega arith)
      refl refl

-- All that was read is parsed.
abbrev waiting : Kawa
waiting = record expecting { storage = record half_parsed { head = 12 } }

waiting-IsMemory : IsMemory (record half_parsed { head = 12 })
waiting-IsMemory = record {
  valid = record {
    placed = half_parsed-IsValid.placed;
    start_head = omega arith;
    head_end = omega arith;
    end_capacity = omega arith;
  };
  small = omega arith;
  page = omega arith;
}

body_arrives_example :
    (k' : Kawa) × (arrive parsers (1 ∷ 0 ∷ 3 ∷ []) waiting ≡ done k')
    × (is_terminated k' ≡ true)
    × (k'.storage.head ≡ 15)
body_arrives_example =
    body_arrives parsers parsers-TakesParts (1 ∷ 0 ∷ 3 ∷ []) waiting 9 waiting-IsMemory refl refl
      (omega arith) refl (omega arith)

-- A chunk of nine bytes, of which five are unparsed.
abbrev in_chunk : Kawa
in_chunk = record expecting {
  expects = 9;
  parsing_phase = ParsingPhase.chunks false;
  body_size = BodySize.chunked;
}

chunk_parsed_example : parse parsers no_callbacks in_chunk ≡ done (chunk_read in_chunk (12 - 7))
chunk_parsed_example =
    chunk_parsed parsers parsers-TakesParts in_chunk expecting-IsMemory false refl (omega arith)
      (omega arith)
