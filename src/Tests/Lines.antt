-- ===== src/Tests/Lines.antt =====
-- Lines that the parsers of HTTP/1 read.
use kawa.Prelude.{codes, ◌+◌, ◌≡◌, refl, true, false, some, [], ◌++◌, map, arith, Bytes, All}
use kawa.Storage.Span.{Span, IsPart, IsPart-refl, IsPlaced}
use kawa.Storage.Store.{new_slice}
use kawa.Storage.OutBlock.{OutBlock}
use kawa.Storage.Kawa.Stream.{stream}
use kawa.Protocol.H1.{header_stores}
use kawa.Protocol.Lookup.{take_while_fast, make_char_lookup, char_predicate, compare_no_case}
use kawa.Protocol.Nom.{ok}
use kawa.Protocol.Nom.Accepts.{at}
use kawa.Protocol.Nom.Reads.{Reads}
use kawa.Protocol.Primitives.{
  parse_request_line, parse_response_line, parse_header_or_cookie, parse_single_crumb,
  parse_chunk_header,
}
use kawa.Protocol.Primitives.Reads.{IsInput, IsField, parse_header_or_cookie-Reads}
use kawa.Protocol.Primitives.Reads.Lines.{
  IsRequestLine, IsResponseLine, IsChunkLine, parse_request_line-Reads, parse_response_line-Reads,
  parse_chunk_header-Reads,
}
use kawa.Protocol.Primitives.Reads.Crumbs.{IsCrumb, parse_single_crumb-Reads}
use kawa.Protocol.Rewrite.{header_rewritten, header_round_trip}
use kawa.Tests.Noms.{parsers}
use kawa.Tests.NomReads.{parsers-ReadsFront, parsers-AcceptsText}

abbrev request_line : Span
request_line = record { addr = 4096; bytes = codes "GET /a HTTP/1.1\r\n" }

request_line-IsInput : IsInput request_line
request_line-IsInput = record {
  placed = record { fits = omega arith; small = omega arith };
  page = omega arith;
}

parse_request_line-Reads_example :
    Reads IsRequestLine request_line (parse_request_line parsers request_line)
parse_request_line-Reads_example =
    parse_request_line-Reads parsers parsers-ReadsFront request_line request_line-IsInput

abbrev response_line : Span
response_line = record { addr = 4096; bytes = codes "HTTP/1.1 404 Not Found\r\n" }

response_line-IsInput : IsInput response_line
response_line-IsInput = record {
  placed = record { fits = omega arith; small = omega arith };
  page = omega arith;
}

parse_response_line-Reads_example :
    Reads IsResponseLine response_line (parse_response_line parsers response_line)
parse_response_line-Reads_example =
    parse_response_line-Reads parsers parsers-ReadsFront response_line response_line-IsInput

abbrev host_line : Span
host_line = record { addr = 4096; bytes = codes "Host:  b\r\n" }

host_line-IsPlaced : IsPlaced host_line
host_line-IsPlaced = record { fits = omega arith; small = omega arith }

parse_header_or_cookie-Reads_example :
    Reads (IsField parsers.is_space) host_line (parse_header_or_cookie parsers host_line)
parse_header_or_cookie-Reads_example =
    parse_header_or_cookie-Reads parsers parsers-ReadsFront host_line
      (record { placed = host_line-IsPlaced; page = omega arith })

abbrev host : Span
host = record { addr = 4096; bytes = codes "Host" }

abbrev host_value : Span
host_value = record { addr = 4103; bytes = codes "b" }

abbrev behind_host : Span
behind_host = record { addr = 4106; bytes = [] }

host_parsed : parse_header_or_cookie parsers host_line ≡ ok behind_host (some (host, host_value))
unfolding parse_header_or_cookie take_while_fast make_char_lookup char_predicate
host_parsed = refl

header_rewritten_example :
    (spaces : Bytes) × All (λ c. parsers.is_space c ≡ true) spaces
    × (host_line.bytes
        ≡ codes "Host" ++ (codes ":" ++ (spaces ++ (codes "b" ++ (codes "\r\n" ++ [])))))
    × (stream host_line.bytes (
          map OutBlock.store (
            header_stores
              (record { key = new_slice host_line host; val = new_slice host_line host_value })))
        ≡ codes "Host" ++ (codes ": " ++ (codes "b" ++ codes "\r\n")))
header_rewritten_example =
    header_rewritten parsers parsers-ReadsFront host_line host_line behind_host host host_value
      host_line-IsPlaced (omega arith) (IsPart-refl host_line) (omega arith) host_parsed

abbrev crumbs : Span
crumbs = record { addr = 4096; bytes = codes "; a=1; b=2\r\n" }

parse_single_crumb-Reads_example :
    Reads (IsCrumb parsers.is_space false) crumbs (parse_single_crumb parsers crumbs false)
parse_single_crumb-Reads_example =
    parse_single_crumb-Reads parsers parsers-ReadsFront false crumbs
      (record { placed = record { fits = omega arith; small = omega arith }; page = omega arith })

abbrev size_line : Span
size_line = record { addr = 4096; bytes = codes "\r\n1f\r\ndata" }

parse_chunk_header-Reads_example :
    Reads (IsChunkLine false) size_line (parse_chunk_header parsers false size_line)
parse_chunk_header-Reads_example =
    parse_chunk_header-Reads parsers parsers-ReadsFront false size_line

host_part : IsPart host_line host
host_part = record { before = []; after = codes ":  b\r\n"; splits = refl; at = refl }

host_value_part : IsPart host_line host_value
host_value_part = record {
  before = codes "Host:  ";
  after = codes "\r\n";
  splits = refl;
  at = refl;
}

header_round_trip_example :
    parse_header_or_cookie parsers (
      at 8192 (
        stream host_line.bytes (
          map OutBlock.store (
            header_stores
              (record { key = new_slice host_line host; val = new_slice host_line host_value })))
        ++ codes "\r\n"))
    ≡ ok
        (at (8192 + 4 + 1 + 1 + 1 + 2) (codes "\r\n"))
        (some (at 8192 (codes "Host"), at (8192 + 4 + 1 + 1) (codes "b")))
unfolding char_predicate compare_no_case
header_round_trip_example =
    header_round_trip parsers parsers-AcceptsText host_line host host_value (codes "\r\n") 8192
      host_line-IsPlaced (omega arith) host_part host_value_part (refl, (refl, (refl, (refl, tt))))
      (refl, tt) refl refl
      (record { placed = record { fits = omega arith; small = omega arith }; page = omega arith })
