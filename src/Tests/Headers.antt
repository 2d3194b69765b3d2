-- ===== src/Tests/Headers.antt =====
-- Two equal `Content-Length` headers and one `Transfer-Encoding`, as the loop over headers sees them.
use kawa.Prelude.{
  codes, push_digit, parse_digits, parse_uint, ◌≡◌, refl, true, false, List, [], ◌∷◌, ◌++◌, length,
}
use kawa.Storage.Repr.{Pair}
use kawa.Protocol.Headers.{content_length_header}
use kawa.Protocol.Headers.{keyed_header}
use kawa.Protocol.Headers.{process_key}
use kawa.Protocol.Headers.{process_block}
use kawa.Storage.Span.{Span, sub_span}
use kawa.Storage.Slice
use kawa.Storage.Slice.{Slice}
use kawa.Storage.Store
use kawa.Storage.Store.{Store, slice, empty}
use kawa.Storage.Repr.{Block, BodySize, elide}
use kawa.Protocol.Lookup.{compare_no_case, all_no_case}
use kawa.Protocol.Headers.{
  Found, process_blocks, process_block, process_key, keyed_header, content_length_header,
  length_header,
}
use kawa.Protocol.Headers.{host_header}
use kawa.Storage.Repr.{is_elided}
use kawa.Tests.Noms.{parsers}
use kawa.Protocol.Headers.Hosts.{hosts_elided, authority_stays}
use kawa.Protocol.Headers.Lengths.{chunked_stays}
use kawa.Storage.Repr.{StatusLine, Kind, ParsingPhase}
use kawa.Storage.Kawa.{Kawa}

-- `Content-Length: 42` twice, in one buffer.
abbrev lines : Span
lines = record { addr = 4096; bytes = codes "Content-Length42" }

abbrev length_key : Slice
length_key = record { start = 0; len = 14 }

abbrev length_line : Block
length_line =
    Block.header (record { key = slice length_key; val = slice (record { start = 14; len = 2 }) })

abbrev start : Found
start = record { authority = empty; body_size = BodySize.empty }

-- A response with both lines, whose headers end.
abbrev listed : Kawa
listed = record {
  storage = record { start = 0; head = 16; end = 16; buffer = lines };
  blocks = length_line ∷ length_line ∷ [];
  out = [];
  detached = record { status_line = StatusLine.unknown; jar = [] };
  kind = Kind.response;
  expects = 0;
  parsing_phase = ParsingPhase.headers;
  body_size = BodySize.empty;
  consumed = false;
}

chunked_stays_example : BodySize.chunked ≡ BodySize.chunked
unfolding process_blocks process_block process_key keyed_header content_length_header length_header
    compare_no_case all_no_case Slice.data_of Store.data_of sub_span parse_uint parse_digits
    push_digit elide
chunked_stays_example =
    chunked_stays parsers lines (record { authority = empty; body_size = BodySize.chunked })
      (record { authority = empty; body_size = BodySize.chunked }) (length_line ∷ []) _ refl refl

-- A `Host` header.
abbrev host_lines : Span
host_lines = record { addr = 4096; bytes = codes "Hosta.org" }

abbrev host_key : Slice
host_key = record { start = 0; len = 4 }

abbrev host_value : Store
host_value = slice (record { start = 4; len = 5 })

abbrev host_line : Block
host_line = Block.header (record { key = slice host_key; val = host_value })

abbrev elided_line : Block
elided_line = Block.header (record { key = empty; val = empty })

hosts_elided_example :
    (Store.is_empty host_value ≡ false)
    × (left : List Block) × (p : Pair) × (right : List Block) × (elided_line ∷ []
        ≡ left ++ (Block.header p ∷ right))
    × (length left ≡ 0)
    × (is_elided p ≡ true)
unfolding process_blocks process_block process_key keyed_header host_header compare_no_case
    all_no_case Slice.data_of sub_span elide Store.is_empty
hosts_elided_example =
    hosts_elided parsers host_lines [] [] (elided_line ∷ []) start
      (record { authority = host_value; body_size = BodySize.empty }) host_key host_value
      (record { addr = 4096; bytes = codes "Host" }) refl refl refl refl

authority_stays_example : host_value ≡ host_value
unfolding process_blocks process_block process_key keyed_header host_header compare_no_case
    all_no_case Slice.data_of sub_span elide Store.is_empty
authority_stays_example =
    authority_stays parsers host_lines
      (record { authority = host_value; body_size = BodySize.empty })
      (record { authority = host_value; body_size = BodySize.empty }) (host_line ∷ []) _ refl refl
