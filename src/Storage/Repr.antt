-- ===== src/Storage/Repr.antt =====
-- The protocol independent representation of `src/storage/repr.rs`: blocks, status lines, phases.
use kawa.Prelude.{ℕ, Bool, List}
use kawa.Storage.Store
use kawa.Storage.Store.{Store}

pub data Version : Type 0 where
  unknown v10 v11 v20 : Version

pub data Kind : Type 0 where
  request response : Kind

pub data ParsingPhaseMarker : Type 0 where
  status_line headers cookies body chunks trailers terminated error : ParsingPhaseMarker

-- The messages of `ParsingErrorKind::Processing`, which the source writes as string literals.
pub data Message : Type 0 where
  invalid_uri invalid_content_length inconsistent_content_length : Message

pub data ParsingErrorKind : Type 0 where
  consuming : ℕ → ParsingErrorKind
  processing : Message → ParsingErrorKind

pub data ParsingPhase : Type 0 where
  status_line headers body trailers terminated : ParsingPhase
  cookies : Bool → ParsingPhase
  chunks : Bool → ParsingPhase
  error : ParsingPhaseMarker → ParsingErrorKind → ParsingPhase

unfoldable pub marker : ParsingPhase → ParsingPhaseMarker
marker ParsingPhase.status_line = ParsingPhaseMarker.status_line
marker ParsingPhase.headers = ParsingPhaseMarker.headers
marker (ParsingPhase.cookies first) = ParsingPhaseMarker.cookies
marker ParsingPhase.body = ParsingPhaseMarker.body
marker (ParsingPhase.chunks first) = ParsingPhaseMarker.chunks
marker ParsingPhase.trailers = ParsingPhaseMarker.trailers
marker ParsingPhase.terminated = ParsingPhaseMarker.terminated
marker (ParsingPhase.error m kind) = ParsingPhaseMarker.error

-- `ParsingPhase::error` replaces the phase, and remembers which one it was.
unfoldable pub to_error : ParsingPhase → ParsingErrorKind → ParsingPhase
unfolding marker
to_error phase kind = ParsingPhase.error (marker phase) kind

pub data BodySize : Type 0 where
  empty chunked : BodySize
  length : ℕ → BodySize

pub record Pair : Type 0 where
  pub key : Store
  pub val : Store

unfoldable pub elide : Pair → Pair
elide p = record p { key = Store.empty }

unfoldable pub is_elided : Pair → Bool
is_elided p = Store.is_empty p.key

pub record Flags : Type 0 where
  pub end_body : Bool
  pub end_chunk : Bool
  pub end_header : Bool
  pub end_stream : Bool

-- A `ChunkHeader` and a `Chunk` are structs of one store.
pub data Block : Type 0 where
  status_line cookies : Block
  header : Pair → Block
  chunk_header : Store → Block
  chunk : Store → Block
  flags : Flags → Block

unfoldable pub push_left : Block → ℕ → Block
push_left (Block.header p) amount =
    Block.header (record { key = Store.push_left p.key amount; val = Store.push_left p.val amount })
push_left (Block.chunk_header s) amount = Block.chunk_header (Store.push_left s amount)
push_left (Block.chunk s) amount = Block.chunk (Store.push_left s amount)
push_left Block.status_line amount = Block.status_line
push_left Block.cookies amount = Block.cookies
push_left (Block.flags f) amount = Block.flags f

pub record RequestLine : Type 0 where
  pub version : Version
  pub method : Store
  pub authority : Store
  pub path : Store
  pub uri : Store

pub record ResponseLine : Type 0 where
  pub version : Version
  pub code : ℕ
  pub status : Store
  pub reason : Store

pub data StatusLine : Type 0 where
  unknown : StatusLine
  request : RequestLine → StatusLine
  response : ResponseLine → StatusLine

-- `pop` leaves a status line with empty stores: what stays in place, and what is returned.
unfoldable pub pop : StatusLine → StatusLine × StatusLine
pop (StatusLine.request r) = (
  StatusLine.request (record {
    version = r.version;
    method = Store.empty;
    authority = Store.empty;
    path = Store.empty;
    uri = Store.empty;
  }),
  StatusLine.request r,
)
pop (StatusLine.response r) = (
  StatusLine.response
      (record { version = r.version; code = r.code; status = Store.empty; reason = Store.empty }),
  StatusLine.response r,
)
pop StatusLine.unknown = (StatusLine.unknown, StatusLine.unknown)

pub record DetachedBlocks : Type 0 where
  pub status_line : StatusLine
  pub jar : List Pair
