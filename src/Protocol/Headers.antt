-- ===== src/Protocol/Headers.antt =====
-- `process_headers` of `src/protocol/h1/parser/mod.rs`: the target, the host and the body size.
-- A panic is `none`. A header is changed in place, also when a later one is refused.
pub mod Elides
pub mod Rounds
pub mod Lengths
pub mod Sizes
pub mod Hosts
pub mod Runs
use kawa.Prelude.{
  Run, done, panic, out_of_fuel, to_run, then_run, codes, digit, push_digit, parse_digits,
  parse_uint, max_u16, max_usize, ℕ, zero, suc, ◌+◌, ◌-◌, ◌*◌, ◌/◌, ◌%◌, ◌^◌, ◌≤◌, ◌<◌, min, ◌≡◌,
  refl, sym, ap, ap₂, ◌∙◌, subst, ◌≢◌, ◌↔◌, ◌⊎◌, inl, inr, Bool, true, false, not, ◌&&◌, ◌||◌,
  Option, none, some, List, [], ◌∷◌, ◌++◌, map, append-nil, append_assoc, arith, ltb, leb, ◌==◌,
  if◌then◌else◌, ltb→lt, lt→ltb, le→ltb, leb→le, le→leb, lt→leb, ==_iff, Bool-cases, Option-cases,
  ◌>>=◌, ◌>>◌, bind-eq-some, max64, max32, add64, sub64, mul64, add32, sub32, to_u32, sub64-eq-sub,
  sub32-eq-sub, Bytes, length, get_elem?, set, take, drop, replicate, All, length-append,
  length-take, length-drop, length-set, length-replicate, take-append-drop, take_cong, drop_cong,
  take-nil, drop-nil, take_zero, take_prefix, drop_prefix, take_all, drop_all, drop-drop, take-take,
  drop-take, take-add, take-drop-append, take-drop-take, drop-append_of_le, drop-append, not_le,
}
use mathlib.Core.Option
use kawa.Storage.Span.{Span}
use kawa.Storage.Slice
use kawa.Storage.Slice.{Slice}
use kawa.Storage.Store
use kawa.Storage.Store.{Store}
use kawa.Storage.Repr.{
  Block, Pair, elide, StatusLine, RequestLine, ResponseLine, BodySize, Message, ParsingErrorKind,
  to_error,
}
use kawa.Storage.Kawa.{Kawa}
use kawa.Protocol.Nom.{Nom}
use kawa.Protocol.Lookup.{compare_no_case}
use kawa.Protocol.Url.{parse_url}

-- The variables of the loop over the headers.
pub record Found : Type 0 where
  pub authority : Store
  pub body_size : BodySize

-- What one round leaves: the variables, the header, and the message of an early return.
abbrev pub Round : Type 0 → Type 0
Round A = Found × A × Option Message

-- The `Host` header gives the authority where the request line gave none, and is elided.
unfoldable pub host_header : Found → Pair → Round Pair
host_header st h =
    if Store.is_empty st.authority
    then (record st { authority = h.val }, elide (record h { val = st.authority }), none)
    else (st, elide h, none)

unfoldable pub length_header : BodySize → Found → Pair → ℕ → Round Pair
length_header BodySize.empty st h n = (record st { body_size = BodySize.length n }, h, none)
length_header BodySize.chunked st h n = (st, elide h, none)
length_header (BodySize.length m) st h n =
    if not (m == n)
    then (st, h, some Message.inconsistent_content_length)
    else (record st { body_size = BodySize.length n }, elide h, none)

unfoldable pub content_length_header : Found → Pair → Option ℕ → Round Pair
unfolding length_header
content_length_header st h none = (st, h, some Message.invalid_content_length)
content_length_header st h (some n) = length_header st.body_size st h n

-- The last seven bytes are "chunked".
unfoldable pub ends_chunked : Bytes → Bool
ends_chunked val =
    leb 7 (length val) && compare_no_case (drop (length val - 7) val) (codes "chunked")

unfoldable pub encoding_header : Found → Pair → Bytes → Round Pair
unfolding ends_chunked compare_no_case
encoding_header st h val =
    (record st { body_size = if ends_chunked val then BodySize.chunked else st.body_size }, h, none)

module _ (nom : Nom) (buf : Span) where
  unfoldable pub keyed_header : Found → Pair → Bytes → Option (Round Pair)
  unfolding host_header content_length_header encoding_header
  keyed_header st h key =
      if compare_no_case key (codes "host")
      then some (host_header st h)
      else if compare_no_case key (codes "content-length")
      then Option.map (λ val. content_length_header st h (nom.parse_to val))
          (Store.data_of h.val buf)
      else if compare_no_case key (codes "transfer-encoding")
      then Option.map (encoding_header st h) (Store.data_of h.val buf)
      else some (st, h, none)

  -- A key that is no `Slice` is unreachable.
  unfoldable pub process_key : Found → Pair → Store → Option (Round Pair)
  unfolding keyed_header
  process_key st h (Store.slice key) = do part ← Slice.data_of key buf; keyed_header st h part.bytes
  process_key st h _ = none

  unfoldable pub process_block : Found → Block → Option (Round Block)
  unfolding process_key
  process_block st (Block.header h) =
      Option.map (λ r. (r.0, Block.header r.1, r.2)) (process_key st h h.key)
  process_block st b = some (st, b, none)

  unfoldable pub process_blocks : Found → List Block → Option (Round (List Block))
  process_blocks st [] = some (st, [], none)
  process_blocks st (b ∷ bs) = elim (process_block st b) [
    | none ↦ none
    | some (st', b', stop) ↦ elim stop [
      | some m ↦ some (st', b' ∷ bs, some m)
      | none ↦ Option.map (λ r. (r.0, b' ∷ r.1, r.2)) (process_blocks st' bs)
    ]
  ]

  -- The target of a request line whose method and URI are slices; the inner option is the URL's.
  target_of : Store → Store → Option (Option (Store × Store))
  unfolding parse_url
  target_of (Store.slice uri) (Store.slice method) = do
    target ← Slice.data_of uri buf
    verb ← Slice.data_of method buf
    some (parse_url nom buf verb.bytes target)
  target_of _ _ = some (some (Store.empty, Store.empty))

  unfoldable pub request_target : StatusLine → Option (Option (Store × Store))
  unfolding target_of
  request_target (StatusLine.request r) = target_of r.uri r.method
  request_target (StatusLine.response r) = some (some (Store.empty, Store.empty))
  request_target StatusLine.unknown = some (some (Store.empty, Store.empty))

-- 1xx, 204 and 304 have no body.
unfoldable pub has_no_body : ℕ → Bool
has_no_body code = code == 204 || code == 304 || (leb 100 code && ltb code 200)

-- The last `match`: the request line gets its authority and path, a response may lose its body.
unfoldable pub conclude : Kawa → Store → Store → StatusLine → Kawa
unfolding has_no_body
conclude k authority path (StatusLine.request r) = record k {
  detached = record (k.detached) {
    status_line = StatusLine.request (record r { authority = authority; path = path });
  };
}
conclude k authority path (StatusLine.response r) =
    if has_no_body r.code then record k { body_size = BodySize.length 0 } else k
conclude k authority path StatusLine.unknown = k

abbrev refuse : Kawa → Message → Kawa
refuse k m = record k { parsing_phase = to_error k.parsing_phase (ParsingErrorKind.processing m) }

finish_headers : Kawa → Store → Round (List Block) → Kawa
unfolding conclude
finish_headers k path (st, blocks, stop) =
    let k' = record k { blocks = blocks; body_size = st.body_size } in
    elim stop [ some m ↦ refuse k' m | none ↦ conclude k' st.authority path k.detached.status_line ]

unfoldable pub process_headers : Nom → Kawa → Option Kawa
unfolding finish_headers process_blocks request_target
process_headers nom k = elim (request_target nom k.storage.buffer k.detached.status_line) [
  | none ↦ none
  | some none ↦ some (refuse k Message.invalid_uri)
  | some (some (authority, path)) ↦ Option.map (finish_headers k path) (
      process_blocks nom k.storage.buffer
        (record { authority = authority; body_size = k.body_size }) k.blocks)
]
