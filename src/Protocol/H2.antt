-- ===== src/Protocol/H2.antt =====
-- `H2BlockConverter` of `src/protocol/h2/converter.rs`: blocks to a readable form of HTTP/2 frames.
pub mod Wire
pub mod Texts
pub mod Blocks
pub mod Writes
use kawa.Prelude.{
  Run, done, panic, out_of_fuel, to_run, then_run, codes, digit, push_digit, parse_digits,
  parse_uint, max_u16, max_usize, ℕ, zero, suc, ◌+◌, ◌-◌, ◌*◌, ◌/◌, ◌%◌, ◌^◌, ◌≤◌, ◌<◌, min, ◌≡◌,
  refl, sym, ap, ap₂, ◌∙◌, subst, ◌≢◌, ◌↔◌, ◌⊎◌, inl, inr, Bool, true, false, not, ◌&&◌, ◌||◌,
  Option, none, some, List, [], ◌∷◌, ◌++◌, map, append-nil, append_assoc, arith, ltb, leb, ◌==◌,
  if◌then◌else◌, ltb→lt, lt→ltb, le→ltb, leb→le, le→leb, lt→leb, ==_iff, Bool-cases, Option-cases,
  ◌>>=◌, ◌>>◌, bind-eq-some, max64, max32, add64, sub64, mul64, add32, sub32, to_u32, sub64-eq-sub,
  sub32-eq-sub, Bytes, length, get_elem?, set, take, drop, replicate, All, length-append,
  length-take, length-drop, length-set, length-replicate, take-append-drop, take_cong, drop_cong,
  take-nil, drop-nil, take_zero, take_prefix, drop_prefix, take_all, drop_all, drop-drop, take-take,
  drop-take, take-add, take-drop-append, take-drop-take, drop-append_of_le, drop-append, not_le,
}
use mathlib.Core.Option
use kawa.Storage.Span.{Span}
use kawa.Storage.Store
use kawa.Storage.Store.{Store, static}
use kawa.Storage.Repr.{Block, Pair, Flags, is_elided, StatusLine, RequestLine, ResponseLine, pop}
use kawa.Storage.Kawa.{Kawa, push_out, push_delimiter}
use kawa.Storage.Prepare.{BlockConverter, keep}
use kawa.Protocol.Lookup.{compare_no_case}
use kawa.Protocol.H1.{push_all, text}

unfoldable pub line_stores : StatusLine → Option (List Store)
line_stores (StatusLine.request r) = some (
    text "------------ PSEUDO HEADER\n"
    ∷ text ":method: "
    ∷ r.method
    ∷ text "\n:authority: "
    ∷ r.authority
    ∷ text "\n:path: "
    ∷ r.path
    ∷ text "\n:scheme: http\n"
    ∷ [])
line_stores (StatusLine.response r) =
    some (text "------------ PSEUDO HEADER\n" ∷ text ":status: " ∷ r.status ∷ text "\n" ∷ [])
line_stores StatusLine.unknown = none

crumb_stores : List Pair → List Store
unfolding is_elided
crumb_stores [] = []
crumb_stores (c ∷ jar) =
    (if is_elided c then [] else text "\nCookie: " ∷ c.key ∷ text "=" ∷ c.val ∷ [])
    ++ crumb_stores jar

unfoldable pub cookie_stores : List Pair → List Store
unfolding crumb_stores
cookie_stores [] = []
cookie_stores (c ∷ jar) = text "------------ HEADER" ∷ (crumb_stores (c ∷ jar) ++ (text "\n" ∷ []))

-- The headers of a connection, which HTTP/2 does not carry.
unfoldable pub is_connection_header : Bytes → Bytes → Bool
is_connection_header key val =
    compare_no_case key (codes "connection")
    || compare_no_case key (codes "host")
    || compare_no_case key (codes "http2-settings")
    || compare_no_case key (codes "keep-alive")
    || compare_no_case key (codes "proxy-connection")
    || (compare_no_case key (codes "te") && not (compare_no_case val (codes "trailers")))
    || compare_no_case key (codes "trailer")
    || compare_no_case key (codes "transfer-encoding")
    || compare_no_case key (codes "upgrade")

-- `data` is taken of the key and of the value; it panics on an `Empty` value.
unfoldable pub header_stores : Span → Pair → Option (List Store)
unfolding is_elided is_connection_header compare_no_case
header_stores buf p =
    let kept = do
      key ← Store.data_of p.key buf
      val ← Store.data_of p.val buf
      some (
          if is_connection_header key val
          then []
          else text "------------ HEADER\n" ∷ p.key ∷ text ": " ∷ p.val ∷ text "\n" ∷ [])
    in if is_elided p then some [] else kept

unfoldable pub flags_stores : Flags → List Store
flags_stores f =
    (if f.end_header then text "------------ END HEADER\n" ∷ [] else [])
    ++ (if f.end_stream then text "------------ END STREAM\n" ∷ [] else [])

abbrev pub with_jar : Kawa → List Pair → Kawa
with_jar k jar = record k { detached = record (k.detached) { jar = jar } }

abbrev pub with_line : Kawa → StatusLine → Kawa
with_line k line = record k { detached = record (k.detached) { status_line = line } }

-- Every branch returns true, to go on.
unfoldable pub convert : Block → Kawa → Option Kawa
unfolding push_all line_stores cookie_stores header_stores flags_stores pop push_delimiter
convert Block.status_line k =
    let (left, line) = pop k.detached.status_line in
    Option.map (push_all (with_line k left)) (line_stores line)
convert Block.cookies k = some (push_all (with_jar k []) (cookie_stores k.detached.jar))
convert (Block.header p) k = Option.map (push_all k) (header_stores k.storage.buffer p)
convert (Block.chunk_header size) k = some k
convert (Block.chunk part) k =
    some (push_delimiter (push_all k (text "------------ DATA\n" ∷ part ∷ text "\n" ∷ [])))
convert (Block.flags f) k =
    let k' = push_all k (flags_stores f) in
    some (if f.end_header || f.end_stream then push_delimiter k' else k')

unfoldable pub call : Unit {0} → Block → Kawa → Option (Unit {0} × Kawa × Bool)
unfolding convert
call c b k = Option.map (λ k'. (tt, k', true)) (convert b k)

abbrev pub h2_converter : BlockConverter (Unit {0})
h2_converter = record { initialize = keep; call = call; finalize = keep }
