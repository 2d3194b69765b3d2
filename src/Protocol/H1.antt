-- ===== src/Protocol/H1.antt =====
-- `H1BlockConverter` of `src/protocol/h1/converter.rs`: blocks back to HTTP/1 text.
pub mod Output
pub mod Wire
pub mod Writes
use kawa.Prelude.{
  Run, done, panic, out_of_fuel, to_run, then_run, codes, digit, push_digit, parse_digits,
  parse_uint, max_u16, max_usize, ℕ, zero, suc, ◌+◌, ◌-◌, ◌*◌, ◌/◌, ◌%◌, ◌^◌, ◌≤◌, ◌<◌, min, ◌≡◌,
  refl, sym, ap, ap₂, ◌∙◌, subst, ◌≢◌, ◌↔◌, ◌⊎◌, inl, inr, Bool, true, false, not, ◌&&◌, ◌||◌,
  Option, none, some, List, [], ◌∷◌, ◌++◌, map, append-nil, append_assoc, arith, ltb, leb, ◌==◌,
  if◌then◌else◌, ltb→lt, lt→ltb, le→ltb, leb→le, le→leb, lt→leb, ==_iff, Bool-cases, Option-cases,
  ◌>>=◌, ◌>>◌, bind-eq-some, max64, max32, add64, sub64, mul64, add32, sub32, to_u32, sub64-eq-sub,
  sub32-eq-sub, Bytes, length, get_elem?, set, take, drop, replicate, All, length-append,
  length-take, length-drop, length-set, length-replicate, take-append-drop, take_cong, drop_cong,
  take-nil, drop-nil, take_zero, take_prefix, drop_prefix, take_all, drop_all, drop-drop, take-take,
  drop-take, take-add, take-drop-append, take-drop-take, drop-append_of_le, drop-append, not_le,
}
use mathlib.Core.Option
use kawa.Storage.Store
use kawa.Storage.Store.{Store, static}
use kawa.Storage.OutBlock.{OutBlock}
use kawa.Storage.Repr.{
  Block, Pair, Flags, is_elided, StatusLine, RequestLine, ResponseLine, Version, pop,
}
use kawa.Storage.Kawa.{Kawa, push_out, is_streaming}
use kawa.Storage.Prepare.{BlockConverter, keep}
use Prim.Native.String.{String}

-- `Version::as_store`, unreachable at an unknown version.
unfoldable pub as_store : Version → Option Store
as_store Version.v10 = some (static (codes "HTTP/1.0"))
as_store Version.v11 = some (static (codes "HTTP/1.1"))
as_store Version.v20 = some (static (codes "HTTP/1.1"))
as_store Version.unknown = none

abbrev pub text : String → Store
text s = static (codes s)

-- Successive calls of `push_out`.
unfoldable pub push_all : Kawa → List Store → Kawa
unfolding push_out
push_all k [] = k
push_all k (s ∷ ss) = push_all (push_out k s) ss

-- The stores of a status line.
unfoldable pub line_stores : StatusLine → Option (List Store)
unfolding as_store
line_stores (StatusLine.request r) = do
  version ← as_store r.version
  some (
      r.method
      ∷ text " "
      ∷ r.uri
      ∷ text " "
      ∷ version
      ∷ text "\r\nHost: "
      ∷ r.authority
      ∷ text "\r\n"
      ∷ [])
line_stores (StatusLine.response r) = do
  version ← as_store r.version
  some (version ∷ text " " ∷ r.status ∷ text " " ∷ r.reason ∷ text "\r\n" ∷ [])
line_stores StatusLine.unknown = none

-- The loop over the cookies that are not elided.
unfoldable pub crumb_stores : Bool → List Pair → List Store
unfolding is_elided
crumb_stores first [] = []
crumb_stores first (c ∷ jar) =
    if is_elided c
    then crumb_stores first jar
    else ((if first then [] else text "; " ∷ [])
        ++ (c.key ∷ text "=" ∷ c.val ∷ crumb_stores false jar))

unfoldable pub cookie_stores : List Pair → List Store
unfolding crumb_stores
cookie_stores [] = []
cookie_stores (c ∷ jar) = text "Cookie: " ∷ (crumb_stores true (c ∷ jar) ++ (text "\r\n" ∷ []))

unfoldable pub header_stores : Pair → List Store
unfolding is_elided
header_stores p = if is_elided p then [] else p.key ∷ text ": " ∷ p.val ∷ text "\r\n" ∷ []

unfoldable pub flags_stores : Bool → Flags → List Store
flags_stores streaming f =
    (if streaming && f.end_body then text "0\r\n" ∷ [] else [])
    ++ (if f.end_header || f.end_chunk then text "\r\n" ∷ [] else [])

abbrev with_jar : Kawa → List Pair → Kawa
with_jar k jar = record k { detached = record (k.detached) { jar = jar } }

abbrev with_line : Kawa → StatusLine → Kawa
with_line k line = record k { detached = record (k.detached) { status_line = line } }

-- Every branch returns true, to go on.
convert : Block → Kawa → Option Kawa
unfolding push_all line_stores cookie_stores header_stores flags_stores pop is_streaming
convert Block.status_line k =
    let (left, line) = pop k.detached.status_line in
    Option.map (push_all (with_line k left)) (line_stores line)
convert Block.cookies k = some (push_all (with_jar k []) (cookie_stores k.detached.jar))
convert (Block.header p) k = some (push_all k (header_stores p))
convert (Block.chunk_header size) k = some (push_all k (size ∷ text "\r\n" ∷ []))
convert (Block.chunk part) k = some (push_all k (part ∷ []))
convert (Block.flags f) k = some (push_all k (flags_stores (is_streaming k) f))

unfoldable pub call : Unit {0} → Block → Kawa → Option (Unit {0} × Kawa × Bool)
unfolding convert
call c b k = Option.map (λ k'. (tt, k', true)) (convert b k)

abbrev pub h1_converter : BlockConverter (Unit {0})
h1_converter = record { initialize = keep; call = call; finalize = keep }
