-- ===== src/Storage/Debug.antt =====
-- `src/storage/debug.rs`: a message as text for people to read, a text being its code points. Writing
-- to a `String` never fails, so a function returns what it appends; `none` is a panic. What std
-- formats is a parameter, the `{:?}` of derived `Debug`s with it.
pub mod Shown
pub mod Written
pub mod Panics
use kawa.Prelude.{
  Run, done, panic, out_of_fuel, to_run, then_run, codes, digit, push_digit, parse_digits,
  parse_uint, max_u16, max_usize, ℕ, zero, suc, ◌+◌, ◌-◌, ◌*◌, ◌/◌, ◌%◌, ◌^◌, ◌≤◌, ◌<◌, min, ◌≡◌,
  refl, sym, ap, ap₂, ◌∙◌, subst, ◌≢◌, ◌↔◌, ◌⊎◌, inl, inr, Bool, true, false, not, ◌&&◌, ◌||◌,
  Option, none, some, List, [], ◌∷◌, ◌++◌, map, append-nil, append_assoc, arith, ltb, leb, ◌==◌,
  if◌then◌else◌, ltb→lt, lt→ltb, le→ltb, leb→le, le→leb, lt→leb, ==_iff, Bool-cases, Option-cases,
  ◌>>=◌, ◌>>◌, bind-eq-some, max64, max32, add64, sub64, mul64, add32, sub32, to_u32, sub64-eq-sub,
  sub32-eq-sub, Bytes, length, get_elem?, set, take, drop, replicate, All, length-append,
  length-take, length-drop, length-set, length-replicate, take-append-drop, take_cong, drop_cong,
  take-nil, drop-nil, take_zero, take_prefix, drop_prefix, take_all, drop_all, drop-drop, take-take,
  drop-take, take-add, take-drop-append, take-drop-take, drop-append_of_le, drop-append, not_le,
}
use Prim.Native.String.{String}
use mathlib.Core.Option
use kawa.Storage.Span.{Span, range}
use kawa.Storage.Slice
use kawa.Storage.Slice.{Slice}
use kawa.Storage.Store.{Store}
use kawa.Storage.Buffer.{Buffer}
use kawa.Storage.Buffer.Meter.{meter}
use kawa.Storage.OutBlock.{OutBlock}
use kawa.Storage.Repr.{
  Kind, ParsingPhase, BodySize, Version, Block, Pair, Flags, StatusLine, RequestLine, ResponseLine,
}
use kawa.Storage.Kawa.{Kawa}

abbrev pub Text : Type 0
Text = List ℕ

-- Of std: `from_utf8`, `{}` of a number, and `{:?}` of a text and of the types that derive it.
pub record Format : Type 0 where
  pub from_utf8 : Bytes → Option Text
  pub number : ℕ → Text
  pub quoted : Text → Text
  pub kind : Kind → Text
  pub phase : ParsingPhase → Text
  pub body_size : BodySize → Text
  pub version : Version → Text

-- Successive `write_fmt`s.
unfoldable pub write_all : List (Option Text) → Option Text
write_all [] = some []
write_all (w ∷ ws) = do t ← w; rest ← write_all ws; some (t ++ rest)

abbrev pub put : String → Option Text
put s = some (codes s)

-- `"{sep}{pad}  {name}: {value}"`
unfoldable pub field : String → Text → String → Option Text → Option Text
field sep pad name value =
    Option.map (λ v. codes sep ++ (pad ++ (codes "  " ++ (codes name ++ (codes ": " ++ v))))) value

-- `",\n{pad}}}"`
unfoldable pub close : Text → Option Text
close pad = some (codes ",\n" ++ (pad ++ codes "}"))

-- A loop over a list, the entry `i` of `n` first: each entry on a line of its own, behind each a
-- comma, and a new line behind the last one.
unfoldable pub entries {ℓ} :
    {A : Type ℓ} → (A → Option Text) → Text → ℕ → ℕ → List A → List (Option Text)
entries show pad n i [] = []
entries show pad n i (x ∷ xs) =
    some (codes "\n" ++ (pad ++ codes "    "))
    ∷ show x
    ∷ some (if i == sub64 n 1 then codes ",\n" ++ (pad ++ codes "  ") else codes ",")
    ∷ entries show pad n (i + 1) xs

-- `join("|")`
unfoldable pub join : List Text → Text
join [] = []
join (t ∷ []) = t
join (t ∷ u ∷ ts) = t ++ (codes "|" ++ join (u ∷ ts))

unfoldable pub flags_text : Flags → Option Text
unfolding join
flags_text f =
    let name : Bool → String → List Text = λ flag text. if flag then codes text ∷ [] else [] in
    some (
      codes "Flags ("
      ++ (join (
            name f.end_body "BODY"
            ++ (name f.end_chunk "CHUNK"
                ++ (name f.end_header "HEADER" ++ name f.end_stream "STREAM")))
          ++ codes ")"))

unfoldable pub buffer_text : Format → Buffer → Text → Option Text
unfolding write_all field close
buffer_text f b pad = write_all (
    put "Buffer {"
    ∷ field "\n" pad "start" (some (f.number b.start))
    ∷ field ",\n" pad "head" (some (f.number b.head))
    ∷ field ",\n" pad "end" (some (f.number b.end))
    ∷ field ",\n" pad "view" (meter b 20)
    ∷ close pad
    ∷ [])

module _ (f : Format) (buf : Span) where
  unfoldable pub to_utf8 : Option Bytes → Text
  to_utf8 none = codes "[ERROR::Kawa]"
  to_utf8 (some bytes) = elim (f.from_utf8 bytes) [ some t ↦ t | none ↦ codes "[ERROR::UTF8]" ]

  -- The fields of a `Slice` or a `Detached`.
  unfoldable pub slice_text : String → Slice → Text → Option Text
  unfolding write_all field close
  slice_text name s pad = write_all (
      put name
      ∷ field "\n" pad "start" (some (f.number s.start))
      ∷ field ",\n" pad "len" (some (f.number s.len))
      ∷ field ",\n" pad "view" (
          Option.map (λ view. f.quoted (to_utf8 (Option.map (λ part. part.bytes) view)))
            (Slice.data_opt s buf))
      ∷ close pad
      ∷ [])

  -- Both halves of an `Alloc` or a `Shared`.
  unfoldable pub halves_text : String → Bytes → ℕ → Option Text
  unfolding write_all
  halves_text name bytes index =
      let half : Option Bytes → Option Text = Option.map (λ part. f.quoted (to_utf8 (some part))) in
      write_all (
        put name
        ∷ half (range bytes 0 index)
        ∷ put ", "
        ∷ half (range bytes index (length bytes))
        ∷ put ")"
        ∷ [])

  unfoldable pub store_text : Store → Text → Option Text
  unfolding slice_text halves_text
  store_text Store.empty pad = put "Store::Empty"
  store_text (Store.slice s) pad = slice_text "Store::Slice {" s pad
  store_text (Store.detached s) pad = slice_text "Store::Deported {" s pad
  store_text (Store.static bytes) pad =
      some (codes "Store::Static(" ++ (f.quoted (to_utf8 (some bytes)) ++ codes ")"))
  store_text (Store.alloc bytes index) pad = halves_text "Store::Vec(" bytes index
  store_text (Store.shared bytes index) pad = halves_text "Store::Shared(" bytes index

  -- A field that is a store, which is indented further.
  abbrev pub store_field : String → Text → String → Store → Option Text
  store_field sep pad name s = field sep pad name (store_text s (pad ++ codes "  "))

  unfoldable pub pair_text : String → Pair → Text → Option Text
  unfolding write_all field close
  pair_text name p pad = write_all (
      some (codes name ++ codes " {")
      ∷ store_field "\n" pad "key" p.key
      ∷ store_field ",\n" pad "val" p.val
      ∷ close pad
      ∷ [])

  unfoldable pub chunk_header_text : Store → Text → Option Text
  unfolding write_all field close
  chunk_header_text s pad =
      write_all (put "ChunkHeader {" ∷ store_field "\n" pad "length" s ∷ close pad ∷ [])

  unfoldable pub chunk_text : Store → Text → Option Text
  unfolding write_all field close
  chunk_text s pad = write_all (put "Chunk {" ∷ store_field "\n" pad "data" s ∷ close pad ∷ [])

  unfoldable pub line_text : StatusLine → Text → Option Text
  unfolding write_all field close
  line_text (StatusLine.request r) pad = write_all (
      put "StatusLine::Request {"
      ∷ field "\n" pad "version" (some (f.version r.version))
      ∷ store_field ",\n" pad "method" r.method
      ∷ store_field ",\n" pad "authority" r.authority
      ∷ store_field ",\n" pad "path" r.path
      ∷ store_field ",\n" pad "uri" r.uri
      ∷ close pad
      ∷ [])
  line_text (StatusLine.response r) pad = write_all (
      put "StatusLine::Response {"
      ∷ field "\n" pad "version" (some (f.version r.version))
      ∷ field ",\n" pad "code" (some (f.number r.code))
      ∷ store_field ",\n" pad "status" r.status
      ∷ store_field ",\n" pad "reason" r.reason
      ∷ close pad
      ∷ [])
  line_text StatusLine.unknown pad = put "StatusLine::Unknown"

  unfoldable pub block_text : Text → Block → Option Text
  unfolding pair_text chunk_header_text chunk_text
  block_text pad Block.status_line = put "StatusLine"
  block_text pad Block.cookies = put "Cookies"
  block_text pad (Block.header p) = pair_text "Header" p pad
  block_text pad (Block.chunk s) = chunk_text s pad
  block_text pad (Block.chunk_header s) = chunk_header_text s pad
  block_text pad (Block.flags g) = flags_text g

  unfoldable pub out_text : Text → OutBlock → Option Text
  out_text pad OutBlock.delimiter = put "DELIMITER"
  out_text pad (OutBlock.store s) = store_text s pad

-- A list in brackets, its entries indented twice.
unfoldable pub bracketed {ℓ} :
    {A : Type ℓ} → String → Text → (Text → A → Option Text) → List A → Option Text
unfolding write_all entries field
bracketed name pad show xs = field ",\n" pad name (
    write_all (
      put "["
      ∷ write_all (entries (show (pad ++ codes "    ")) pad (length xs) 0 xs)
      ∷ put "]"
      ∷ []))

unfoldable pub debug : Format → Kawa → Text → Option Text
unfolding write_all field close bracketed buffer_text line_text pair_text block_text out_text
debug f k pad =
    let buf = k.storage.buffer in
    write_all (
      put "Kawa {\n"
      ∷ field "" pad "kind" (some (f.kind k.kind))
      ∷ field ",\n" pad "buffer" (buffer_text f k.storage (pad ++ codes "  "))
      ∷ field ",\n" pad "expects" (some (f.number k.expects))
      ∷ field ",\n" pad "phase" (some (f.phase k.parsing_phase))
      ∷ field ",\n" pad "body_size" (some (f.body_size k.body_size))
      ∷ field ",\n" pad "status_line" (line_text f buf k.detached.status_line (pad ++ codes "  "))
      ∷ bracketed "jar" pad (λ inner c. pair_text f buf "Cookie" c inner) k.detached.jar
      ∷ bracketed "blocks" pad (block_text f buf) k.blocks
      ∷ bracketed "out" pad (out_text f buf) k.out
      ∷ close pad
      ∷ [])
