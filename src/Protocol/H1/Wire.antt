-- ===== src/Protocol/H1/Wire.antt =====
-- The bytes that the HTTP/1 converter writes, as the text of a message: a description of its own,
-- over the contents of the stores.
use kawa.Prelude.{
  codes, Bool, true, false, ◌&&◌, ◌||◌, Option, none, some, List, [], ◌∷◌, ◌++◌, if◌then◌else◌,
  Bytes,
}
use mathlib.Core.Option
use kawa.Storage.Store
use kawa.Storage.Store.{Store}
use kawa.Storage.Store.Content.{content}
use kawa.Storage.Repr.{Block, Pair, Flags, BodySize, StatusLine, Version}

abbrev pub version_text : Version → Option Bytes
version_text Version.v10 = some (codes "HTTP/1.0")
version_text Version.v11 = some (codes "HTTP/1.1")
version_text Version.v20 = some (codes "HTTP/1.1")
version_text Version.unknown = none

-- A status line is written once: what is left of it has no content.
abbrev pub spent : StatusLine → StatusLine
spent (StatusLine.request r) = StatusLine.request (record {
  version = r.version;
  method = Store.empty;
  authority = Store.empty;
  path = Store.empty;
  uri = Store.empty;
})
spent (StatusLine.response r) =
    StatusLine.response
      (record { version = r.version; code = r.code; status = Store.empty; reason = Store.empty })
spent StatusLine.unknown = StatusLine.unknown

-- Texts with `; ` between them.
abbrev pub behind : List Bytes → Bytes
behind [] = []
behind (c ∷ cs) = codes "; " ++ (c ++ behind cs)

abbrev pub joined : List Bytes → Bytes
joined [] = []
joined (c ∷ cs) = c ++ behind cs

abbrev pub is_chunked : BodySize → Bool
is_chunked BodySize.chunked = true
is_chunked BodySize.empty = false
is_chunked (BodySize.length n) = false

-- The last chunk, and the empty line behind the headers, the trailers or a chunk.
abbrev pub flags_text : Bool → Flags → Bytes
flags_text chunked f =
    (if chunked && f.end_body then codes "0\r\n" else [])
    ++ (if f.end_header || f.end_chunk then codes "\r\n" else [])

module _ (buf : Bytes) where
  abbrev pub line_text : StatusLine → Option Bytes
  line_text (StatusLine.request r) =
      Option.map
        (λ version.
          content buf r.method
          ++ (codes " "
              ++ (content buf r.uri
                  ++ (codes " "
                      ++ (version
                          ++ (codes "\r\nHost: " ++ (content buf r.authority ++ codes "\r\n")))))))
        (version_text r.version)
  line_text (StatusLine.response r) =
      Option.map
        (λ version.
          version
          ++ (codes " "
              ++ (content buf r.status ++ (codes " " ++ (content buf r.reason ++ codes "\r\n")))))
        (version_text r.version)
  line_text StatusLine.unknown = none

  -- The crumbs that are not elided, `key=val` each.
  abbrev pub crumbs : List Pair → List Bytes
  crumbs [] = []
  crumbs (c ∷ jar) =
      if Store.is_empty c.key
      then crumbs jar
      else (content buf c.key ++ (codes "=" ++ content buf c.val)) ∷ crumbs jar

  abbrev pub cookie_text : List Pair → Bytes
  cookie_text [] = []
  cookie_text (c ∷ jar) = codes "Cookie: " ++ (joined (crumbs (c ∷ jar)) ++ codes "\r\n")

  abbrev pub header_text : Pair → Bytes
  header_text p =
      if Store.is_empty p.key
      then []
      else content buf p.key ++ (codes ": " ++ (content buf p.val ++ codes "\r\n"))

  -- The text of the blocks, with the line and the jar that they refer to. There is none when a line
  -- is to be written that is unknown or of an unknown version.
  abbrev pub wire : StatusLine → List Pair → BodySize → List Block → Option Bytes
  wire line jar size [] = some []
  wire line jar size (Block.status_line ∷ bs) = elim (line_text line) [
    | none ↦ none
    | some t ↦ Option.map (λ rest. t ++ rest) (wire (spent line) jar size bs)
  ]
  wire line jar size (Block.cookies ∷ bs) =
      Option.map (λ rest. cookie_text jar ++ rest) (wire line [] size bs)
  wire line jar size (Block.header p ∷ bs) =
      Option.map (λ rest. header_text p ++ rest) (wire line jar size bs)
  wire line jar size (Block.chunk_header s ∷ bs) =
      Option.map (λ rest. (content buf s ++ codes "\r\n") ++ rest) (wire line jar size bs)
  wire line jar size (Block.chunk s ∷ bs) =
      Option.map (λ rest. content buf s ++ rest) (wire line jar size bs)
  wire line jar size (Block.flags f ∷ bs) =
      Option.map (λ rest. flags_text (is_chunked size) f ++ rest) (wire line jar size bs)

  abbrev pub contents : List Store → Bytes
  contents [] = []
  contents (s ∷ ss) = content buf s ++ contents ss
