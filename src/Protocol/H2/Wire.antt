-- ===== src/Protocol/H2/Wire.antt =====
-- What the HTTP/2 debug converter writes, as text with delimiters in it: a description of its own,
-- over the contents of the stores.
use kawa.Prelude.{
  codes, ℕ, Bool, false, not, ◌&&◌, ◌||◌, Option, none, some, List, [], ◌∷◌, ◌++◌, if◌then◌else◌,
  Bytes,
}
use mathlib.Core.Option
use kawa.Storage.Store
use kawa.Storage.Store.{Store}
use kawa.Storage.Store.Content.{content, Fits}
use kawa.Storage.OutBlock.{OutBlock}
use kawa.Storage.Repr.{Block, Pair, Flags, StatusLine}
use kawa.Protocol.Lookup.{compare_no_case}
use kawa.Protocol.H1.Wire.{spent}

-- A text with delimiters: a byte, or `none` for a delimiter.
abbrev pub Marked : Type 0
Marked = List (Option ℕ)

abbrev pub plain : Bytes → Marked
plain [] = []
plain (c ∷ cs) = some c ∷ plain cs

abbrev pub delimiter : Marked
delimiter = none ∷ []

-- A queue as such a text.
abbrev pub marked : Bytes → List OutBlock → Marked
marked buf [] = []
marked buf (OutBlock.delimiter ∷ out) = none ∷ marked buf out
marked buf (OutBlock.store s ∷ out) = plain (content buf s) ++ marked buf out

-- The headers of a connection, which are not written.
abbrev pub connection_names : List Bytes
connection_names =
    codes "connection"
    ∷ codes "host"
    ∷ codes "http2-settings"
    ∷ codes "keep-alive"
    ∷ codes "proxy-connection"
    ∷ codes "trailer"
    ∷ codes "transfer-encoding"
    ∷ codes "upgrade"
    ∷ []

abbrev pub is_named : Bytes → List Bytes → Bool
is_named key [] = false
is_named key (name ∷ names) = compare_no_case key name || is_named key names

-- `TE` is written where it is `trailers`.
abbrev pub is_hidden : Bytes → Bytes → Bool
is_hidden key val =
    is_named key connection_names
    || (compare_no_case key (codes "te") && not (compare_no_case val (codes "trailers")))

-- Behind the last line of the headers and of the message stands a delimiter.
abbrev pub flags_marked : Flags → Marked
flags_marked f =
    plain (
      (if f.end_header then codes "------------ END HEADER\n" else [])
      ++ (if f.end_stream then codes "------------ END STREAM\n" else []))
    ++ (if f.end_header || f.end_stream then delimiter else [])

module _ (buf : Bytes) where
  abbrev pub line_text : StatusLine → Option Bytes
  line_text (StatusLine.request r) = some (
      codes "------------ PSEUDO HEADER\n:method: "
      ++ (content buf r.method
          ++ (codes "\n:authority: "
              ++ (content buf r.authority
                  ++ (codes "\n:path: " ++ (content buf r.path ++ codes "\n:scheme: http\n"))))))
  line_text (StatusLine.response r) =
      some (codes "------------ PSEUDO HEADER\n:status: " ++ (content buf r.status ++ codes "\n"))
  line_text StatusLine.unknown = none

  -- The crumbs that are not elided, on a line each.
  abbrev pub crumbs : List Pair → Bytes
  crumbs [] = []
  crumbs (c ∷ jar) =
      if Store.is_empty c.key
      then crumbs jar
      else codes "\nCookie: "
        ++ (content buf c.key ++ (codes "=" ++ (content buf c.val ++ crumbs jar)))

  abbrev pub cookie_text : List Pair → Bytes
  cookie_text [] = []
  cookie_text (c ∷ jar) = codes "------------ HEADER" ++ (crumbs (c ∷ jar) ++ codes "\n")

  -- There is none for a header that has a key and an `Empty` value.
  abbrev pub header_text : Pair → Option Bytes
  header_text p =
      if Store.is_empty p.key
      then some []
      else if Store.is_empty p.val
      then none
      else some (
          if is_hidden (content buf p.key) (content buf p.val)
          then []
          else codes "------------ HEADER\n"
            ++ (content buf p.key ++ (codes ": " ++ (content buf p.val ++ codes "\n"))))

  -- The text of the blocks, with the line and the jar that they refer to. Chunk headers are not
  -- written, and a delimiter stands behind each chunk.
  abbrev pub wire : StatusLine → List Pair → List Block → Option Marked
  wire line jar [] = some []
  wire line jar (Block.status_line ∷ bs) = elim (line_text line) [
    | none ↦ none
    | some t ↦ Option.map (λ rest. plain t ++ rest) (wire (spent line) jar bs)
  ]
  wire line jar (Block.cookies ∷ bs) =
      Option.map (λ rest. plain (cookie_text jar) ++ rest) (wire line [] bs)
  wire line jar (Block.header p ∷ bs) = elim (header_text p) [
    | none ↦ none
    | some t ↦ Option.map (λ rest. plain t ++ rest) (wire line jar bs)
  ]
  wire line jar (Block.chunk_header s ∷ bs) = wire line jar bs
  wire line jar (Block.chunk s ∷ bs) =
      Option.map
        (λ rest.
          (plain (codes "------------ DATA\n" ++ (content buf s ++ codes "\n")) ++ delimiter)
          ++ rest)
        (wire line jar bs)
  wire line jar (Block.flags f ∷ bs) =
      Option.map (λ rest. flags_marked f ++ rest) (wire line jar bs)

-- The stores of the headers refer into the buffer or into their own bytes.
abbrev pub HeaderFits : ℕ → Block → Type 0
HeaderFits size (Block.header p) = Fits size p.key × Fits size p.val
HeaderFits size _ = Unit
