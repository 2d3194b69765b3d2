-- ===== src/Protocol/H2/Texts.antt =====
-- The stores that the HTTP/2 debug converter queues for a block have the text of the block.
use kawa.Prelude.{
  codes, ◌≡◌, refl, sym, ap, ◌∙◌, inl, inr, Bool, true, false, not, ◌&&◌, ◌||◌, none, some, List,
  [], ◌∷◌, ◌++◌, map, append_assoc, Bool-cases, Bytes, length,
}
use mathlib.Core.Option
use kawa.Storage.Span.{Span}
use kawa.Storage.Store
use kawa.Storage.Store.{Store}
use kawa.Storage.Store.Content.{content, Fits, store_data_of_lem}
use kawa.Storage.OutBlock.{OutBlock}
use kawa.Storage.Repr.{Pair, StatusLine, is_elided}
use kawa.Protocol.Lookup.{compare_no_case}
use kawa.Protocol.H1.Wire.{contents}
use kawa.Protocol.H1.Writes.{contents-append}
use kawa.Protocol.H2.{line_stores, crumb_stores, cookie_stores, is_connection_header, header_stores}
use kawa.Protocol.H2.Wire.{plain, marked, is_hidden, line_text, crumbs, cookie_text, header_text}

plain-append : (xs ys : Bytes) → plain (xs ++ ys) ≡ plain xs ++ plain ys
plain-append [] ys = refl
plain-append (x ∷ xs) ys = ap (λ z. some x ∷ z) (plain-append xs ys)

module _ (buf : Bytes) where
  pub marked-append :
      (xs ys : List OutBlock) → marked buf (xs ++ ys) ≡ marked buf xs ++ marked buf ys
  marked-append [] ys = refl
  marked-append (OutBlock.delimiter ∷ xs) ys = ap (λ z. none ∷ z) (marked-append xs ys)
  marked-append (OutBlock.store s ∷ xs) ys =
      ap (λ z. plain (content buf s) ++ z) (marked-append xs ys)
      ∙ sym (append_assoc (plain (content buf s)) (marked buf xs) (marked buf ys))

  pub marked-stores :
      (ss : List Store) → marked buf (map OutBlock.store ss) ≡ plain (contents buf ss)
  marked-stores [] = refl
  marked-stores (s ∷ ss) =
      ap (λ z. plain (content buf s) ++ z) (marked-stores ss)
      ∙ sym (plain-append (content buf s) (contents buf ss))

  pub line_lem :
      (line : StatusLine) → Option.map (contents buf) (line_stores line) ≡ line_text buf line
  unfolding line_stores
  line_lem (StatusLine.request r) = refl
  line_lem (StatusLine.response r) = refl
  line_lem StatusLine.unknown = refl

  crumbs_lem : (jar : List Pair) → contents buf (crumb_stores jar) ≡ crumbs buf jar
  unfolding crumb_stores is_elided
  crumbs_lem [] = refl
  crumbs_lem (c ∷ jar) = elim (Bool-cases (Store.is_empty c.key)) [
    | inl z ↦ rw z (crumbs_lem jar)
    | inr z ↦ rw (z, crumbs_lem jar) refl
  ]

  pub cookie_lem : (jar : List Pair) → contents buf (cookie_stores jar) ≡ cookie_text buf jar
  unfolding cookie_stores
  cookie_lem [] = refl
  cookie_lem (c ∷ jar) =
      ap (λ z. codes "------------ HEADER" ++ z)
        (contents-append buf (crumb_stores (c ∷ jar)) _
          ∙ ap (λ z. z ++ codes "\n") (crumbs_lem (c ∷ jar)))

hidden_lem : (key val : Bytes) → is_connection_header key val ≡ is_hidden key val
unfolding is_connection_header
hidden_lem key val =
    moved (compare_no_case key (codes "connection")) (compare_no_case key (codes "host"))
      (compare_no_case key (codes "http2-settings")) (compare_no_case key (codes "keep-alive"))
      (compare_no_case key (codes "proxy-connection"))
      (compare_no_case key (codes "te") && not (compare_no_case val (codes "trailers")))
      (compare_no_case key (codes "trailer")) (compare_no_case key (codes "transfer-encoding"))
      (compare_no_case key (codes "upgrade"))
  where
    moved :
        (a b c d e t f g h : Bool)
        → (a || b || c || d || e || t || f || g || h)
          ≡ ((a || (b || (c || (d || (e || (f || (g || (h || false)))))))) || t)
    moved true b c d e t f g h = refl
    moved false true c d e t f g h = refl
    moved false false true d e t f g h = refl
    moved false false false true e t f g h = refl
    moved false false false false true t f g h = refl
    moved false false false false false true true g h = refl
    moved false false false false false true false true h = refl
    moved false false false false false true false false true = refl
    moved false false false false false true false false false = refl
    moved false false false false false false true g h = refl
    moved false false false false false false false true h = refl
    moved false false false false false false false false true = refl
    moved false false false false false false false false false = refl

pub header_lem :
    (buf : Span) (p : Pair)
    → Fits (length buf.bytes) p.key
    → Fits (length buf.bytes) p.val
    → Option.map (contents buf.bytes) (header_stores buf p) ≡ header_text buf.bytes p
unfolding header_stores is_elided
header_lem buf p k v = elim (Bool-cases (Store.is_empty p.key)) [
  | inl z ↦ rw z refl
  | inr z ↦ elim (Bool-cases (Store.is_empty p.val)) [
    | inl y ↦ rw (z, store_data_of_lem p.key buf k, store_data_of_lem p.val buf v, z, y) refl
    | inr y ↦ elim (Bool-cases (is_hidden (content buf.bytes p.key) (content buf.bytes p.val))) [
      | inl h ↦
          rw (z, store_data_of_lem p.key buf k, store_data_of_lem p.val buf v, z, y, hidden_lem, h)
            refl
      | inr h ↦
          rw (z, store_data_of_lem p.key buf k, store_data_of_lem p.val buf v, z, y, hidden_lem, h)
            refl
    ]
  ]
]
