-- ===== src/Protocol/Headers/Sizes.antt =====
-- The size of the body that `process_headers` leaves, against the `Content-Length` headers.
use kawa.Prelude.{ℕ, ◌≤◌, ◌<◌, ◌≡◌, ◌⊎◌, Option, none, some, List}
use mathlib.Core.Option
use kawa.Storage.Span.{Span}
use kawa.Storage.Slice
use kawa.Storage.Slice.{Slice}
use kawa.Storage.Store
use kawa.Storage.Store.{Store}
use kawa.Storage.Repr.{Block, BodySize, StatusLine}
use kawa.Storage.Kawa.{Kawa}
use kawa.Protocol.Nom.{Nom}
use kawa.Protocol.Headers.{Found, process_blocks, conclude}
use kawa.Protocol.Headers.Lengths.{HasLength}

-- A response that has no body, whatever its headers say.
abbrev IsBodiless : StatusLine → Type 0
IsBodiless (StatusLine.response r) =
    (r.code ≡ 204) ⊎ (r.code ≡ 304) ⊎ ((100 ≤ r.code) × (r.code < 200))
IsBodiless _ = ⊥

-- The body has `n` bytes, is chunked, or the message has none.
abbrev pub IsSize : ℕ → StatusLine → BodySize → Type 0
IsSize n line size = HasLength n size ⊎ (IsBodiless line × (size ≡ BodySize.length 0))

module _ (nom : Nom) (k k' : Kawa) where
  -- What is known of a run that refuses no header.
  abbrev Accepted : Type 0
  Accepted =
      (st st' : Found) × (bs : List Block) × (path : Store) × (process_blocks nom k.storage.buffer
          st k.blocks
        ≡ some (st', bs, none))
      × (conclude (record k { blocks = bs; body_size = st'.body_size }) st'.authority path
            k.detached.status_line
          ≡ k')
