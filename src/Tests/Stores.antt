-- ===== src/Tests/Stores.antt =====
-- The theorems on `Slice` and `Store`, applied to parts of a small buffer.
use kawa.Prelude.{codes, ◌+◌, ◌<◌, ◌≡◌, refl, ◌⊎◌, inr, none, some, arith, Bytes, length}
use kawa.Storage.Span.{Span, IsPart}
use kawa.Storage.Slice
use kawa.Storage.Slice.{Slice, IsInside, window, data_opt_lem, data_of-new}
use kawa.Storage.Store
use kawa.Storage.Store.{Store, slice, alloc}
use kawa.Storage.Store.Content.{content, Fits, Consumed, store_capture_lem}
use kawa.Storage.Store.Consume.{store_consume_lem}
use kawa.Storage.Store.Split.{store_split_lem, SplitAt}
use kawa.Storage.Store.Modify.{modify_writes, push_left_lem, InData}
use kawa.Storage.Buffer.Shift.{shifted}
use kawa.Tests.Buffers.{memory, memory-IsPlaced, half_parsed, half_parsed-IsValid}

-- The path `/a` of the request line.
abbrev path : Slice
path = record { start = 4; len = 2 }

path-IsInside : IsInside 16 path
path-IsInside = record { inside = omega arith; start_word = omega arith; len_word = omega arith }

abbrev path_part : Span
path_part = record { addr = 4100; bytes = codes "/a" }

path-IsPart : IsPart memory path_part
path-IsPart = record { before = codes "GET "; after = codes " HTTP/1.1_"; splits = refl; at = refl }

abbrev version : Slice
version = record { start = 7; len = 8 }

version-IsInside : IsInside 16 version
version-IsInside = record { inside = omega arith; start_word = omega arith; len_word = omega arith }

data_of-new_example :
    IsInside 16 (Slice.new memory path_part)
    × (window memory.bytes (Slice.new memory path_part) ≡ codes "/a")
    × (Slice.data_of (Slice.new memory path_part) memory ≡ some path_part)
data_of-new_example = data_of-new memory path_part memory-IsPlaced path-IsPart (omega arith)

store_capture_lem_example :
    (t : Store) × (Store.capture (slice path) memory ≡ some t)
    × ((other : Bytes) → content other t ≡ content memory.bytes (slice path))
store_capture_lem_example = store_capture_lem (slice path) memory path-IsInside

store_consume_lem_example :
    Consumed 16 memory.bytes (content memory.bytes (slice path)) 1 (Store.consume (slice path) 1)
store_consume_lem_example =
    store_consume_lem memory.bytes (omega arith) 1 (omega arith) (slice path) path-IsInside

store_split_lem_example :
    (p : Store × Store) × (Store.split (alloc (codes "chunk") 1) 2 ≡ some p)
    × SplitAt memory.bytes (alloc (codes "chunk") 1) 2 p
store_split_lem_example =
    store_split_lem memory.bytes (omega arith) 2 (alloc (codes "chunk") 1)
      (omega arith, omega arith) (omega arith)

modify_writes_example :
    (p : Bytes × Store) × (Store.modify (slice path) memory.bytes (codes "b") ≡ some p)
    × (content p.0 p.1 ≡ codes "b")
    × (length p.0 ≡ 16)
    × (window p.0 version ≡ window memory.bytes version)
modify_writes_example =
    modify_writes (slice path) memory.bytes (codes "b") version path-IsInside (inr (omega arith))
      version-IsInside

push_left_lem_example :
    (content (shifted half_parsed).buffer.bytes (Store.push_left (slice path) 4)
      ≡ content memory.bytes (slice path))
    × Fits (length (shifted half_parsed).buffer.bytes) (Store.push_left (slice path) 4)
    × InData (shifted half_parsed) (Store.push_left (slice path) 4)
push_left_lem_example =
    push_left_lem half_parsed (slice path) half_parsed-IsValid path-IsInside
      (omega arith, omega arith)

data_opt_lem_example :
    (IsInside 16 path
      × (Slice.data_opt path memory
          ≡ some (some (record { addr = 4100; bytes = window memory.bytes path }))))
    ⊎ ((16 < 4 + 2) × (Slice.data_opt path memory ≡ some none))
data_opt_lem_example = data_opt_lem path memory (omega arith) (omega arith)
