-- ===== src/Storage/Debug/Panics.antt =====
-- When `Kawa::debug` panics.
use kawa.Prelude.{
  codes, ℕ, ◌+◌, ◌<◌, ◌≡◌, refl, sym, ap, ◌∙◌, ◌↔◌, inl, inr, true, ◌&&◌, Option, some, List, [],
  ◌∷◌, ◌++◌, arith, ltb, leb, ltb→lt, lt→ltb, Bool-cases, max32, Bytes, length, All,
}
use Prim.Native.String.{String}
use kawa.Storage.Span.{Span, range}
use kawa.Storage.Slice.{Slice, data_opt_lem}
use kawa.Storage.Store.{Store}
use kawa.Storage.Buffer.{capacity}
use kawa.Storage.OutBlock.{OutBlock}
use kawa.Storage.Repr.{Block, Pair, StatusLine}
use kawa.Storage.Kawa.{Kawa}
use kawa.Storage.Debug.{
  Text, Format, write_all, put, field, close, entries, slice_text, halves_text, store_text,
  store_field, pair_text, chunk_header_text, chunk_text, line_text, block_text, out_text,
  flags_text, bracketed, debug,
}
use kawa.Storage.Debug.Shown.{
  IsSized, readable, IsReadable, line_shown, pair_shown, block_shown, out_shown, each, shown,
  all_readable, and_true, all_readable-append, and-eq-true, all-IsReadable, all_readable_lem,
  parts_of,
}
use kawa.Storage.Debug.Written.{
  written, all_written, written-write_all, written-field, written-buffer_text, written→some,
}

module _ (f : Format) (buf : Span) where
  written-slice_text :
      (name : String) (s : Slice) (pad : Text)
      → (s.start < max32) × (s.len < max32)
      → written (slice_text f buf name s pad) ≡ true
  unfolding slice_text all_written written field close
  written-slice_text name s pad (hs, hl) = elim (data_opt_lem s buf hs hl) [
    | inl (h, e) ↦ rw (written-write_all, e) refl
    | inr (h, e) ↦ rw (written-write_all, e) refl
  ]

  written-halves_text :
      (name : String) (bytes : Bytes) (index : ℕ)
      → written (halves_text f buf name bytes index) ≡ leb index (length bytes)
  unfolding halves_text all_written written range
  written-halves_text name bytes index =
      let front : leb 0 index ≡ true = ground arith in
      elim (Bool-cases (leb index (length bytes))) [
        | inl h ↦
            let z : leb (length bytes) (length bytes) ≡ true = ground arith in
            rw (written-write_all, front, h, z) refl
        | inr h ↦ rw (written-write_all, front, h) refl
      ]

  written-store_text :
      (s : Store) (pad : Text) → IsSized s → written (store_text f buf s pad) ≡ readable s
  unfolding store_text written readable IsSized
  written-store_text Store.empty pad h = refl
  written-store_text (Store.slice s) pad h = written-slice_text "Store::Slice {" s pad h
  written-store_text (Store.detached s) pad h = written-slice_text "Store::Deported {" s pad h
  written-store_text (Store.static bytes) pad h = refl
  written-store_text (Store.alloc bytes index) pad h = written-halves_text "Store::Vec(" bytes index
  written-store_text (Store.shared bytes index) pad h =
      written-halves_text "Store::Shared(" bytes index

  written-store_field :
      (sep : String) (pad : Text) (name : String) (s : Store)
      → IsSized s
      → written (store_field f buf sep pad name s) ≡ readable s
  written-store_field sep pad name s h =
      written-field sep pad name (store_text f buf s (pad ++ codes "  "))
      ∙ written-store_text s (pad ++ codes "  ") h

  written-pair_text :
      (name : String) (p : Pair) (pad : Text)
      → All IsSized (pair_shown p)
      → written (pair_text f buf name p pad) ≡ all_readable (pair_shown p)
  unfolding pair_text pair_shown all_readable all_written written close
  written-pair_text name p pad (h, (h', u)) =
      rw
        (
          written-write_all,
          written-store_field "\n" pad "key" p.key h,
          written-store_field ",\n" pad "val" p.val h',
        )
        refl

  written-line_text :
      (line : StatusLine) (pad : Text)
      → All IsSized (line_shown line)
      → written (line_text f buf line pad) ≡ all_readable (line_shown line)
  unfolding line_text line_shown all_readable all_written written close field
  written-line_text StatusLine.unknown pad h = refl
  written-line_text (StatusLine.request r) pad (hm, (ha, (hp, (hu, u)))) =
      rw
        (
          written-write_all,
          written-store_field ",\n" pad "method" r.method hm,
          written-store_field ",\n" pad "authority" r.authority ha,
          written-store_field ",\n" pad "path" r.path hp,
          written-store_field ",\n" pad "uri" r.uri hu,
        )
        refl
  written-line_text (StatusLine.response r) pad (hs, (hr, u)) =
      rw
        (
          written-write_all,
          written-store_field ",\n" pad "status" r.status hs,
          written-store_field ",\n" pad "reason" r.reason hr,
        )
        refl

  written-block_text :
      (pad : Text) (b : Block)
      → All IsSized (block_shown b)
      → written (block_text f buf pad b) ≡ all_readable (block_shown b)
  unfolding block_text block_shown chunk_text chunk_header_text flags_text all_readable all_written
      written close
  written-block_text pad Block.status_line h = refl
  written-block_text pad Block.cookies h = refl
  written-block_text pad (Block.header p) h = written-pair_text "Header" p pad h
  written-block_text pad (Block.chunk s) (h, u) =
      rw (written-write_all, written-store_field "\n" pad "data" s h) refl
  written-block_text pad (Block.chunk_header s) (h, u) =
      rw (written-write_all, written-store_field "\n" pad "length" s h) refl
  written-block_text pad (Block.flags g) h = refl

  written-out_text :
      (pad : Text) (o : OutBlock)
      → All IsSized (out_shown o)
      → written (out_text f buf pad o) ≡ all_readable (out_shown o)
  unfolding out_text out_shown all_readable written
  written-out_text pad OutBlock.delimiter h = refl
  written-out_text pad (OutBlock.store s) (h, u) =
      written-store_text s pad h ∙ sym (and_true (readable s))

-- A loop writes when each entry does.
module _ {ℓ} {A : Type ℓ} (parts : A → List Store) (show : A → Option Text) (pad : Text)
    (show_lem : (x : A) → All IsSized (parts x) → written (show x) ≡ all_readable (parts x)) where
  written-entries :
      (n i : ℕ) (xs : List A)
      → All IsSized (each parts xs)
      → all_written (entries show pad n i xs) ≡ all_readable (each parts xs)
  unfolding entries each all_written written all_readable
  written-entries n i [] h = refl
  written-entries n i (x ∷ xs) h =
      let (hx, hxs) = parts_of (parts x) (each parts xs) h in
      rw (show_lem x hx, written-entries n (i + 1) xs hxs, all_readable-append) refl

  written-bracketed :
      (name : String) (xs : List A)
      → All IsSized (each parts xs)
      → written (
          field ",\n" pad name
            (write_all (put "[" ∷ write_all (entries show pad (length xs) 0 xs) ∷ put "]" ∷ [])))
        ≡ all_readable (each parts xs)
  unfolding all_written written
  written-bracketed name xs h =
      rw (written-field, written-write_all, written-write_all, written-entries (length xs) 0 xs h)
        (and_true (all_readable (each parts xs)))

module _ (f : Format) (k : Kawa) (pad : Text) where
  written-debug :
      All IsSized (shown k)
      → written (debug f k pad) ≡ (ltb 0 (capacity k.storage) && all_readable (shown k))
  unfolding debug bracketed shown all_readable all_written written close
  written-debug h =
      let buf = k.storage.buffer in
      let inner = pad ++ codes "    " in
      let lines = line_shown k.detached.status_line in
      let jar = each pair_shown k.detached.jar in
      let blocks = each block_shown k.blocks in
      let out = each out_shown k.out in
      let (hl, h1) = parts_of lines (jar ++ (blocks ++ out)) h in
      let (hj, h2) = parts_of jar (blocks ++ out) h1 in
      let (hb, ho) = parts_of blocks out h2 in
      rw
        (
          written-write_all,
          written-field,
          written-buffer_text,
          written-field,
          written-line_text f buf k.detached.status_line (pad ++ codes "  ") hl,
          written-bracketed pair_shown (λ c. pair_text f buf "Cookie" c inner) pad
              (λ c. written-pair_text f buf "Cookie" c inner) "jar" k.detached.jar hj,
          written-bracketed block_shown (block_text f buf inner) pad
              (written-block_text f buf inner) "blocks" k.blocks hb,
          written-bracketed out_shown (out_text f buf inner) pad (written-out_text f buf inner)
              "out" k.out ho,
          all_readable-append,
          all_readable-append,
          all_readable-append,
          and_true,
        )
        refl

-- `debug` returns a text exactly when the buffer has capacity, by which the gauge divides, and the
-- index of each `Alloc` and `Shared` that is written is in its bytes; else it panics. A slice out of
-- the buffer is no panic. The slices have `u32` fields.
pub debug_returns :
    (f : Format) (k : Kawa) (pad : Text)
    → All IsSized (shown k)
    → ((0 < capacity k.storage) × All IsReadable (shown k))
      ↔ ((text : Text) × (debug f k pad ≡ some text))
unfolding written
debug_returns f k pad h = (
  (λ r.
      written→some (debug f k pad)
        (rw (written-debug f k pad h, lt→ltb _ _ r.0, all_readable_lem (shown k) r.1) refl)),
  (λ r.
      let e = sym (written-debug f k pad h) ∙ ap written r.1 in
      let (a, b) = and-eq-true (ltb 0 (capacity k.storage)) (all_readable (shown k)) e in
      (ltb→lt _ _ a, all-IsReadable (shown k) b)),
)
