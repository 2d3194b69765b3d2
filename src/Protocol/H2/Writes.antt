-- ===== src/Protocol/H2/Writes.antt =====
-- `prepare` with the HTTP/2 debug converter writes the text of the message.
use kawa.Prelude.{
  Run, done, panic, out_of_fuel, to_run, then_run, ℕ, zero, suc, ◌<◌, ◌≡◌, refl, sym, subst, inl,
  inr, Bool, true, false, ◌||◌, Option, none, some, List, [], ◌∷◌, ◌++◌, append-nil, arith,
  if◌then◌else◌, Bool-cases, length, All,
}
use mathlib.Core.Option
use kawa.Storage.Buffer.{Buffer}
use kawa.Storage.Repr.{Block, Flags}
use kawa.Storage.Kawa.{Kawa, push_delimiter}
use kawa.Storage.Prepare.{prepare, prepare_loop, pop_block}
use kawa.Protocol.H1.{push_all, text}
use kawa.Protocol.H1.Wire.{spent}
use kawa.Protocol.H1.Writes.{pop-spent}
use kawa.Protocol.H2.{
  line_stores, cookie_stores, header_stores, flags_stores, convert, call, h2_converter,
}
use kawa.Protocol.H2.Wire.{Marked, flags_marked, wire, HeaderFits}
use kawa.Protocol.H2.Texts.{line_lem, cookie_lem, header_lem}
use kawa.Protocol.H2.Blocks.{WritesMarked, Rest, block_lem, delimited_lem, option_lem}

abbrev AllFit : Kawa → List Block → Type 0
AllFit k = All (HeaderFits (length k.storage.buffer.bytes))

-- The loop on the blocks behind, by induction.
Rest-of :
    (k : Kawa) (bs : List Block) (fuel : ℕ)
    → ((j : Kawa)
        → j.blocks ≡ bs
        → AllFit j bs
        → WritesMarked j
            (wire j.storage.buffer.bytes j.detached.status_line j.detached.jar bs)
            (prepare_loop h2_converter fuel tt j))
    → AllFit k bs
    → Rest k bs fuel
Rest-of k bs fuel ih f j e s =
    subst
      (λ (z : Buffer).
        WritesMarked j (wire z.buffer.bytes j.detached.status_line j.detached.jar bs)
          (prepare_loop h2_converter fuel tt j))
      s (ih j e (subst (λ (z : Buffer). All (HeaderFits (length z.buffer.bytes)) bs) (sym s) f))

-- What a run writes does not hang on the blocks that it starts from.
same_lem :
    (k : Kawa) (bs bs' : List Block) (w : Option Marked) (r : Run (Unit {0} × Kawa))
    → WritesMarked (record k { blocks = bs }) w r
    → WritesMarked (record k { blocks = bs' }) w r
same_lem k bs bs' (some ms) (done x) q = q
same_lem k bs bs' (some ms) panic q = absurd q
same_lem k bs bs' (some ms) out_of_fuel q = absurd q
same_lem k bs bs' none (done x) q = absurd q
same_lem k bs bs' none panic q = tt
same_lem k bs bs' none out_of_fuel q = absurd q

flags_step :
    (k : Kawa) (bs : List Block) (g : Flags) (fuel : ℕ)
    → Rest k bs fuel
    → WritesMarked k
        (Option.map
          (λ rest. flags_marked g ++ rest)
          (wire k.storage.buffer.bytes k.detached.status_line k.detached.jar bs))
        (prepare_loop h2_converter fuel tt (
          if g.end_header || g.end_stream
          then push_delimiter (push_all (record k { blocks = bs }) (flags_stores g))
          else push_all (record k { blocks = bs }) (flags_stores g)))
unfolding flags_stores
flags_step k bs g fuel ih = elim (Bool-cases g.end_header) [
  | inl y ↦ elim (Bool-cases g.end_stream) [
    | inl z ↦
        rw (y, z)
          (delimited_lem k bs
            (text "------------ END HEADER\n" ∷ text "------------ END STREAM\n" ∷ []) _ fuel refl
            ih)
    | inr z ↦ rw (y, z) (delimited_lem k bs (text "------------ END HEADER\n" ∷ []) _ fuel refl ih)
  ]
  | inr y ↦ elim (Bool-cases g.end_stream) [
    | inl z ↦ rw (y, z) (delimited_lem k bs (text "------------ END STREAM\n" ∷ []) _ fuel refl ih)
    | inr z ↦ rw (y, z) (block_lem k bs k.detached [] [] fuel refl ih)
  ]
]

loop-WritesMarked :
    (bs : List Block) (fuel : ℕ) (k : Kawa)
    → k.blocks ≡ bs
    → length bs < fuel
    → AllFit k bs
    → WritesMarked k
        (wire k.storage.buffer.bytes k.detached.status_line k.detached.jar bs)
        (prepare_loop h2_converter fuel tt k)
unfolding prepare_loop pop_block call convert
loop-WritesMarked bs zero k e h f = absurd (omega arith)
loop-WritesMarked [] (suc fuel) k e h f = rw (e, pop_block) (sym (append-nil _), refl, refl)
loop-WritesMarked (Block.status_line ∷ bs) (suc fuel) k e h f =
    let ih = Rest-of k bs fuel (λ j e f. loop-WritesMarked bs fuel j e (omega arith) f) f.1 in
    rw (e, pop_block)
      (subst
        (λ p.
          WritesMarked k
            (wire k.storage.buffer.bytes k.detached.status_line k.detached.jar
              (Block.status_line ∷ bs))
            (elim (Option.map {B = Unit {0} × Kawa × Bool} (λ j. (tt, j, true))
              (Option.map
                (push_all
                  (record k { blocks = bs; detached = record (k.detached) { status_line = p.0 } }))
                (line_stores p.1))) [
                  | none ↦ panic
                  | some (c', k'', more) ↦ elim more [
                    | true ↦ prepare_loop h2_converter fuel c' k''
                    | false ↦ done (c', k'')
                  ]
                ]))
        (sym (pop-spent k.detached.status_line))
        (option_lem k bs (record (k.detached) { status_line = spent k.detached.status_line })
          (line_stores k.detached.status_line) _ fuel
          (line_lem k.storage.buffer.bytes k.detached.status_line) ih))
loop-WritesMarked (Block.cookies ∷ bs) (suc fuel) k e h f =
    let ih = Rest-of k bs fuel (λ j e f. loop-WritesMarked bs fuel j e (omega arith) f) f.1 in
    rw (e, pop_block)
      (block_lem (record k { blocks = Block.cookies ∷ bs }) bs (record (k.detached) { jar = [] })
        (cookie_stores k.detached.jar) _ fuel (cookie_lem k.storage.buffer.bytes k.detached.jar) ih)
loop-WritesMarked (Block.header p ∷ bs) (suc fuel) k e h f =
    let ih = Rest-of k bs fuel (λ j e f. loop-WritesMarked bs fuel j e (omega arith) f) f.1 in
    rw (e, pop_block)
      (option_lem (record k { blocks = Block.header p ∷ bs }) bs k.detached
        (header_stores k.storage.buffer p) _ fuel (header_lem k.storage.buffer p f.0.0 f.0.1) ih)
loop-WritesMarked (Block.chunk_header size ∷ bs) (suc fuel) k e h f =
    let ih = Rest-of k bs fuel (λ j e f. loop-WritesMarked bs fuel j e (omega arith) f) f.1 in
    rw (e, pop_block)
      (same_lem k bs (Block.chunk_header size ∷ bs) _ _ (ih (record k { blocks = bs }) refl refl))
loop-WritesMarked (Block.chunk part ∷ bs) (suc fuel) k e h f =
    let ih = Rest-of k bs fuel (λ j e f. loop-WritesMarked bs fuel j e (omega arith) f) f.1 in
    rw (e, pop_block)
      (delimited_lem (record k { blocks = Block.chunk part ∷ bs }) bs
        (text "------------ DATA\n" ∷ part ∷ text "\n" ∷ []) _ fuel refl ih)
loop-WritesMarked (Block.flags g ∷ bs) (suc fuel) k e h f =
    let ih = Rest-of k bs fuel (λ j e f. loop-WritesMarked bs fuel j e (omega arith) f) f.1 in
    rw (e, pop_block) (flags_step (record k { blocks = Block.flags g ∷ bs }) bs g fuel ih)

-- `prepare` with the HTTP/2 debug converter, on fuel above the number of blocks, ends, where the
-- stores of the headers refer into the buffer or into their own bytes. Behind the output that was
-- there it queues the text of the blocks in their order, with a delimiter behind each chunk and
-- behind the last line of the headers and of the message: the pseudo headers of the status line, the
-- cookies, and the headers but those of a connection. It leaves no block. It panics exactly when
-- an unknown status line is to be written, or a header that has a key and an `Empty` value.
pub h2_prepare-WritesMarked :
    (fuel : ℕ) (k : Kawa)
    → length k.blocks < fuel
    → All (HeaderFits (length k.storage.buffer.bytes)) k.blocks
    → WritesMarked k
        (wire k.storage.buffer.bytes k.detached.status_line k.detached.jar k.blocks)
        (prepare h2_converter fuel tt k)
unfolding prepare
h2_prepare-WritesMarked fuel k h f = finish _ _ (loop-WritesMarked k.blocks fuel k refl h f)
  where
    finish :
        (w : Option Marked) (r : Run (Unit {0} × Kawa))
        → WritesMarked k w r
        → WritesMarked k w (then_run r (λ t. to_run (h2_converter.finalize t.0 t.1)))
    finish (some ms) (done (u, j)) q = q
    finish (some ms) panic q = absurd q
    finish (some ms) out_of_fuel q = absurd q
    finish none (done x) q = absurd q
    finish none panic q = tt
    finish none out_of_fuel q = absurd q
