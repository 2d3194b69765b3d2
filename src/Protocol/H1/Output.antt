-- ===== src/Protocol/H1/Output.antt =====
-- What `prepare` with the HTTP/1 converter queues: the stores of each block in turn.
use kawa.Prelude.{
  Run, done, panic, out_of_fuel, to_run, then_run, ℕ, zero, suc, ◌<◌, ◌≡◌, refl, sym, ap, ◌∙◌, Bool,
  true, false, Option, none, some, List, [], ◌∷◌, ◌++◌, map, append-nil, append_assoc, arith,
  length,
}
use mathlib.Core.Option
use mathlib.Core.List.{map-append}
use kawa.Storage.Store.{Store}
use kawa.Storage.OutBlock.{OutBlock}
use kawa.Storage.Repr.{Block, Pair, DetachedBlocks, StatusLine, pop}
use kawa.Storage.Kawa.{Kawa, push_out, is_streaming}
use kawa.Storage.Prepare.{prepare, prepare_loop, pop_block}
use kawa.Protocol.H1.{
  push_all, line_stores, cookie_stores, header_stores, flags_stores, call, h1_converter, with_line,
  text,
}

-- What a block queues, in front of what the blocks behind it queue. The status line is used up by
-- its block and the jar by the first cookie block.
abbrev pub emit : StatusLine → List Pair → Bool → List Block → Option (List Store)
emit line jar streaming [] = some []
emit line jar streaming (Block.status_line ∷ bs) = elim (line_stores (pop line).1) [
  | none ↦ none
  | some ss ↦ Option.map (λ rest. ss ++ rest) (emit (pop line).0 jar streaming bs)
]
emit line jar streaming (Block.cookies ∷ bs) =
    Option.map (λ rest. cookie_stores jar ++ rest) (emit line [] streaming bs)
emit line jar streaming (Block.header p ∷ bs) =
    Option.map (λ rest. header_stores p ++ rest) (emit line jar streaming bs)
emit line jar streaming (Block.chunk_header size ∷ bs) =
    Option.map (λ rest. size ∷ text "\r\n" ∷ rest) (emit line jar streaming bs)
emit line jar streaming (Block.chunk part ∷ bs) =
    Option.map (λ rest. part ∷ rest) (emit line jar streaming bs)
emit line jar streaming (Block.flags f ∷ bs) =
    Option.map (λ rest. flags_stores streaming f ++ rest) (emit line jar streaming bs)

pub push_all-out :
    (k : Kawa) (ss : List Store)
    → (push_all k ss) ≡ record k { out = k.out ++ map OutBlock.store ss }
unfolding push_all
push_all-out k [] = λ i. record k { out = sym (append-nil k.out) i }
push_all-out k (s ∷ ss) =
    push_all-out (push_out k s) ss
    ∙ (λ i. record k { out = append_assoc k.out (OutBlock.store s ∷ []) (map OutBlock.store ss) i })

-- A run that queues the stores `ss` behind what was there, and leaves no block.
abbrev pub Queues : Kawa → Option (List Store) → Run (Unit {0} × Kawa) → Type 0
Queues k (some ss) (done (_, j)) =
    (j.out ≡ k.out ++ map OutBlock.store ss) × (j.blocks ≡ []) × (j.storage ≡ k.storage)
Queues k none panic = Unit
Queues k _ _ = ⊥

-- The stores of one block are queued, then those of the rest.
queue_more :
    (k k' : Kawa) (ss : List Store) (rest : Option (List Store)) (r : Run (Unit {0} × Kawa))
    → k'.out ≡ k.out ++ map OutBlock.store ss
    → k'.storage ≡ k.storage
    → Queues k' rest r
    → Queues k (Option.map (λ rest. ss ++ rest) rest) r
queue_more k k' ss (some rest) (done (u, j)) e s (a, b, c) = (
  a
      ∙ ap (λ z. z ++ map OutBlock.store rest) e
      ∙ append_assoc k.out _ _
      ∙ ap (λ z. k.out ++ z) (sym (map-append OutBlock.store ss rest)),
  b,
  c ∙ s,
)
queue_more k k' ss (some rest) panic e s q = absurd q
queue_more k k' ss (some rest) out_of_fuel e s q = absurd q
queue_more k k' ss none (done x) e s q = absurd q
queue_more k k' ss none panic e s q = tt
queue_more k k' ss none out_of_fuel e s q = absurd q

-- One block of the loop, whose stores are `ss` and which leaves `d` of the detached blocks.
queue_step :
    (k : Kawa) (bs : List Block) (d : DetachedBlocks) (ss : List Store) (fuel : ℕ)
    → ((j : Kawa)
        → j.blocks ≡ bs
        → Queues j
            (emit j.detached.status_line j.detached.jar (is_streaming j) bs)
            (prepare_loop h1_converter fuel tt j))
    → Queues k
        (Option.map (λ rest. ss ++ rest) (emit d.status_line d.jar (is_streaming k) bs))
        (prepare_loop h1_converter fuel tt (push_all (record k { blocks = bs; detached = d }) ss))
unfolding is_streaming
queue_step k bs d ss fuel ih = rw (push_all-out (record k { blocks = bs; detached = d }) ss) (
    queue_more k (record k { blocks = bs; detached = d; out = k.out ++ map OutBlock.store ss }) ss
      (emit d.status_line d.jar (is_streaming k) bs) _ refl refl (ih _ refl))

status_step :
    (k : Kawa) (bs : List Block) (line : StatusLine) (fuel : ℕ)
    → ((j : Kawa)
        → j.blocks ≡ bs
        → Queues j
            (emit j.detached.status_line j.detached.jar (is_streaming j) bs)
            (prepare_loop h1_converter fuel tt j))
    → (r : Option (List Store))
    → Queues k
        (elim r [
          | none ↦ none
          | some ss ↦ Option.map (λ rest. ss ++ rest) (emit line k.detached.jar (is_streaming k) bs)
        ])
        (elim (Option.map {B = Unit {0} × Kawa × Bool}
          (λ j. (tt, j, true))
          (Option.map (push_all (with_line (record k { blocks = bs }) line)) r)) [
            | none ↦ panic
            | some (c', k'', more) ↦ elim more [
              | true ↦ prepare_loop h1_converter fuel c' k''
              | false ↦ done (c', k'')
            ]
          ])
status_step k bs line fuel ih none = tt
status_step k bs line fuel ih (some ss) =
    queue_step k bs (record (k.detached) { status_line = line }) ss fuel ih

loop_Queues :
    (bs : List Block) (fuel : ℕ) (k : Kawa)
    → k.blocks ≡ bs
    → length bs < fuel
    → Queues k
        (emit k.detached.status_line k.detached.jar (is_streaming k) bs)
        (prepare_loop h1_converter fuel tt k)
unfolding prepare_loop pop_block call is_streaming
loop_Queues bs zero k e h = absurd (omega arith)
loop_Queues [] (suc fuel) k e h = rw (e, pop_block) (sym (append-nil k.out), refl, refl)
loop_Queues (Block.status_line ∷ bs) (suc fuel) k e h =
    rw (e, pop_block)
      (status_step (record k { blocks = Block.status_line ∷ bs }) bs (pop k.detached.status_line).0
        fuel (λ j e. loop_Queues bs fuel j e (omega arith))
        (line_stores (pop k.detached.status_line).1))
loop_Queues (Block.cookies ∷ bs) (suc fuel) k e h =
    rw (e, pop_block)
      (queue_step (record k { blocks = Block.cookies ∷ bs }) bs (record (k.detached) { jar = [] })
        (cookie_stores k.detached.jar) fuel (λ j e. loop_Queues bs fuel j e (omega arith)))
loop_Queues (Block.header p ∷ bs) (suc fuel) k e h =
    rw (e, pop_block)
      (queue_step (record k { blocks = Block.header p ∷ bs }) bs k.detached (header_stores p) fuel
        (λ j e. loop_Queues bs fuel j e (omega arith)))
loop_Queues (Block.chunk_header size ∷ bs) (suc fuel) k e h =
    rw (e, pop_block)
      (queue_step (record k { blocks = Block.chunk_header size ∷ bs }) bs k.detached
        (size ∷ text "\r\n" ∷ []) fuel (λ j e. loop_Queues bs fuel j e (omega arith)))
loop_Queues (Block.chunk part ∷ bs) (suc fuel) k e h =
    rw (e, pop_block)
      (queue_step (record k { blocks = Block.chunk part ∷ bs }) bs k.detached (part ∷ []) fuel
        (λ j e. loop_Queues bs fuel j e (omega arith)))
loop_Queues (Block.flags f ∷ bs) (suc fuel) k e h =
    rw (e, pop_block)
      (queue_step (record k { blocks = Block.flags f ∷ bs }) bs k.detached
        (flags_stores (is_streaming k) f) fuel (λ j e. loop_Queues bs fuel j e (omega arith)))

-- `prepare` with the HTTP/1 converter ends, leaves no block, and queues the stores of the blocks
-- in their order behind the output that was there. It panics exactly when a status line is to be
-- written that is unknown or of an unknown version.
pub h1_prepare :
    (fuel : ℕ) (k : Kawa)
    → length k.blocks < fuel
    → Queues k
        (emit k.detached.status_line k.detached.jar (is_streaming k) k.blocks)
        (prepare h1_converter fuel tt k)
unfolding prepare
h1_prepare fuel k h = finish _ _ (loop_Queues k.blocks fuel k refl h)
  where
    finish :
        (ss : Option (List Store)) (r : Run (Unit {0} × Kawa))
        → Queues k ss r
        → Queues k ss (then_run r (λ t. to_run (h1_converter.finalize t.0 t.1)))
    finish (some ss) (done (u, j)) q = q
    finish (some ss) panic q = absurd q
    finish (some ss) out_of_fuel q = absurd q
    finish none (done x) q = absurd q
    finish none panic q = tt
    finish none out_of_fuel q = absurd q
