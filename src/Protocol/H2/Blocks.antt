-- ===== src/Protocol/H2/Blocks.antt =====
-- What the HTTP/2 debug converter writes for one block, and behind it for the others.
use kawa.Prelude.{
  Run, done, panic, out_of_fuel, ℕ, ◌≡◌, refl, ap, ◌∙◌, subst, Bool, true, false, Option, none,
  some, List, [], ◌∷◌, ◌++◌, map, append_assoc, Bytes,
}
use mathlib.Core.Option
use kawa.Storage.Buffer.{Buffer}
use kawa.Storage.Store.{Store}
use kawa.Storage.OutBlock.{OutBlock}
use kawa.Storage.Repr.{Block, DetachedBlocks}
use kawa.Storage.Kawa.{Kawa, push_delimiter}
use kawa.Storage.Prepare.{prepare_loop}
use kawa.Protocol.H1.{push_all}
use kawa.Protocol.H1.Output.{push_all-out}
use kawa.Protocol.H1.Wire.{contents}
use kawa.Protocol.H2.{h2_converter}
use kawa.Protocol.H2.Wire.{Marked, plain, delimiter, marked, wire}
use kawa.Protocol.H2.Texts.{marked-append, marked-stores}

-- A run that queues a text with its delimiters behind what was there, and leaves no block and the
-- buffer as it was; where there is no text it panics.
abbrev pub WritesMarked : Kawa → Option Marked → Run (Unit {0} × Kawa) → Type 0
WritesMarked k (some ms) (done (_, j)) =
    (marked k.storage.buffer.bytes j.out ≡ marked k.storage.buffer.bytes k.out ++ ms)
    × (j.blocks ≡ [])
    × (j.storage ≡ k.storage)
WritesMarked k none panic = Unit
WritesMarked k _ _ = ⊥

-- What is queued first, and then the rest.
more_lem :
    (k : Kawa) (os : List OutBlock) (ms : Marked) (w : Option Marked) (j : Kawa)
    (r : Run (Unit {0} × Kawa))
    → marked k.storage.buffer.bytes os ≡ ms
    → j.out ≡ k.out ++ os
    → j.storage ≡ k.storage
    → WritesMarked j w r
    → WritesMarked k (Option.map (λ rest. ms ++ rest) w) r
more_lem k os ms (some rest) j (done (u, i)) e o s (a, b, c) =
    let buf = k.storage.buffer.bytes in
    (
      subst (λ (z : Bytes). marked z i.out ≡ marked z j.out ++ rest)
            (ap (λ (z : Buffer). z.buffer.bytes) s) a
          ∙ ap (λ z. marked buf z ++ rest) o
          ∙ ap (λ z. z ++ rest) (marked-append buf k.out os ∙ ap (λ z. marked buf k.out ++ z) e)
          ∙ append_assoc (marked buf k.out) ms rest,
      b,
      c ∙ s,
    )
more_lem k os ms (some rest) j panic e o s q = absurd q
more_lem k os ms (some rest) j out_of_fuel e o s q = absurd q
more_lem k os ms none j (done x) e o s q = absurd q
more_lem k os ms none j panic e o s q = tt
more_lem k os ms none j out_of_fuel e o s q = absurd q

-- The loop on the blocks behind, from any state with this buffer.
abbrev pub Rest : Kawa → List Block → ℕ → Type 0
Rest k bs fuel =
    (j : Kawa)
    → j.blocks ≡ bs
    → j.storage ≡ k.storage
    → WritesMarked j (wire k.storage.buffer.bytes j.detached.status_line j.detached.jar bs)
        (prepare_loop h2_converter fuel tt j)

-- A block whose stores are `ss`, and which leaves `d` of the detached blocks.
pub block_lem :
    (k : Kawa) (bs : List Block) (d : DetachedBlocks) (ss : List Store) (t : Bytes) (fuel : ℕ)
    → contents k.storage.buffer.bytes ss ≡ t
    → Rest k bs fuel
    → WritesMarked k
        (Option.map (λ rest. plain t ++ rest) (wire k.storage.buffer.bytes d.status_line d.jar bs))
        (prepare_loop h2_converter fuel tt (push_all (record k { blocks = bs; detached = d }) ss))
block_lem k bs d ss t fuel e ih =
    let buf = k.storage.buffer.bytes in
    let j : Kawa = record k { blocks = bs; detached = d; out = k.out ++ map OutBlock.store ss } in
    rw (push_all-out (record k { blocks = bs; detached = d }) ss) (
      more_lem k (map OutBlock.store ss) (plain t) (wire buf d.status_line d.jar bs) j _
        (marked-stores buf ss ∙ ap plain e) refl refl (ih j refl refl))

-- The same where a delimiter stands behind it.
pub delimited_lem :
    (k : Kawa) (bs : List Block) (ss : List Store) (t : Bytes) (fuel : ℕ)
    → contents k.storage.buffer.bytes ss ≡ t
    → Rest k bs fuel
    → WritesMarked k
        (Option.map
          (λ rest. (plain t ++ delimiter) ++ rest)
          (wire k.storage.buffer.bytes k.detached.status_line k.detached.jar bs))
        (prepare_loop h2_converter fuel tt
          (push_delimiter (push_all (record k { blocks = bs }) ss)))
unfolding push_delimiter
delimited_lem k bs ss t fuel e ih =
    let buf = k.storage.buffer.bytes in
    let os = map OutBlock.store ss ++ (OutBlock.delimiter ∷ []) in
    let j : Kawa = record k {
      blocks = bs;
      out = (k.out ++ map OutBlock.store ss) ++ (OutBlock.delimiter ∷ []);
    } in
    rw (push_all-out (record k { blocks = bs }) ss) (
      more_lem k os (plain t ++ delimiter) _ j _
        (marked-append buf (map OutBlock.store ss) (OutBlock.delimiter ∷ [])
          ∙ ap (λ z. z ++ delimiter) (marked-stores buf ss ∙ ap plain e))
        (append_assoc k.out (map OutBlock.store ss) (OutBlock.delimiter ∷ [])) refl
        (ih j refl refl))

-- A block that may panic.
pub option_lem :
    (k : Kawa) (bs : List Block) (d : DetachedBlocks) (o : Option (List Store)) (t : Option Bytes)
    (fuel : ℕ)
    → Option.map (contents k.storage.buffer.bytes) o ≡ t
    → Rest k bs fuel
    → WritesMarked k
        (elim t [
          | none ↦ none
          | some t ↦
              Option.map
                (λ rest. plain t ++ rest)
                (wire k.storage.buffer.bytes d.status_line d.jar bs)
        ])
        (elim (Option.map {B = Unit {0} × Kawa × Bool}
          (λ j. (tt, j, true))
          (Option.map (push_all (record k { blocks = bs; detached = d })) o)) [
            | none ↦ panic
            | some (c', k'', more) ↦ elim more [
              | true ↦ prepare_loop h2_converter fuel c' k''
              | false ↦ done (c', k'')
            ]
          ])
option_lem k bs d none (some t) fuel e ih = cc
option_lem k bs d none none fuel e ih = tt
option_lem k bs d (some ss) none fuel e ih = cc
option_lem k bs d (some ss) (some t) fuel e ih = block_lem k bs d ss t fuel (cc e) ih
