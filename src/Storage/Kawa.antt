-- ===== src/Storage/Kawa.antt =====
-- `Kawa` of `src/storage/repr.rs`: the state of one message, and what sends and frees its output.
-- A queue (`VecDeque` of std) is the list of its elements. A panic is `none`.
pub mod Stream
pub mod Shift
pub mod Consume
use kawa.Prelude.{
  ℕ, zero, suc, ◌+◌, ◌-◌, ◌*◌, ◌/◌, ◌%◌, ◌^◌, ◌≤◌, ◌<◌, min, ◌≡◌, refl, sym, ap, ap₂, ◌∙◌, subst,
  ◌≢◌, ◌↔◌, ◌⊎◌, inl, inr, Bool, true, false, not, ◌&&◌, ◌||◌, Option, none, some, List, [], ◌∷◌,
  ◌++◌, map, append-nil, append_assoc, arith, ltb, leb, ◌==◌, if◌then◌else◌, ltb→lt, lt→ltb, le→ltb,
  leb→le, le→leb, lt→leb, ==_iff, Bool-cases, Option-cases, ◌>>=◌, ◌>>◌, bind-eq-some, max64, max32,
  add64, sub64, mul64, add32, sub32, to_u32, sub64-eq-sub, sub32-eq-sub, Bytes, length, get_elem?,
  set, take, drop, replicate, All, length-append, length-take, length-drop, length-set,
  length-replicate, take-append-drop, take_cong, drop_cong, take-nil, drop-nil, take_zero,
  take_prefix, drop_prefix, take_all, drop_all, drop-drop, take-take, drop-take, take-add,
  take-drop-append, take-drop-take, drop-append_of_le,
}
use mathlib.Core.Option
use kawa.Storage.Span.{Span}
use kawa.Storage.Buffer
use kawa.Storage.Buffer.{Buffer}
use kawa.Storage.Slice.{Slice}
use kawa.Storage.Store
use kawa.Storage.Store.{Store}
use kawa.Storage.OutBlock
use kawa.Storage.OutBlock.{OutBlock}
use kawa.Storage.Repr.{Block, DetachedBlocks, Kind, ParsingPhase, BodySize, StatusLine, Pair}

pub record Kawa : Type 0 where
  pub storage : Buffer
  pub blocks : List Block
  pub out : List OutBlock
  pub detached : DetachedBlocks
  pub kind : Kind
  pub expects : ℕ
  pub parsing_phase : ParsingPhase
  pub body_size : BodySize
  pub consumed : Bool

unfoldable pub new : Kind → Buffer → Kawa
new kind storage = record {
  storage = storage;
  blocks = [];
  out = [];
  detached = record { status_line = StatusLine.unknown; jar = [] };
  kind = kind;
  expects = 0;
  parsing_phase = ParsingPhase.status_line;
  body_size = BodySize.empty;
  consumed = false;
}

unfoldable pub push_left : Kawa → ℕ → Kawa
push_left k amount = record k { out = map (λ o. OutBlock.push_left o amount) k.out }

-- The stores up to the end or to a delimiter, each with its bytes.
unfoldable pub io_slices : Span → List OutBlock → Option (List Bytes)
io_slices buf [] = some []
io_slices buf (OutBlock.delimiter ∷ out) = some []
io_slices buf (OutBlock.store s ∷ out) = do
  bytes ← Store.data_of s buf
  rest ← io_slices buf out
  some (bytes ∷ rest)

unfoldable pub as_io_slice : Kawa → Option (List Bytes)
unfolding io_slices
as_io_slice k = io_slices k.storage.buffer k.out

pub first_slice : List OutBlock → Option Slice
first_slice [] = none
first_slice (OutBlock.store (Store.slice s) ∷ out) = some s
first_slice (o ∷ out) = first_slice out

unfoldable pub leftmost_ref : Kawa → ℕ
unfolding first_slice
leftmost_ref k = elim (first_slice k.out) [
  | some s ↦ s.start
  | none ↦ elim k.blocks [ [] ↦ k.storage.head | _ ∷ _ ↦ k.storage.start ]
]

-- The loop of `consume`: the queue that is left, and the amount that no store took.
unfoldable pub consume_out : List OutBlock → ℕ → List OutBlock × ℕ
consume_out [] amount = ([], amount)
consume_out (o ∷ out) amount =
    let (remaining, rest) = OutBlock.consume o amount in
    elim rest [ some s ↦ (OutBlock.store s ∷ out, remaining) | none ↦ consume_out out remaining ]

-- Behind the loop and the assertion.
reclaim : Kawa → Option Kawa
unfolding push_left
reclaim k =
    let can_consume = sub64 (leftmost_ref k) k.storage.start in
    let storage = (Buffer.consume k.storage can_consume).0 in
    if Buffer.should_shift storage
    then Option.map (λ r. push_left (record k { storage = r.0 }) (to_u32 r.1))
        (Buffer.shift storage)
    else some (record k { storage = storage })

unfoldable pub consume : Kawa → ℕ → Option Kawa
unfolding reclaim consume_out
consume k amount =
    let consumed = if ltb 0 amount then true else k.consumed in
    let (out, left) = consume_out k.out amount in
    if left == 0 then reclaim (record k { out = out; consumed = consumed }) else none

unfoldable pub push_block : Kawa → Block → Kawa
push_block k block = record k { blocks = k.blocks ++ (block ∷ []) }

unfoldable pub push_out : Kawa → Store → Kawa
push_out k s = record k { out = k.out ++ (OutBlock.store s ∷ []) }

unfoldable pub push_delimiter : Kawa → Kawa
push_delimiter k = record k { out = k.out ++ (OutBlock.delimiter ∷ []) }

initial_phase : ParsingPhase → Bool
initial_phase ParsingPhase.status_line = true
initial_phase _ = false

unfoldable pub is_initial : Kawa → Bool
unfolding initial_phase
is_initial k = initial_phase k.parsing_phase

chunked_size : BodySize → Bool
chunked_size BodySize.chunked = true
chunked_size _ = false

unfoldable pub is_streaming : Kawa → Bool
unfolding chunked_size
is_streaming k = chunked_size k.body_size

main_phase : ParsingPhase → Bool
main_phase ParsingPhase.body = true
main_phase (ParsingPhase.chunks first) = true
main_phase ParsingPhase.trailers = true
main_phase ParsingPhase.terminated = true
main_phase ParsingPhase.status_line = false
main_phase ParsingPhase.headers = false
main_phase (ParsingPhase.cookies first) = false
main_phase (ParsingPhase.error m kind) = false

unfoldable pub is_main_phase : Kawa → Bool
unfolding main_phase
is_main_phase k = main_phase k.parsing_phase

error_phase : ParsingPhase → Bool
error_phase (ParsingPhase.error m kind) = true
error_phase _ = false

unfoldable pub is_error : Kawa → Bool
unfolding error_phase
is_error k = error_phase k.parsing_phase

terminated_phase : ParsingPhase → Bool
terminated_phase ParsingPhase.terminated = true
terminated_phase _ = false

unfoldable pub is_terminated : Kawa → Bool
unfolding terminated_phase
is_terminated k = terminated_phase k.parsing_phase

no_items : {A : Type 0} → List A → Bool
no_items [] = true
no_items (x ∷ xs) = false

unfoldable pub is_completed : Kawa → Bool
unfolding no_items
is_completed k = no_items k.blocks && no_items k.out

unfoldable pub clear : Kawa → Kawa
clear k = record k {
  blocks = [];
  out = [];
  detached = record { status_line = StatusLine.unknown; jar = [] };
  expects = 0;
  consumed = false;
  parsing_phase = ParsingPhase.status_line;
  body_size = BodySize.empty;
}
