-- ===== src/Protocol/Order.antt =====
-- The order of the slices in the blocks of a response: the order in which `parse` of
-- `src/protocol/h1/parser/mod.rs` met them, and in which the HTTP/1 converter queues them.
pub mod Emitted
pub mod Lays
pub mod Heads
pub mod Turns
pub mod Filed
pub mod Stands
pub mod Ready
pub mod Sendable
use kawa.Prelude.{
  Run, done, panic, out_of_fuel, to_run, then_run, codes, digit, push_digit, parse_digits,
  parse_uint, max_u16, max_usize, ℕ, zero, suc, ◌+◌, ◌-◌, ◌*◌, ◌/◌, ◌%◌, ◌^◌, ◌≤◌, ◌<◌, min, ◌≡◌,
  refl, sym, ap, ap₂, ◌∙◌, subst, ◌≢◌, ◌↔◌, ◌⊎◌, inl, inr, Bool, true, false, not, ◌&&◌, ◌||◌,
  Option, none, some, List, [], ◌∷◌, ◌++◌, map, append-nil, append_assoc, arith, ltb, leb, ◌==◌,
  if◌then◌else◌, ltb→lt, lt→ltb, le→ltb, leb→le, le→leb, lt→leb, ==_iff, Bool-cases, Option-cases,
  ◌>>=◌, ◌>>◌, bind-eq-some, max64, max32, add64, sub64, mul64, add32, sub32, to_u32, sub64-eq-sub,
  sub32-eq-sub, Bytes, length, get_elem?, set, take, drop, replicate, All, length-append,
  length-take, length-drop, length-set, length-replicate, take-append-drop, take_cong, drop_cong,
  take-nil, drop-nil, take_zero, take_prefix, drop_prefix, take_all, drop_all, drop-drop, take-take,
  drop-take, take-add, take-drop-append, take-drop-take, drop-append_of_le, drop-append, not_le,
}
use kawa.Storage.Slice.{Slice, IsInside}
use kawa.Storage.Store
use kawa.Storage.Store.{Store}
use kawa.Storage.OutBlock
use kawa.Storage.OutBlock.{OutBlock}
use kawa.Storage.Kawa.Stream.{OutFits, InOrder, frame_has_empty}
use kawa.Storage.Repr.{Block, Pair, is_elided, StatusLine, RequestLine, ResponseLine}
use kawa.Protocol.H1.{as_store}

-- Slices that lie one behind the other between `lo` and `hi`, with constants among them.
abbrev pub IsLaid : ℕ → ℕ → List Store → Type 0
IsLaid lo hi [] = lo ≤ hi
IsLaid lo hi (Store.slice s ∷ ss) = (lo ≤ s.start) × IsLaid (s.start + s.len) hi ss
IsLaid lo hi (Store.static bytes ∷ ss) = (length bytes < 2 ^ 63) × IsLaid lo hi ss
IsLaid lo hi (_ ∷ ss) = ⊥

pub IsLaid-le : (lo hi : ℕ) (ss : List Store) → IsLaid lo hi ss → lo ≤ hi
IsLaid-le lo hi [] h = h
IsLaid-le lo hi (Store.slice s ∷ ss) h = omega (arith, h.0, IsLaid-le (s.start + s.len) hi ss h.1)
IsLaid-le lo hi (Store.static bytes ∷ ss) h = IsLaid-le lo hi ss h.1
IsLaid-le lo hi (Store.empty ∷ ss) h = absurd h
IsLaid-le lo hi (Store.detached s ∷ ss) h = absurd h
IsLaid-le lo hi (Store.alloc bytes index ∷ ss) h = absurd h
IsLaid-le lo hi (Store.shared bytes index ∷ ss) h = absurd h

-- From further below.
pub IsLaid-below : (lo lo' hi : ℕ) (ss : List Store) → lo' ≤ lo → IsLaid lo hi ss → IsLaid lo' hi ss
IsLaid-below lo lo' hi [] l h = omega arith
IsLaid-below lo lo' hi (Store.slice s ∷ ss) l h = (omega (arith, l, h.0), h.1)
IsLaid-below lo lo' hi (Store.static bytes ∷ ss) l h = (h.0, IsLaid-below lo lo' hi ss l h.1)
IsLaid-below lo lo' hi (Store.empty ∷ ss) l h = absurd h
IsLaid-below lo lo' hi (Store.detached s ∷ ss) l h = absurd h
IsLaid-below lo lo' hi (Store.alloc bytes index ∷ ss) l h = absurd h
IsLaid-below lo lo' hi (Store.shared bytes index ∷ ss) l h = absurd h

pub IsLaid-append :
    (lo mid hi : ℕ) (ss ts : List Store)
    → IsLaid lo mid ss
    → IsLaid mid hi ts
    → IsLaid lo hi (ss ++ ts)
IsLaid-append lo mid hi [] ts h k = IsLaid-below mid lo hi ts h k
IsLaid-append lo mid hi (Store.slice s ∷ ss) ts h k =
    (h.0, IsLaid-append (s.start + s.len) mid hi ss ts h.1 k)
IsLaid-append lo mid hi (Store.static bytes ∷ ss) ts h k =
    (h.0, IsLaid-append lo mid hi ss ts h.1 k)
IsLaid-append lo mid hi (Store.empty ∷ ss) ts h k = absurd h
IsLaid-append lo mid hi (Store.detached s ∷ ss) ts h k = absurd h
IsLaid-append lo mid hi (Store.alloc bytes index ∷ ss) ts h k = absurd h
IsLaid-append lo mid hi (Store.shared bytes index ∷ ss) ts h k = absurd h

-- A middle part is known, if both ends are.
pub IsLaid-split :
    (lo hi : ℕ) (ss ts : List Store)
    → IsLaid lo hi (ss ++ ts)
    → (mid : ℕ) × IsLaid lo mid ss × IsLaid mid hi ts
IsLaid-split lo hi [] ts h = (lo, omega arith, h)
IsLaid-split lo hi (Store.slice s ∷ ss) ts h =
    let (mid, a, b) = IsLaid-split (s.start + s.len) hi ss ts h.1 in (mid, (h.0, a), b)
IsLaid-split lo hi (Store.static bytes ∷ ss) ts h =
    let (mid, a, b) = IsLaid-split lo hi ss ts h.1 in (mid, (h.0, a), b)
IsLaid-split lo hi (Store.empty ∷ ss) ts h = absurd h
IsLaid-split lo hi (Store.detached s ∷ ss) ts h = absurd h
IsLaid-split lo hi (Store.alloc bytes index ∷ ss) ts h = absurd h
IsLaid-split lo hi (Store.shared bytes index ∷ ss) ts h = absurd h

-- A queue of such stores can be sent: they fit the buffer, are in order, and none is empty.
pub IsLaid-queue :
    (size lo hi : ℕ) (ss : List Store)
    → size < max32
    → hi ≤ size
    → IsLaid lo hi ss
    → OutFits size (map OutBlock.store ss)
      × InOrder lo hi (map OutBlock.store ss)
      × (frame_has_empty (map OutBlock.store ss) ≡ false)
unfolding Store.is_empty
IsLaid-queue size lo hi [] small at h = (tt, h, refl)
IsLaid-queue size lo hi (Store.slice s ∷ ss) small at h =
    let (f, o, e) = IsLaid-queue size (s.start + s.len) hi ss small at h.1 in
    let end = IsLaid-le (s.start + s.len) hi ss h.1 in
    (
      (
        record {
          inside = omega (arith, end, at);
          start_word = omega (arith, end, at, small);
          len_word = omega (arith, end, at, small);
        },
        f,
      ),
      (h.0, o),
      e,
    )
IsLaid-queue size lo hi (Store.static bytes ∷ ss) small at h =
    let (f, o, e) = IsLaid-queue size lo hi ss small at h.1 in ((h.0, f), (tt, o), e)
IsLaid-queue size lo hi (Store.empty ∷ ss) small at h = absurd h
IsLaid-queue size lo hi (Store.detached s ∷ ss) small at h = absurd h
IsLaid-queue size lo hi (Store.alloc bytes index ∷ ss) small at h = absurd h
IsLaid-queue size lo hi (Store.shared bytes index ∷ ss) small at h = absurd h

-- The stores of the message that a block stands for, without those that the converter adds.
abbrev pub line_kept : StatusLine → List Store
line_kept (StatusLine.response r) = r.status ∷ r.reason ∷ []
line_kept _ = []

abbrev pub pair_kept : Pair → List Store
pair_kept p = if is_elided p then [] else p.key ∷ p.val ∷ []

abbrev pub block_kept : StatusLine → Block → List Store
block_kept line Block.status_line = line_kept line
block_kept line Block.cookies = []
block_kept line (Block.header p) = pair_kept p
block_kept line (Block.chunk_header s) = s ∷ []
block_kept line (Block.chunk s) = s ∷ []
block_kept line (Block.flags f) = []

abbrev pub kept : StatusLine → List Block → List Store
kept line [] = []
kept line (b ∷ bs) = block_kept line b ++ kept line bs

abbrev pub IsPlain : Block → Type 0
IsPlain Block.status_line = ⊥
IsPlain _ = Unit

-- A response whose version can be written.
abbrev pub IsAnswer : StatusLine → Type 0
IsAnswer (StatusLine.response r) = (s : Store) × (as_store r.version ≡ some s)
IsAnswer _ = ⊥

-- Only the first block may stand for the status line.
abbrev pub IsWritable : StatusLine → List Block → Type 0
IsWritable line [] = Unit
IsWritable line (Block.status_line ∷ bs) = IsAnswer line × All IsPlain bs
IsWritable line (b ∷ bs) = All IsPlain (b ∷ bs)

-- Blocks that can be written, of slices that lie in order between `lo` and `hi`.
abbrev pub IsFiled : ℕ → ℕ → StatusLine → List Block → Type 0
IsFiled lo hi line bs = IsWritable line bs × IsLaid lo hi (kept line bs)

kept-append :
    (line : StatusLine) (bs cs : List Block) → kept line (bs ++ cs) ≡ kept line bs ++ kept line cs
kept-append line [] cs = refl
kept-append line (b ∷ bs) cs =
    ap (λ z. block_kept line b ++ z) (kept-append line bs cs)
    ∙ sym (append_assoc (block_kept line b) (kept line bs) (kept line cs))

IsPlain-snoc :
    (bs : List Block) (b : Block) → All IsPlain bs → IsPlain b → All IsPlain (bs ++ (b ∷ []))
IsPlain-snoc [] b h p = (p, tt)
IsPlain-snoc (c ∷ bs) b h p = (h.0, IsPlain-snoc bs b h.1 p)

IsWritable-snoc :
    (line : StatusLine) (bs : List Block) (b : Block)
    → IsPlain b
    → IsWritable line bs
    → IsWritable line (bs ++ (b ∷ []))
IsWritable-snoc line [] Block.status_line p h = absurd p
IsWritable-snoc line [] Block.cookies p h = (tt, tt)
IsWritable-snoc line [] (Block.header q) p h = (tt, tt)
IsWritable-snoc line [] (Block.chunk_header s) p h = (tt, tt)
IsWritable-snoc line [] (Block.chunk s) p h = (tt, tt)
IsWritable-snoc line [] (Block.flags f) p h = (tt, tt)
IsWritable-snoc line (Block.status_line ∷ bs) b p h = (h.0, IsPlain-snoc bs b h.1 p)
IsWritable-snoc line (Block.cookies ∷ bs) b p h = (tt, IsPlain-snoc bs b h.1 p)
IsWritable-snoc line (Block.header q ∷ bs) b p h = (tt, IsPlain-snoc bs b h.1 p)
IsWritable-snoc line (Block.chunk_header s ∷ bs) b p h = (tt, IsPlain-snoc bs b h.1 p)
IsWritable-snoc line (Block.chunk s ∷ bs) b p h = (tt, IsPlain-snoc bs b h.1 p)
IsWritable-snoc line (Block.flags f ∷ bs) b p h = (tt, IsPlain-snoc bs b h.1 p)

-- A block more, whose slices lie behind the others.
pub IsFiled-snoc :
    (lo mid hi : ℕ) (line : StatusLine) (bs : List Block) (b : Block)
    → IsPlain b
    → IsFiled lo mid line bs
    → IsLaid mid hi (kept line (b ∷ []))
    → IsFiled lo hi line (bs ++ (b ∷ []))
IsFiled-snoc lo mid hi line bs b p h k = (
  IsWritable-snoc line bs b p h.0,
  subst (IsLaid lo hi) (sym (kept-append line bs (b ∷ [])))
      (IsLaid-append lo mid hi (kept line bs) (kept line (b ∷ [])) h.1 k),
)

-- Up to further behind.
pub IsFiled-above :
    (lo mid hi : ℕ) (line : StatusLine) (bs : List Block)
    → mid ≤ hi
    → IsFiled lo mid line bs
    → IsFiled lo hi line bs
IsFiled-above lo mid hi line bs le h = (
  h.0,
  subst (IsLaid lo hi) (append-nil (kept line bs))
      (IsLaid-append lo mid hi (kept line bs) [] h.1 le),
)
