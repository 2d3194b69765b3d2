-- ===== src/Storage/Span.antt =====
-- A borrowed `&[u8]`: the address of its first byte and its bytes. The code computes offsets from
-- such addresses (`Slice::new`, nom's `offset`), so a value of bytes alone would lose them.
-- `SliceBuffer` of `src/lib.rs`, the crate's `AsBuffer`, is one: it borrows a region of memory.
use kawa.Prelude.{
  ℕ, ◌+◌, ◌-◌, ◌≤◌, ◌<◌, ◌≡◌, sym, ◌∙◌, ◌&&◌, Option, none, some, [], ◌++◌, append_assoc, arith,
  leb, if◌then◌else◌, Bytes, length, take, drop, length-append, length-take, length-drop,
  take_prefix, drop_prefix, append-nil, max64, ◌^◌,
}

pub record Span : Type 0 where
  pub addr : ℕ
  pub bytes : Bytes

abbrev pub len : Span → ℕ
len s = length s.bytes

-- `&bs[a..b]`, which panics out of range
unfoldable pub range : Bytes → ℕ → ℕ → Option Bytes
range bs a b = if leb a b && leb b (length bs) then some (take (b - a) (drop a bs)) else none

-- `&s[a..b]` with its address
unfoldable pub sub_span : Span → ℕ → ℕ → Option Span
sub_span s a b =
    if leb a b && leb b (length s.bytes)
    then some (record { addr = s.addr + a; bytes = take (b - a) (drop a s.bytes) })
    else none

-- `&s[i..]` and `&s[..i]` at an index that is in range
abbrev pub from : Span → ℕ → Span
from s i = record { addr = s.addr + i; bytes = drop i s.bytes }

abbrev pub upto : Span → ℕ → Span
upto s i = record { addr = s.addr; bytes = take i s.bytes }

-- `ptr::copy` of `src` to index `at`
unfoldable pub overwrite : Bytes → ℕ → Bytes → Bytes
overwrite bs at src = take at bs ++ (src ++ drop (at + length src) bs)

-- Rust places every slice inside the address space, and below half of it in size.
pub record IsPlaced (s : Span) : Type 0 where
  pub fits : s.addr + length s.bytes < max64
  pub small : length s.bytes < 2 ^ 63

-- `s` is a part of `t`, at offset `length before`.
pub record IsPart (t s : Span) : Type 0 where
  pub before : Bytes
  pub after : Bytes
  pub splits : t.bytes ≡ before ++ (s.bytes ++ after)
  pub at : s.addr ≡ t.addr + length before

-- `v` is read off the front of `i`, and `r` is left.
pub record Took (i v r : Span) : Type 0 where
  pub bytes : i.bytes ≡ v.bytes ++ r.bytes
  pub at : v.addr ≡ i.addr
  pub rest_at : r.addr ≡ i.addr + length v.bytes

pub range-eq-some :
    (bs : Bytes) (a b : ℕ) → a ≤ b → b ≤ length bs → range bs a b ≡ some (take (b - a) (drop a bs))
unfolding range
range-eq-some bs a b h k = ground arith

pub sub_span-eq-some :
    (s : Span) (a b : ℕ)
    → a ≤ b
    → b ≤ length s.bytes
    → sub_span s a b ≡ some (record { addr = s.addr + a; bytes = take (b - a) (drop a s.bytes) })
unfolding sub_span
sub_span-eq-some s a b h k = ground arith

pub length-overwrite :
    (bs : Bytes) (at : ℕ) (src : Bytes)
    → at + length src ≤ length bs
    → length (overwrite bs at src) ≡ length bs
unfolding overwrite
length-overwrite bs at src h = omega (
  arith,
  length-append {0} (take at bs) (src ++ drop (at + length src) bs),
  length-append {0} src (drop (at + length src) bs),
  length-take {0} at bs,
  length-drop {0} (at + length src) bs,
)

pub take-overwrite :
    (bs : Bytes) (at : ℕ) (src : Bytes)
    → at ≤ length bs
    → take at (overwrite bs at src) ≡ take at bs
unfolding overwrite
take-overwrite bs at src h = take_prefix at (take at bs) _ (omega (arith, length-take {0} at bs))

pub drop-overwrite :
    (bs : Bytes) (at : ℕ) (src : Bytes)
    → at ≤ length bs
    → drop at (overwrite bs at src) ≡ src ++ drop (at + length src) bs
unfolding overwrite
drop-overwrite bs at src h = drop_prefix at (take at bs) _ (omega (arith, length-take {0} at bs))

pub IsPart-refl : (s : Span) → IsPart s s
IsPart-refl s = record {
  before = [];
  after = [];
  splits = sym (append-nil s.bytes);
  at = omega arith;
}

pub IsPart-trans : {s t u : Span} → IsPart s t → IsPart t u → IsPart s u
IsPart-trans {s} {t} {u} p q = record {
  before = p.before ++ q.before;
  after = q.after ++ p.after;
  splits = p.splits ∙ regroup;
  at = omega (arith, length-append {0} p.before q.before);
}
  where
    regroup :
        p.before ++ (t.bytes ++ p.after)
        ≡ (p.before ++ q.before) ++ (u.bytes ++ (q.after ++ p.after))
    regroup = rw q.splits (simp append_assoc)

pub Took-IsPart : {i v r : Span} → Took i v r → IsPart i v × IsPart i r
Took-IsPart {i} {v} {r} t = (
  record { before = []; after = r.bytes; splits = t.bytes; at = omega (arith, t.at) },
  record { before = v.bytes; after = []; splits = rw append-nil t.bytes; at = t.rest_at },
)

-- A part never reaches outside.
pub IsPart-bounds :
    {s t : Span}
    → IsPart s t
    → (s.addr ≤ t.addr) × (t.addr + length t.bytes ≤ s.addr + length s.bytes)
IsPart-bounds {s} {t} p = omega (
  arith,
  p.at,
  lengths,
  length-append {0} p.before (t.bytes ++ p.after),
  length-append {0} t.bytes p.after,
)
  where
    lengths : length s.bytes ≡ length (p.before ++ (t.bytes ++ p.after))
    lengths = rw p.splits
