-- ===== src/Protocol/Order/Lays.antt =====
-- Every turn of the inner loop of `parse` leaves a response whose slices lie in order, up to what is
-- unparsed.
use kawa.Prelude.{
  codes, ℕ, ◌+◌, ◌-◌, ◌≤◌, ◌≡◌, refl, sym, ap, ◌∙◌, Bool, false, [], ◌∷◌, ◌++◌, append-nil, arith,
  sub64, to_u32, Bytes, length,
}
use kawa.Storage.Span.{Span, IsPart, IsPart-refl, IsPart-trans, IsPart-bounds}
use kawa.Storage.Slice
use kawa.Storage.Slice.{Slice}
use kawa.Storage.Store.{Store, new_slice}
use kawa.Storage.Repr.{Kind, ParsingPhase, to_error}
use kawa.Storage.Kawa.{Kawa}
use kawa.Protocol.Nom.{Nom, IResult, ok, incomplete, error, failure}
use kawa.Protocol.Nom.Parts.{IsPart-placed}
use kawa.Protocol.Nom.Reads.{IsFront, Reads, IsRead, ReadsFront}
use kawa.Protocol.Primitives.{crlf}
use kawa.Protocol.Primitives.Reads.{IsInput}
use kawa.Protocol.Parser.{Turn, next, stop, failed_at, or_stop, recover, or_crlf}
use kawa.Protocol.Parser.Safe.{IsMemory}
use kawa.Protocol.Parser.Parsed.{unparsed_of, unparsed_of-IsPart}
use kawa.Protocol.Order.{IsLaid, IsFiled, IsFiled-above}

-- Before its status line a message is a response without blocks.
abbrev pub Fresh : ParsingPhase → Kawa → Type 0
Fresh ParsingPhase.status_line k = (k.kind ≡ Kind.response) × (k.blocks ≡ [])
Fresh _ k = Unit

-- The blocks can be written, with their slices in order between `lo` and `hi`, and nothing is queued.
abbrev pub InPlace : ℕ → Kawa → ℕ → Type 0
InPlace lo k hi =
    IsFiled lo hi k.detached.status_line k.blocks × Fresh k.parsing_phase k × (k.out ≡ [])

pub IsFront-IsPart : {i r : Span} {w : Bytes} → IsFront i w r → IsPart i r
IsFront-IsPart {i} {r} {w} f = record {
  before = w;
  after = [];
  splits = f.bytes ∙ ap (λ z. w ++ z) (sym (append-nil r.bytes));
  at = f.addr;
}

abbrev IsEnd : ℕ → Bytes → Span → Type 0
IsEnd at w v = IsRead at w v × (w ≡ codes "\r\n")

module _ (nom : Nom) (laws : ReadsFront nom) (k : Kawa) (u : Span) (m : IsMemory k.storage)
    (p : IsPart (unparsed_of k.storage) u) where
  -- What a turn leaves.
  abbrev pub Lays : Kawa → Span → Type 0
  Lays j r =
      (j.storage ≡ k.storage)
      × IsPart u r
      × InPlace k.storage.start j (r.addr - k.storage.buffer.addr)

  abbrev pub Leaves : Turn → Type 0
  Leaves (next j r) = Lays j r
  Leaves (stop j r need) = Lays j r

  pub bounds :
      (r : Span)
      → IsPart u r
      → (k.storage.buffer.addr ≤ u.addr)
        × (u.addr ≤ r.addr)
        × (r.addr + length r.bytes ≤ k.storage.buffer.addr + length k.storage.buffer.bytes)
  bounds r q =
      let whole = IsPart-bounds (IsPart-trans (unparsed_of-IsPart k.storage m.valid) p) in
      let rest = IsPart-bounds q in (whole.0, rest.0, omega (arith, rest, whole.1))

  pub input : IsInput u
  input =
      let q = IsPart-trans (unparsed_of-IsPart k.storage m.valid) p in
      record {
        placed = IsPart-placed q m.valid.placed;
        page = omega (arith, (IsPart-bounds q).0, m.page);
      }

  pub slice_at :
      (v : Span)
      → k.storage.buffer.addr ≤ v.addr
      → v.addr + length v.bytes ≤ k.storage.buffer.addr + length k.storage.buffer.bytes
      → new_slice k.storage.buffer v
        ≡ Store.slice (record { start = v.addr - k.storage.buffer.addr; len = length v.bytes })
  unfolding new_slice Slice.new
  slice_at v a e =
      let start : to_u32 (sub64 v.addr k.storage.buffer.addr) ≡ v.addr - k.storage.buffer.addr =
        omega (arith, a, e, m.small, m.valid.placed.fits) in
      let len : to_u32 (length v.bytes) ≡ length v.bytes = omega (arith, a, e, m.small) in
      rw (start, len) refl

  -- A slice, and two, in bytes that are taken off the input.
  pub one-IsLaid :
      (v r : Span)
      → IsPart u r
      → u.addr ≤ v.addr
      → v.addr + length v.bytes ≤ r.addr
      → IsLaid
          (u.addr - k.storage.buffer.addr)
          (r.addr - k.storage.buffer.addr)
          (new_slice k.storage.buffer v ∷ [])
  one-IsLaid v r q a e =
      let (x, y, z) = bounds r q in
      rw (slice_at v (omega (arith, x, a)) (omega (arith, z, e)))
        (omega (arith, x, a), omega (arith, x, a, e))

  pub two-IsLaid :
      (n : ℕ) (v v' r : Span)
      → IsPart u r
      → n ≤ u.addr - k.storage.buffer.addr
      → u.addr ≤ v.addr
      → v.addr + length v.bytes ≤ v'.addr
      → v'.addr + length v'.bytes ≤ r.addr
      → IsLaid n
          (r.addr - k.storage.buffer.addr)
          (new_slice k.storage.buffer v ∷ new_slice k.storage.buffer v' ∷ [])
  two-IsLaid n v v' r q h a b e =
      let (x, y, z) = bounds r q in
      rw
        (
          slice_at v (omega (arith, x, a)) (omega (arith, z, b, e)),
          slice_at v' (omega (arith, x, a, b)) (omega (arith, z, e)),
        )
        (omega (arith, x, a, h), (omega (arith, x, a, b), omega (arith, x, a, b, e)))

  module _ (s : InPlace k.storage.start k (u.addr - k.storage.buffer.addr)) where
    -- Nothing is taken, or bytes that no block refers to.
    pub rest-IsFiled :
        (r : Span)
        → IsPart u r
        → IsFiled k.storage.start (r.addr - k.storage.buffer.addr) k.detached.status_line k.blocks
    rest-IsFiled r q =
        let (x, y, z) = bounds r q in
        IsFiled-above k.storage.start (u.addr - k.storage.buffer.addr)
          (r.addr - k.storage.buffer.addr) k.detached.status_line k.blocks (omega (arith, x, y)) s.0

    pub stay : (need : Bool) → Leaves (stop k u need)
    stay need = (refl, IsPart-refl u, s)

    failed : (at : Span) → Leaves (stop (failed_at nom k at) u false)
    unfolding failed_at to_error
    failed at = (refl, IsPart-refl u, (s.0, tt, s.2))

    pub or_stop-Lays :
        {A : Type 0} (P : ℕ → Bytes → A → Type 0) (x : IResult A) (f : Span → A → Turn)
        → Reads P u x
        → ((i : Span) (w : Bytes) (a : A) → IsFront u w i → P u.addr w a → Leaves (f i a))
        → Leaves (or_stop nom x k u f)
    unfolding or_stop Reads
    or_stop-Lays P (ok i a) f (w, fr, h) g = g i w a fr h
    or_stop-Lays P incomplete f h g = stay false
    or_stop-Lays P (error at) f h g = failed at
    or_stop-Lays P (failure at) f h g = failed at

    recover-Lays :
        (P : ℕ → Bytes → Span → Type 0) (x : IResult Span) (at : Span) (f : Span → Turn)
        → Reads P u x
        → ((i : Span) → IsPart u i → Leaves (f i))
        → Leaves (recover nom x k u at f)
    unfolding recover Reads
    recover-Lays P (ok i a) at f (w, fr, h) g = g i (IsFront-IsPart fr)
    recover-Lays P incomplete at f h g = stay false
    recover-Lays P (error at') at f h g = failed at
    recover-Lays P (failure at') at f h g = failed at

    pub or_crlf-Lays :
        {A : Type 0} (P : ℕ → Bytes → A → Type 0) (x : IResult A) (f : Span → A → Turn)
        (end : Span → Turn)
        → Reads P u x
        → ((i : Span) (w : Bytes) (a : A) → IsFront u w i → P u.addr w a → Leaves (f i a))
        → ((i : Span) → IsPart u i → Leaves (end i))
        → Leaves (or_crlf nom x k u f end)
    unfolding or_crlf Reads crlf
    or_crlf-Lays P (ok i a) f end (w, fr, h) g l = g i w a fr h
    or_crlf-Lays P incomplete f end h g l = stay false
    or_crlf-Lays P (error at) f end h g l =
        recover-Lays IsEnd (crlf nom u) at end (laws.tag (codes "\r\n") u) l
    or_crlf-Lays P (failure at) f end h g l =
        recover-Lays IsEnd (crlf nom u) at end (laws.tag (codes "\r\n") u) l
