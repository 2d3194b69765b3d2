-- ===== src/Protocol/Parser/Safe.antt =====
-- What a turn of `parse` must leave for the next one, and for `process_headers`.
use kawa.Prelude.{
  ℕ, ◌≤◌, ◌<◌, ◌≡◌, refl, Bool, true, false, List, [], ◌∷◌, ◌++◌, max32, length, All,
}
use kawa.Storage.Span.{Span, IsPart, IsPart-refl}
use kawa.Storage.Buffer.{Buffer}
use kawa.Storage.Buffer.Valid.{IsValid}
use kawa.Storage.Slice.{data_of-new}
use kawa.Storage.Store.{new_slice}
use kawa.Storage.Repr.{Block, ParsingPhase, to_error}
use kawa.Storage.Kawa.{Kawa}
use kawa.Protocol.Nom.{Nom, IResult}
use kawa.Protocol.Nom.Parts.{Yields}
use kawa.Protocol.Primitives.{crlf}
use kawa.Protocol.Headers.Runs.{SliceIn, LineRaw, BlockRaw}
use kawa.Protocol.Parser.{Turn, next, stop, or_stop, recover, or_crlf, failed_at}

-- A buffer that the parser may work in: its invariant, offsets that fit a `u32`, and not in the
-- first 16 bytes of memory, which no allocation is.
pub record IsMemory (b : Buffer) : Type 0 where
  pub valid : IsValid b
  pub small : length b.buffer.bytes < max32
  pub page : 16 ≤ b.buffer.addr

-- The phases behind `process_headers`.
abbrev pub late : ParsingPhase → Bool
late ParsingPhase.status_line = false
late ParsingPhase.headers = false
late (ParsingPhase.cookies first) = false
late _ = true

-- Before `process_headers` the request line and the headers are slices of the buffer.
abbrev pub Raw : Kawa → Type 0
Raw k =
    LineRaw (length k.storage.buffer.bytes) k.detached.status_line
    × All (BlockRaw (length k.storage.buffer.bytes)) k.blocks

abbrev pub RawAt : Bool → Kawa → Type 0
RawAt true k = Unit
RawAt false k = Raw k

pub from_RawAt : (l : Bool) (k : Kawa) → l ≡ false → RawAt l k → Raw k
from_RawAt true k e r = cc
from_RawAt false k e r = r

-- A late phase is never left for an early one.
abbrev pub Onwards : Bool → Bool → Type 0
Onwards w true = Unit
Onwards false false = Unit
Onwards true false = ⊥

Onwards-refl : (w : Bool) → Onwards w w
Onwards-refl true = tt
Onwards-refl false = tt

-- Only an early phase asks for `process_headers`, and stays early.
abbrev pub Stops : Bool → Bool → Bool → Type 0
Stops w l false = Onwards w l
Stops w l true = (w ≡ false) × (l ≡ false)

-- What a turn from `k` leaves of the input `u`.
abbrev pub Good : Kawa → Span → Turn → Type 0
Good k u (next j r) =
    (j.storage ≡ k.storage)
    × IsPart u r
    × RawAt (late j.parsing_phase) j
    × Onwards (late k.parsing_phase) (late j.parsing_phase)
Good k u (stop j r need) =
    (j.storage ≡ k.storage)
    × IsPart u r
    × RawAt (late j.parsing_phase) j
    × Stops (late k.parsing_phase) (late j.parsing_phase) need

pub stop_here : (k : Kawa) (u : Span) → RawAt (late k.parsing_phase) k → Good k u (stop k u false)
stop_here k u h = (refl, IsPart-refl u, h, Onwards-refl (late k.parsing_phase))

pub slice_in :
    (b : Buffer) (part : Span)
    → IsMemory b
    → IsPart b.buffer part
    → SliceIn (length b.buffer.bytes) (new_slice b.buffer part)
unfolding new_slice
slice_in b part m p = (data_of-new b.buffer part m.valid.placed p m.small).0

pub All-snoc :
    (n : ℕ) (bs : List Block) (b : Block)
    → All (BlockRaw n) bs
    → BlockRaw n b
    → All (BlockRaw n) (bs ++ (b ∷ []))
All-snoc n [] b h p = (p, tt)
All-snoc n (c ∷ bs) b h p = (h.0, All-snoc n bs b h.1 p)

module _ (nom : Nom) where
  stop_failed : (k : Kawa) (u at : Span) → Good k u (stop (failed_at nom k at) u false)
  unfolding failed_at to_error
  stop_failed k u at = (refl, IsPart-refl u, tt, tt)

  pub or_stop-Good :
      {A : Type 0} (P : A → Type 0) (x : IResult A) (k : Kawa) (u : Span) (f : Span → A → Turn)
      → RawAt (late k.parsing_phase) k
      → Yields P u x
      → ((i : Span) (a : A) → IsPart u i → P a → Good k u (f i a))
      → Good k u (or_stop nom x k u f)
  unfolding or_stop
  or_stop-Good P (IResult.ok i a) k u f h y g = g i a y.0 y.1
  or_stop-Good P IResult.incomplete k u f h y g = stop_here k u h
  or_stop-Good P (IResult.error at) k u f h y g = stop_failed k u at
  or_stop-Good P (IResult.failure at) k u f h y g = stop_failed k u at

  recover-Good :
      (x : IResult Span) (k : Kawa) (u at : Span) (f : Span → Turn)
      → RawAt (late k.parsing_phase) k
      → Yields (IsPart u) u x
      → ((i : Span) → IsPart u i → Good k u (f i))
      → Good k u (recover nom x k u at f)
  unfolding recover
  recover-Good (IResult.ok i a) k u at f h y g = g i y.0
  recover-Good IResult.incomplete k u at f h y g = stop_here k u h
  recover-Good (IResult.error at') k u at f h y g = stop_failed k u at
  recover-Good (IResult.failure at') k u at f h y g = stop_failed k u at

  pub or_crlf-Good :
      {A : Type 0} (P : A → Type 0) (x : IResult A) (k : Kawa) (u : Span) (f : Span → A → Turn)
      (end : Span → Turn)
      → RawAt (late k.parsing_phase) k
      → Yields P u x
      → Yields (IsPart u) u (crlf nom u)
      → ((i : Span) (a : A) → IsPart u i → P a → Good k u (f i a))
      → ((i : Span) → IsPart u i → Good k u (end i))
      → Good k u (or_crlf nom x k u f end)
  unfolding or_crlf
  or_crlf-Good P (IResult.ok i a) k u f end h y c g l = g i a y.0 y.1
  or_crlf-Good P IResult.incomplete k u f end h y c g l = stop_here k u h
  or_crlf-Good P (IResult.error at) k u f end h y c g l = recover-Good (crlf nom u) k u at end h c l
  or_crlf-Good P (IResult.failure at) k u f end h y c g l =
      recover-Good (crlf nom u) k u at end h c l
