-- ===== src/Storage/Kawa/Stream.antt =====
-- The output queue as a stream of bytes: what `as_io_slice` shows, and what `consume` removes.
use kawa.Prelude.{
  ℕ, ◌-◌, ◌≤◌, ◌<◌, ◌≡◌, refl, sym, ap, ◌∙◌, subst, Bool, false, ◌||◌, Option, none, some, List, [],
  ◌∷◌, ◌++◌, arith, if◌then◌else◌, max64, max32, Bytes, length, drop, length-append, drop_cong,
  drop-nil, drop-append_of_le, drop-append, not_le,
}
use kawa.Storage.Span.{Span}
use kawa.Storage.Store
use kawa.Storage.Store.{Store, empty, slice, detached, static, alloc, shared}
use kawa.Storage.Store.Content.{content, Fits, Consumed, store_data_of_lem}
use kawa.Storage.Store.Consume.{store_consume_lem}
use kawa.Storage.Store.Place.{consume-KeepsPlace, Placed, next_place, KeepsPlace}
use kawa.Storage.OutBlock
use kawa.Storage.OutBlock.{OutBlock, delimiter, store}
use kawa.Storage.Kawa.{io_slices, consume_out}

-- All bytes of the queue, in order.
abbrev pub stream : Bytes → List OutBlock → Bytes
stream buf [] = []
stream buf (delimiter ∷ out) = stream buf out
stream buf (store s ∷ out) = content buf s ++ stream buf out

abbrev pub OutFits : ℕ → List OutBlock → Type 0
OutFits size [] = Unit
OutFits size (delimiter ∷ out) = OutFits size out
OutFits size (store s ∷ out) = Fits size s × OutFits size out

-- The stores up to the end or a delimiter, and whether one of them is `Empty`.
abbrev pub frame : Bytes → List OutBlock → List Bytes
frame buf [] = []
frame buf (delimiter ∷ out) = []
frame buf (store s ∷ out) = content buf s ∷ frame buf out

abbrev pub frame_has_empty : List OutBlock → Bool
frame_has_empty [] = false
frame_has_empty (delimiter ∷ out) = false
frame_has_empty (store s ∷ out) = Store.is_empty s || frame_has_empty out

pub as_io_slice_shows :
    (buf : Span) (out : List OutBlock)
    → OutFits (length buf.bytes) out
    → io_slices buf out ≡ (if frame_has_empty out then none else some (frame buf.bytes out))
unfolding io_slices
as_io_slice_shows buf [] f = refl
as_io_slice_shows buf (delimiter ∷ out) f = refl
as_io_slice_shows buf (store s ∷ out) f =
    rw (store_data_of_lem s buf f.0, as_io_slice_shows buf out f.1) (ground arith)

-- The slices lie one behind the other between `lo` and `hi`, and no store is `Detached`.
abbrev pub InOrder : ℕ → ℕ → List OutBlock → Type 0
InOrder lo hi [] = lo ≤ hi
InOrder lo hi (delimiter ∷ out) = InOrder lo hi out
InOrder lo hi (store s ∷ out) = Placed lo s × InOrder (next_place lo s) hi out

-- What `consume_out` leaves of a queue after `n` bytes.
pub record Remains (buf : Bytes) (lo hi : ℕ) (out : List OutBlock) (n : ℕ) (r : List OutBlock × ℕ)
    : Type 0 where
  pub left : r.1 ≡ n - length (stream buf out)
  pub bytes : stream buf r.0 ≡ drop n (stream buf out)
  pub fits : OutFits (length buf) r.0
  pub order : InOrder lo hi r.0

module _ (buf : Bytes) (small : length buf < max32) (hi : ℕ) where
  pub InOrder-mono :
      (out : List OutBlock) (lo lo' : ℕ) → lo' ≤ lo → InOrder lo hi out → InOrder lo' hi out
  InOrder-mono [] lo lo' h o = omega arith
  InOrder-mono (delimiter ∷ out) lo lo' h o = InOrder-mono out lo lo' h o
  InOrder-mono (store empty ∷ out) lo lo' h o = (tt, InOrder-mono out lo lo' h o.1)
  InOrder-mono (store (slice s) ∷ out) lo lo' h o = (omega (arith, o.0), o.1)
  InOrder-mono (store (detached s) ∷ out) lo lo' h o = absurd o.0
  InOrder-mono (store (static bytes) ∷ out) lo lo' h o = (tt, InOrder-mono out lo lo' h o.1)
  InOrder-mono (store (alloc bytes index) ∷ out) lo lo' h o = (tt, InOrder-mono out lo lo' h o.1)
  InOrder-mono (store (shared bytes index) ∷ out) lo lo' h o = (tt, InOrder-mono out lo lo' h o.1)

  place-le : (lo : ℕ) (s : Store) → Placed lo s → lo ≤ next_place lo s
  place-le lo (slice s) p = omega arith
  place-le lo (detached s) p = absurd p
  place-le lo empty p = omega arith
  place-le lo (static bytes) p = omega arith
  place-le lo (alloc bytes index) p = omega arith
  place-le lo (shared bytes index) p = omega arith

  -- One store is consumed, and the queue behind it by what it leaves of the amount.
  consume_first :
      (s : Store) (out : List OutBlock) (lo n : ℕ) (r : ℕ × Option Store)
      → OutFits (length buf) (store s ∷ out)
      → InOrder lo hi (store s ∷ out)
      → Consumed (length buf) buf (content buf s) n r
      → KeepsPlace lo s r.1
      → Remains buf (next_place lo s) hi out r.0 (consume_out out r.0)
      → Remains buf lo hi
          (store s ∷ out)
          n
          (elim r.1 [ some t ↦ (store t ∷ out, r.0) | none ↦ consume_out out r.0 ])
  consume_first s out lo n (remaining, none) f o (left, rest, fits, ends, ne) k ih = record {
    left = omega (arith, ih.left, left, length-append {0} (content buf s) (stream buf out));
    bytes =
        ih.bytes
        ∙ drop_cong (stream buf out) left
        ∙ ap (λ z. z ++ drop (n - length (content buf s)) (stream buf out)) rest
        ∙ sym (drop-append n (content buf s) (stream buf out));
    fits = ih.fits;
    order =
        InOrder-mono (consume_out out remaining).0 (next_place lo s) lo (place-le lo s o.0)
          ih.order;
  }
  consume_first s out lo n (remaining, some t) f o (left, rest, fits, ends, ne) k ih =
      let less : n < length (content buf s) = not_le (λ h. cc (ends.1 h)) in
      record {
        left = omega (arith, left, length-append {0} (content buf s) (stream buf out));
        bytes =
            ap (λ z. z ++ stream buf out) rest
            ∙ sym (drop-append_of_le n (content buf s) (stream buf out) (omega arith));
        fits = (fits, f.1);
        order = (k.0, subst (λ z. InOrder z hi out) (sym k.1) o.1);
      }

  pub consume_out_lem :
      (out : List OutBlock) (lo n : ℕ)
      → n < max64
      → OutFits (length buf) out
      → InOrder lo hi out
      → Remains buf lo hi out n (consume_out out n)
  unfolding consume_out OutBlock.consume
  consume_out_lem [] lo n w f o = record {
    left = omega arith;
    bytes = sym (drop-nil n [] refl);
    fits = tt;
    order = o;
  }
  consume_out_lem (delimiter ∷ out) lo n w f o =
      let ih = consume_out_lem out lo n w f o in
      record { left = ih.left; bytes = ih.bytes; fits = ih.fits; order = ih.order }
  consume_out_lem (store s ∷ out) lo n w f o =
      let c = store_consume_lem buf small n w s f.0 in
      consume_first s out lo n (Store.consume s n) f o c
        (consume-KeepsPlace (length buf) small n w lo s f.0 o.0)
        (consume_out_lem out (next_place lo s) _ (omega (arith, c.0)) f.1 o.1)
