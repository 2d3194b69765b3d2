-- ===== src/Storage/Debug/Written.antt =====
-- Whether a function of `src/storage/debug.rs` writes, or panics.
use kawa.Prelude.{
  ◌≡◌, refl, inl, inr, Bool, true, false, ◌&&◌, Option, none, some, List, [], ◌∷◌, ◌++◌, arith, ltb,
  lt→ltb, ◌>>=◌,
}
use Prim.Native.String.{String}
use kawa.Storage.Buffer.{Buffer, capacity}
use kawa.Storage.Buffer.Meter.{meter_lem}
use kawa.Storage.Debug.{Text, Format, write_all, field, close, buffer_text}

unfoldable pub written : Option Text → Bool
written none = false
written (some t) = true

unfoldable pub all_written : List (Option Text) → Bool
unfolding written
all_written [] = true
all_written (w ∷ ws) = written w && all_written ws

pub written-write_all : (ws : List (Option Text)) → written (write_all ws) ≡ all_written ws
unfolding write_all written all_written
written-write_all [] = refl
written-write_all (none ∷ ws) = refl
written-write_all (some t ∷ ws) = last (write_all ws) (written-write_all ws)
  where
    last :
        (rest : Option Text)
        → written rest ≡ all_written ws
        → written (rest >>= (λ rest. some (t ++ rest))) ≡ all_written ws
    last none h = h
    last (some r) h = h

pub written-field :
    (sep : String) (pad : Text) (name : String) (value : Option Text)
    → written (field sep pad name value) ≡ written value
unfolding written field
written-field sep pad name none = refl
written-field sep pad name (some t) = refl

pub written-buffer_text :
    (f : Format) (b : Buffer) (pad : Text) → written (buffer_text f b pad) ≡ ltb 0 (capacity b)
unfolding buffer_text field close all_written written
written-buffer_text f b pad = elim (meter_lem b 20 (omega arith)) [
  | inl (h, cs, e, l) ↦ rw (written-write_all, e, lt→ltb _ _ h) refl
  | inr (z, e) ↦ rw (written-write_all, e, z) refl
]

pub written→some : (o : Option Text) → written o ≡ true → (t : Text) × (o ≡ some t)
unfolding written
written→some none h = cc
written→some (some t) h = (t, refl)
