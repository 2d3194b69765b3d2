-- ===== src/Storage/Debug/Shown.antt =====
-- Which stores `Kawa::debug` writes, in order, and which of them can be written.
use kawa.Prelude.{
  ◌≤◌, ◌<◌, ◌≡◌, refl, sym, Bool, true, false, ◌&&◌, List, [], ◌∷◌, ◌++◌, leb, leb→le, le→leb,
  max32, length, All,
}
use kawa.Storage.Store.{Store}
use kawa.Storage.OutBlock.{OutBlock}
use kawa.Storage.Repr.{Block, Pair, StatusLine}
use kawa.Storage.Kawa.{Kawa}

-- The offsets of a slice are `u32`s.
unfoldable pub IsSized : Store → Type 0
IsSized Store.empty = Unit
IsSized (Store.slice s) = (s.start < max32) × (s.len < max32)
IsSized (Store.detached s) = (s.start < max32) × (s.len < max32)
IsSized (Store.static bytes) = Unit
IsSized (Store.alloc bytes index) = Unit
IsSized (Store.shared bytes index) = Unit

unfoldable pub readable : Store → Bool
readable Store.empty = true
readable (Store.slice s) = true
readable (Store.detached s) = true
readable (Store.static bytes) = true
readable (Store.alloc bytes index) = leb index (length bytes)
readable (Store.shared bytes index) = leb index (length bytes)

-- The index of an owned store is in its bytes.
unfoldable pub IsReadable : Store → Type 0
IsReadable Store.empty = Unit
IsReadable (Store.slice s) = Unit
IsReadable (Store.detached s) = Unit
IsReadable (Store.static bytes) = Unit
IsReadable (Store.alloc bytes index) = index ≤ length bytes
IsReadable (Store.shared bytes index) = index ≤ length bytes

-- The stores that are written, in order.
unfoldable pub line_shown : StatusLine → List Store
line_shown StatusLine.unknown = []
line_shown (StatusLine.request r) = r.method ∷ r.authority ∷ r.path ∷ r.uri ∷ []
line_shown (StatusLine.response r) = r.status ∷ r.reason ∷ []

unfoldable pub pair_shown : Pair → List Store
pair_shown p = p.key ∷ p.val ∷ []

unfoldable pub block_shown : Block → List Store
unfolding pair_shown
block_shown Block.status_line = []
block_shown Block.cookies = []
block_shown (Block.header p) = pair_shown p
block_shown (Block.chunk s) = s ∷ []
block_shown (Block.chunk_header s) = s ∷ []
block_shown (Block.flags g) = []

unfoldable pub out_shown : OutBlock → List Store
out_shown OutBlock.delimiter = []
out_shown (OutBlock.store s) = s ∷ []

unfoldable pub each {ℓ} : {A : Type ℓ} → (A → List Store) → List A → List Store
each shown [] = []
each shown (x ∷ xs) = shown x ++ each shown xs

unfoldable pub shown : Kawa → List Store
unfolding line_shown each pair_shown block_shown out_shown
shown k =
    line_shown k.detached.status_line
    ++ (each pair_shown k.detached.jar ++ (each block_shown k.blocks ++ each out_shown k.out))

unfoldable pub all_readable : List Store → Bool
unfolding readable
all_readable [] = true
all_readable (s ∷ ss) = readable s && all_readable ss

pub and_true : (a : Bool) → (a && true) ≡ a
and_true true = refl
and_true false = refl

and_assoc : (a b c : Bool) → ((a && b) && c) ≡ (a && (b && c))
and_assoc true b c = refl
and_assoc false b c = refl

pub all_readable-append :
    (ss ts : List Store) → all_readable (ss ++ ts) ≡ (all_readable ss && all_readable ts)
unfolding all_readable
all_readable-append [] ts = refl
all_readable-append (s ∷ ss) ts =
    rw (all_readable-append ss ts)
      (sym (and_assoc (readable s) (all_readable ss) (all_readable ts)))

pub parts_of : (ss ts : List Store) → All IsSized (ss ++ ts) → All IsSized ss × All IsSized ts
parts_of [] ts h = (tt, h)
parts_of (s ∷ ss) ts (h, hs) = let (a, b) = parts_of ss ts hs in ((h, a), b)

pub and-eq-true : (a b : Bool) → (a && b) ≡ true → (a ≡ true) × (b ≡ true)
and-eq-true true b h = (refl, h)
and-eq-true false b h = cc

readable→IsReadable : (s : Store) → readable s ≡ true → IsReadable s
unfolding readable IsReadable
readable→IsReadable Store.empty h = tt
readable→IsReadable (Store.slice s) h = tt
readable→IsReadable (Store.detached s) h = tt
readable→IsReadable (Store.static bytes) h = tt
readable→IsReadable (Store.alloc bytes index) h = leb→le _ _ h
readable→IsReadable (Store.shared bytes index) h = leb→le _ _ h

IsReadable→readable : (s : Store) → IsReadable s → readable s ≡ true
unfolding readable IsReadable
IsReadable→readable Store.empty h = refl
IsReadable→readable (Store.slice s) h = refl
IsReadable→readable (Store.detached s) h = refl
IsReadable→readable (Store.static bytes) h = refl
IsReadable→readable (Store.alloc bytes index) h = le→leb _ _ h
IsReadable→readable (Store.shared bytes index) h = le→leb _ _ h

pub all-IsReadable : (ss : List Store) → all_readable ss ≡ true → All IsReadable ss
unfolding all_readable
all-IsReadable [] h = tt
all-IsReadable (s ∷ ss) h =
    let (a, b) = and-eq-true (readable s) (all_readable ss) h in
    (readable→IsReadable s a, all-IsReadable ss b)

pub all_readable_lem : (ss : List Store) → All IsReadable ss → all_readable ss ≡ true
unfolding all_readable
all_readable_lem [] h = refl
all_readable_lem (s ∷ ss) (h, hs) = rw (IsReadable→readable s h, all_readable_lem ss hs) refl
