-- ===== src/Storage/Store/Split.antt =====
-- `Store::split`: it cuts the content at the given place.
use kawa.Prelude.{
  ℕ, ◌+◌, ◌-◌, ◌≤◌, ◌<◌, ◌≡◌, refl, sym, ap, ◌∙◌, some, [], arith, max32, add64, add32, sub32,
  to_u32, Bytes, length, take, drop, length-take, length-drop, take_cong, take-nil, drop-nil,
  take_all, drop-drop, take-take,
}
use kawa.Storage.Span.{range-eq-some}
use kawa.Storage.Slice.{Slice, IsInside, window, length-window}
use kawa.Storage.Store.Content.{content, Fits}
use kawa.Storage.Store.{
  Store, empty, slice, detached, static, alloc, shared, split, split_slice, split_alloc,
}
use kawa.Storage.Store.Consume.{window-drop}

-- `split` cut a store of the buffer `buf` at `n`.
abbrev pub SplitAt : Bytes → Store → ℕ → Store × Store → Type 0
SplitAt buf s n (front, back) =
    (content buf front ≡ take n (content buf s))
    × (content buf back ≡ drop n (content buf s))
    × Fits (length buf) front
    × Fits (length buf) back

module _ (buf : Bytes) (small : length buf < max32) (n : ℕ) where
  split_slice_lem :
      (keep : Slice → Store)
      → ((s : Slice) → content buf (keep s) ≡ window buf s)
      → ((s : Slice) → IsInside (length buf) s → Fits (length buf) (keep s))
      → (s : Slice) → IsInside (length buf) s
      → n ≤ s.len
      → SplitAt buf (keep s) n (split_slice keep s (to_u32 n))
  unfolding split_slice
  split_slice_lem keep kc kf s h le =
      rw (word, start, size)
        (
          kc _ ∙ front ∙ ap (take n) (sym (kc s)),
          kc _ ∙ window-drop buf s n ∙ ap (drop n) (sym (kc s)),
          kf _ (record {
            inside = omega (arith, h.inside);
            start_word = h.start_word;
            len_word = omega (arith, h.len_word);
          }),
          kf _ (record {
            inside = omega (arith, h.inside);
            start_word = omega (arith, h.inside);
            len_word = omega (arith, h.len_word);
          }),
        )
    where
      word : to_u32 n ≡ n
      word = omega (arith, h.len_word)

      start : add32 s.start n ≡ s.start + n
      start = omega (arith, h.inside)

      size : sub32 s.len n ≡ s.len - n
      size = omega (arith, h.len_word)

      front : take n (drop s.start buf) ≡ take n (window buf s)
      front = take_cong _ (omega arith) ∙ sym (take-take n s.len (drop s.start buf))

  split_alloc_lem :
      (keep : Bytes → ℕ → Store)
      → ((bs : Bytes) (i : ℕ) → content buf (keep bs i) ≡ drop i bs)
      → ((bs : Bytes) (i : ℕ) → i ≤ length bs → length bs < max32 → Fits (length buf) (keep bs i))
      → (bytes : Bytes) (index : ℕ) → index ≤ length bytes
      → length bytes < max32
      → n ≤ length bytes - index
      → (p : Store × Store) × (split_alloc keep bytes index n ≡ some p)
        × SplitAt buf (keep bytes index) n p
  unfolding split_alloc
  split_alloc_lem keep kc kf bytes index h k le = (
    (alloc (take n (drop index bytes)) 0, keep bytes (index + n)),
    rw (stop, range-eq-some bytes index (index + n) (omega arith) (omega arith), size, next),
    (
      ap (take n) (sym (kc bytes index)),
      kc bytes (index + n) ∙ sym (drop-drop n index bytes) ∙ ap (drop n) (sym (kc bytes index)),
      omega (arith, length-take {0} n (drop index bytes)),
      kf bytes (index + n) (omega arith) k,
    ),
  )
    where
      stop : add64 index n ≡ index + n
      stop = omega arith

      size : index + n - index ≡ n
      size = omega arith

      next : add32 index (to_u32 n) ≡ index + n
      next = omega arith

  -- `split` at a place inside the content does not panic; the front store stands for the first `n`
  -- bytes, the back store for the others.
  pub store_split_lem :
      (s : Store)
      → Fits (length buf) s
      → n ≤ length (content buf s)
      → (p : Store × Store) × (split s n ≡ some p) × SplitAt buf s n p
  unfolding split
  store_split_lem empty h le =
      ((empty, empty), refl, (sym (take-nil n [] refl), sym (drop-nil n [] refl), tt, tt))
  store_split_lem (slice s) h le = (
    split_slice slice s (to_u32 n),
    refl,
    split_slice_lem slice (λ s. refl) (λ s p. p) s h (omega (arith, length-window buf s h)),
  )
  store_split_lem (detached s) h le = (
    split_slice detached s (to_u32 n),
    refl,
    split_slice_lem detached (λ s. refl) (λ s p. p) s h (omega (arith, length-window buf s h)),
  )
  store_split_lem (static bytes) h le = (
    (static (take n bytes), static (drop n bytes)),
    rw (
      range-eq-some bytes 0 n (omega arith) le,
      range-eq-some bytes n (length bytes) le (omega arith),
      take_all (length bytes - n) (drop n bytes) (omega (arith, length-drop {0} n bytes)),
      size,
    ),
    (refl, refl, omega (arith, length-take {0} n bytes), omega (arith, length-drop {0} n bytes)),
  )
    where
      size : n - 0 ≡ n
      size = omega arith
  store_split_lem (alloc bytes index) h le =
      split_alloc_lem alloc (λ bs i. refl) (λ bs i p q. (p, q)) bytes index h.0 h.1
        (omega (arith, length-drop {0} index bytes))
  store_split_lem (shared bytes index) h le =
      split_alloc_lem shared (λ bs i. refl) (λ bs i p q. (p, q)) bytes index h.0 h.1
        (omega (arith, length-drop {0} index bytes))
