-- ===== src/Storage/Store/Consume.antt =====
-- `Store::consume`: it cuts off the front of the content.
use kawa.Prelude.{
  ℕ, ◌+◌, ◌-◌, ◌≤◌, ◌<◌, ◌≡◌, refl, sym, ap, ◌∙◌, ◌≢◌, inl, inr, some, [], arith, leb, leb→le,
  Bool-cases, max64, max32, add32, to_u32, sub64-eq-sub, Bytes, length, take, drop, length-drop,
  drop-nil, drop_all, drop-drop, drop-take,
}
use kawa.Storage.Slice.{Slice, IsInside, window, length-window, consume_lem as slice_consume_lem}
use kawa.Storage.Store.Content.{content, Fits, Consumed}
use kawa.Storage.Store.{
  Store, empty, slice, detached, static, alloc, shared, consume, consume_slice, consume_alloc,
}

-- The window that starts `n` bytes later.
pub window-drop :
    (buf : Bytes) (s : Slice) (n : ℕ)
    → window buf (record { start = s.start + n; len = s.len - n }) ≡ drop n (window buf s)
window-drop buf s n =
    ap (take (s.len - n)) (sym (drop-drop n s.start buf))
    ∙ sym (drop-take n s.len (drop s.start buf))

module _ (buf : Bytes) (small : length buf < max32) (n : ℕ) (word : n < max64) where
  consume_slice_lem :
      (s : Slice)
      → IsInside (length buf) s
      → Consumed (length buf) buf (window buf s) n (consume_slice s n)
  unfolding consume_slice
  consume_slice_lem s h =
      rw (slice_consume_lem s (length buf) n h small word) (elim (Bool-cases (leb s.len n)) [
        | inl all ↦ rw all (
          omega (arith, size, leb→le s.len n all),
          sym (drop_all n (window buf s) (omega (arith, size, leb→le s.len n all))),
          tt,
          ((λ _. omega (arith, size, leb→le s.len n all)), λ _. refl),
          λ e. cc,
        )
        | inr part ↦ rw part (part_lem (ground arith))
      ])
    where
      size : length (window buf s) ≡ s.len
      size = length-window buf s h

      part_lem :
          n < s.len
          → Consumed
              (length buf)
              buf
              (window buf s)
              n
              (0, some (slice (record { start = s.start + n; len = s.len - n })))
      part_lem less = (
        omega (arith, size),
        window-drop buf s n,
        record {
          inside = omega (arith, h.inside);
          start_word = omega (arith, h.inside);
          len_word = omega (arith, h.inside);
        },
        ((λ e. cc), λ le. absurd (omega (arith, size))),
        λ e. cc,
      )

  consume_alloc_lem :
      (keep : Bytes → ℕ → Store)
      → ((bs : Bytes) (i : ℕ) → content buf (keep bs i) ≡ drop i bs)
      → ((bs : Bytes) (i : ℕ) → i ≤ length bs → length bs < max32 → Fits (length buf) (keep bs i))
      → ((bs : Bytes) (i : ℕ) → some (keep bs i) ≢ some empty)
      → (bytes : Bytes) (index : ℕ) → index ≤ length bytes
      → length bytes < max32
      → Consumed (length buf) buf (drop index bytes) n (consume_alloc keep bytes index n)
  unfolding consume_alloc
  consume_alloc_lem keep kc kf kn bytes index h k =
      rw (sub64-eq-sub (length bytes) index (omega arith) h)
        (elim (Bool-cases (leb (length bytes - index) n)) [
          | inl all ↦ rw all (
            omega (arith, size, leb→le _ _ all),
            sym (drop_all n (drop index bytes) (omega (arith, size, leb→le _ _ all))),
            tt,
            ((λ _. omega (arith, size, leb→le _ _ all)), λ _. refl),
            λ e. cc,
          )
          | inr part ↦ rw part (part_lem (ground arith))
        ])
    where
      size : length (drop index bytes) ≡ length bytes - index
      size = length-drop index bytes

      part_lem :
          n < length bytes - index
          → Consumed
              (length buf)
              buf
              (drop index bytes)
              n
              (0, some (keep bytes (add32 index (to_u32 n))))
      part_lem less =
          let e : add32 index (to_u32 n) ≡ index + n = omega arith in
          rw e (
            omega (arith, size),
            kc bytes (index + n) ∙ sym (drop-drop n index bytes),
            kf bytes (index + n) (omega arith) k,
            ((λ e. cc), λ le. absurd (omega (arith, size))),
            kn bytes (index + n),
          )

  -- `consume` of `n` bytes keeps the content behind its first `n` bytes, returns how many of the
  -- `n` bytes the store did not have, and returns no store exactly when it had no more than `n`.
  pub store_consume_lem :
      (s : Store) → Fits (length buf) s → Consumed (length buf) buf (content buf s) n (consume s n)
  unfolding consume
  store_consume_lem empty h =
      (omega arith, sym (drop-nil n [] refl), tt, ((λ _. omega arith), λ _. refl), λ e. cc)
  store_consume_lem (slice s) h = consume_slice_lem s h
  store_consume_lem (detached s) h = consume_slice_lem s h
  store_consume_lem (static bytes) h = elim (Bool-cases (leb (length bytes) n)) [
    | inl all ↦ rw all (
      omega (arith, leb→le _ _ all),
      sym (drop_all n bytes (leb→le _ _ all)),
      tt,
      ((λ _. leb→le _ _ all), λ _. refl),
      λ e. cc,
    )
    | inr part ↦ rw part (
        let less : n < length bytes = ground arith in
        (
          omega arith,
          refl,
          omega (arith, length-drop {0} n bytes),
          ((λ e. cc), λ le. absurd (omega arith)),
          λ e. cc,
        ))
  ]
  store_consume_lem (alloc bytes index) h =
      consume_alloc_lem alloc (λ bs i. refl) (λ bs i p q. (p, q)) (λ bs i e. cc) bytes index h.0 h.1
  store_consume_lem (shared bytes index) h =
      consume_alloc_lem shared (λ bs i. refl) (λ bs i p q. (p, q)) (λ bs i e. cc) bytes index h.0
        h.1
