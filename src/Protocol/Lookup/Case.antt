-- ===== src/Protocol/Lookup/Case.antt =====
-- `compare_no_case` on header names.
use kawa.Prelude.{
  ℕ, zero, suc, ◌+◌, ◌<◌, ◌≡◌, refl, sym, ap, ap₂, ◌∙◌, ◌↔◌, inl, inr, Bool, true, false, not, ◌&&◌,
  ◌||◌, [], ◌∷◌, map, arith, leb, ◌==◌, if◌then◌else◌, ==_iff, Bool-cases, Bytes, length, All,
}
use Prim.Native.Nat.{bit_or}
use kawa.Protocol.Lookup.{all_no_case, compare_no_case, char_predicate}
use kawa.Protocol.Primitives.{tchar_rules}

-- ASCII lower case.
abbrev pub lower : ℕ → ℕ
lower c = if leb b'A' c && leb c b'Z' then c + 32 else c

abbrev is_name_byte : ℕ → Bool
is_name_byte c = leb b'a' c && leb c b'z' || c == b'-'

-- A byte of a header name, as the parser takes it.
abbrev pub IsTchar : ℕ → Type 0
IsTchar c = (c < 256) × (char_predicate tchar_rules c ≡ true)

-- A byte of a name in the source: a small letter or a dash.
abbrev pub IsNameByte : ℕ → Type 0
IsNameByte d = (d < 128) × (is_name_byte d ≡ true)

abbrev below : ℕ → (ℕ → Bool) → Bool
below zero p = true
below (suc n) p = p n && below n p

both : (a b : Bool) → a && b ≡ true → (a ≡ true) × (b ≡ true)
both true b h = (refl, h)
both false b h = cc

below_lem : (n : ℕ) (p : ℕ → Bool) (c : ℕ) → below n p ≡ true → c < n → p c ≡ true
below_lem zero p c h k = absurd (omega arith)
below_lem (suc n) p c h k = elim (Bool-cases (c == n)) [
  | inl e ↦ ap p ((==_iff c n).0 e) ∙ (both (p n) (below n p) h).0
  | inr e ↦ below_lem n p c (both (p n) (below n p) h).1 (ground arith)
]

abbrev same : Bool → Bool → Bool
same true b = b
same false b = not b

abbrev byte_agrees : ℕ → ℕ → Bool
byte_agrees d c =
    if is_name_byte d && char_predicate tchar_rules c
    then same (bit_or c 0x20 == bit_or d 0x20) (lower c == d)
    else true

table : below 128 (λ d. below 256 (byte_agrees d)) ≡ true
unfolding char_predicate
table = refl

same_eq : (a b : Bool) → same a b ≡ true → a ≡ b
same_eq true b h = sym h
same_eq false true h = cc
same_eq false false h = refl

byte_agrees_lem :
    (c d : ℕ) → IsTchar c → IsNameByte d → (bit_or c 0x20 == bit_or d 0x20) ≡ (lower c == d)
byte_agrees_lem c d t n = same_eq _ _ (
    rw (n.1, t.1) at
      (below_lem 256 (byte_agrees d) c (below_lem 128 (λ d. below 256 (byte_agrees d)) d table n.0)
        t.0))

all_no_case_lem :
    (key name : Bytes)
    → All IsTchar key
    → All IsNameByte name
    → length key ≡ length name
    → (all_no_case key name ≡ true) ↔ (map lower key ≡ name)
unfolding all_no_case
all_no_case_lem [] [] t n h = ((λ _. refl), λ _. refl)
all_no_case_lem [] (d ∷ name) t n h = absurd (omega (arith, h))
all_no_case_lem (c ∷ key) [] t n h = absurd (omega (arith, h))
all_no_case_lem (c ∷ key) (d ∷ name) t n h =
    let rest = all_no_case_lem key name t.1 n.1 (omega (arith, h)) in
    let byte = byte_agrees_lem c d t.0 n.0 in
    (
      (λ e.
          let (one, more) = both _ _ e in
          ap₂ (λ x xs. x ∷ xs) ((==_iff (lower c) d).0 (sym byte ∙ one)) (rest.0 more)),
      (λ e. rw (byte, (==_iff (lower c) d).1 (cc e), rest.1 (cc e)) refl),
    )

length-map : (f : ℕ → ℕ) (xs : Bytes) → length (map f xs) ≡ length xs
length-map f [] = refl
length-map f (x ∷ xs) = ap suc (length-map f xs)

-- On a header name that the parser takes and a name of small letters and dashes,
-- `compare_no_case` holds exactly when the two agree in ASCII lower case.
pub compare_no_case_lem :
    (key name : Bytes)
    → All IsTchar key
    → All IsNameByte name
    → (compare_no_case key name ≡ true) ↔ (map lower key ≡ name)
unfolding compare_no_case
compare_no_case_lem key name t n = elim (Bool-cases (length key == length name)) [
  | inl e ↦ rw e (all_no_case_lem key name t n ((==_iff _ _).0 e))
  | inr e ↦ rw e ((λ q. cc q), λ q. absurd (ground (arith, e, length-map lower key, ap length q)))
]
