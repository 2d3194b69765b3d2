-- ===== src/Protocol/Lookup.antt =====
-- `src/protocol/utils.rs`: comparison without case, the macros that build a character lookup, and
-- the functions of the module that `compile_lookup!` makes.
pub mod Simd
pub mod Case
use kawa.Prelude.{
  Run, done, panic, out_of_fuel, to_run, then_run, codes, digit, push_digit, parse_digits,
  parse_uint, max_u16, max_usize, ℕ, zero, suc, ◌+◌, ◌-◌, ◌*◌, ◌/◌, ◌%◌, ◌^◌, ◌≤◌, ◌<◌, min, ◌≡◌,
  refl, sym, ap, ap₂, ◌∙◌, subst, ◌≢◌, ◌↔◌, ◌⊎◌, inl, inr, Bool, true, false, not, ◌&&◌, ◌||◌,
  Option, none, some, List, [], ◌∷◌, ◌++◌, map, append-nil, append_assoc, arith, ltb, leb, ◌==◌,
  if◌then◌else◌, ltb→lt, lt→ltb, le→ltb, leb→le, le→leb, lt→leb, ==_iff, Bool-cases, Option-cases,
  ◌>>=◌, ◌>>◌, bind-eq-some, max64, max32, add64, sub64, mul64, add32, sub32, to_u32, sub64-eq-sub,
  sub32-eq-sub, Bytes, length, get_elem?, set, take, drop, replicate, All, length-append,
  length-take, length-drop, length-set, length-replicate, take-append-drop, take_cong, drop_cong,
  take-nil, drop-nil, take_zero, take_prefix, drop_prefix, take_all, drop_all, drop-drop, take-take,
  drop-take, take-add, take-drop-append, take-drop-take, drop-append_of_le, drop-append, not_le,
}
use Prim.Native.Nat.{bit_or}
use kawa.Storage.Span.{Span, from, upto}
use kawa.Protocol.Nom.{IResult, ok, incomplete}

-- `iter().zip(right).all(…)`
unfoldable pub all_no_case : Bytes → Bytes → Bool
all_no_case (a ∷ left) (b ∷ right) = (bit_or a 0x20 == bit_or b 0x20) && all_no_case left right
all_no_case _ _ = true

unfoldable pub compare_no_case : Bytes → Bytes → Bool
unfolding all_no_case
compare_no_case left right =
    if not (length left == length right) then false else all_no_case left right

-- One item of a macro call: `lo..hi`, both ends included, or a single character.
pub data CharRange : Type 0 where
  between : ℕ → ℕ → CharRange
  only : ℕ → CharRange

unfoldable pub char_ranges : List CharRange → Bytes
char_ranges [] = []
char_ranges (between lo hi ∷ rules) = lo ∷ hi ∷ char_ranges rules
char_ranges (only c ∷ rules) = c ∷ c ∷ char_ranges rules

unfoldable pub char_predicate : List CharRange → ℕ → Bool
char_predicate [] c = true
char_predicate (between lo hi ∷ rules) c = (ltb c lo || ltb hi c) && char_predicate rules c
char_predicate (only r ∷ rules) c = not (c == r) && char_predicate rules c

-- The tables are arrays: 16 bytes of ranges, and a Boolean for each byte.
pub record CharLookup : Type 0 where
  pub ranges : Bytes
  pub table : ℕ → Bool
  pub len : ℕ

unfoldable pub make_char_lookup : List CharRange → CharLookup
unfolding char_ranges
make_char_lookup rules =
    let ranges = char_ranges rules in
    record {
      ranges = ranges ++ replicate (16 - length ranges) 0;
      table = char_predicate rules;
      len = length ranges;
    }

-- The scalar loop: how many bytes pass.
unfoldable pub scan : (ℕ → Bool) → Bytes → ℕ
scan table [] = 0
scan table (c ∷ input) = if table c then suc (scan table input) else 0

in_ranges : Bytes → ℕ → Bool
in_ranges (lo ∷ hi ∷ ranges) c = leb lo c && leb c hi || in_ranges ranges c
in_ranges _ c = false

-- `_mm_cmpestri` of `std::arch` on unsigned bytes, with ranges and the least significant index: the
-- index of the first byte of the block in one of the first `len / 2` ranges, or the block's size.
unfoldable pub cmpestri : Bytes → ℕ → Bytes → ℕ
unfolding in_ranges scan
cmpestri ranges len block = scan (λ c. not (in_ranges (take len ranges) c)) block

-- The loop over blocks of 16 bytes, `i` an address. A round moves `i` by 16, so the length of the
-- input is fuel enough.
simd_loop : ℕ → CharLookup → Span → ℕ → ℕ → ℕ × Bool
simd_loop zero l input limit i = (i, false)
simd_loop (suc fuel) l input limit i =
    let index = cmpestri l.ranges l.len (take 16 (drop (sub64 i input.addr) input.bytes)) in
    let rest = simd_loop fuel l input limit (i + 16) in
    if ltb i limit then if not (index == 16) then (i + index, true) else rest else (i, false)

-- Where the first invalid byte is.
unfoldable pub simd_index : CharLookup → Span → ℕ
unfolding simd_loop cmpestri
simd_index l input =
    let limit = sub64 (add64 input.addr (length input.bytes)) 16 in
    let (at, found) = simd_loop (length input.bytes) l input limit input.addr in
    let i = sub64 at input.addr in if not found then i + scan l.table (drop i input.bytes) else i

-- What both streaming functions do with the index.
unfoldable pub streaming : Span → ℕ → IResult Span
streaming input i = if i == length input.bytes then incomplete else ok (from input i) (upto input i)

unfoldable pub take_while_simd : CharLookup → Span → IResult Span
unfolding simd_index streaming
take_while_simd l input = streaming input (simd_index l input)

unfoldable pub take_while_complete_simd : CharLookup → Span → IResult Span
unfolding simd_index
take_while_complete_simd l input = let i = simd_index l input in ok (from input i) (upto input i)

unfoldable pub take_while : CharLookup → Span → IResult Span
unfolding scan streaming
take_while l input = streaming input (scan l.table input.bytes)

unfoldable pub take_while_complete : CharLookup → Span → IResult Span
unfolding scan
take_while_complete l input = let i = scan l.table input.bytes in ok (from input i) (upto input i)

-- With the feature `simd`.
unfoldable pub take_while_fast : CharLookup → Span → IResult Span
unfolding take_while_simd
take_while_fast l input = take_while_simd l input

unfoldable pub take_while_complete_fast : CharLookup → Span → IResult Span
unfolding take_while_complete_simd
take_while_complete_fast l input = take_while_complete_simd l input
