-- ===== src/Prelude/Text.antt =====
-- ASCII text as bytes, and the unsigned parsers of std.
use Prim.Native.Nat.{ℕ, ◌+◌, ◌-◌, ◌*◌, ◌^◌}
use Prim.Native.Char.{code}
use Prim.Native.String.{String}
use mathlib.Core.Bool.{◌&&◌}
use mathlib.Core.Option.{Option, none, some}
use mathlib.Core.List.{[], ◌∷◌}
use kawa.Prelude.Tests.{ltb, leb, ◌==◌, if◌then◌else◌, ◌>>=◌}
use kawa.Prelude.Lists.{Bytes}

-- The code points of a text: its bytes, if it is ASCII.
abbrev pub codes : String → Bytes
codes String.[] = []
codes (String.◌∷◌ c s) = code c ∷ codes s

-- The digits of `from_str_radix`, over an accumulator that must stay at or below `max`.
abbrev pub digit : ℕ → Option ℕ
digit c =
    if leb b'0' c && leb c b'9'
    then some (c - b'0')
    else if leb b'a' c && leb c b'f'
    then some (c - b'a' + 10)
    else if leb b'A' c && leb c b'F'
    then some (c - b'A' + 10)
    else none

-- One round: `acc * radix + digit`, both checked.
unfoldable pub push_digit : ℕ → ℕ → ℕ → ℕ → Option ℕ
push_digit radix max acc c = do
  d ← digit c
  if ltb d radix && leb (acc * radix + d) max then some (acc * radix + d) else none

unfoldable pub parse_digits : ℕ → ℕ → ℕ → Bytes → Option ℕ
parse_digits radix max acc [] = some acc
parse_digits radix max acc (c ∷ cs) = elim (push_digit radix max acc c) [
  | none ↦ none
  | some acc' ↦ parse_digits radix max acc' cs
]

-- `from_utf8(bytes).ok().and_then(|s| s.parse().ok())` of std at an unsigned type of maximum `max`:
-- one leading `+` is taken, and at least one digit is needed. Other bytes, all that are not ASCII
-- among them, are no digits.
unfoldable pub parse_uint : ℕ → ℕ → Bytes → Option ℕ
unfolding parse_digits push_digit
parse_uint radix max [] = none
parse_uint radix max (c ∷ []) = if c == b'+' then none else parse_digits radix max 0 (c ∷ [])
parse_uint radix max (c ∷ d ∷ cs) =
    if c == b'+' then parse_digits radix max 0 (d ∷ cs) else parse_digits radix max 0 (c ∷ d ∷ cs)

abbrev pub max_u16 : ℕ
max_u16 = 2 ^ 16 - 1

abbrev pub max_usize : ℕ
max_usize = 2 ^ 64 - 1
