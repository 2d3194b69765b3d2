-- ===== src/Tests/Buffers.antt =====
-- A small buffer with data on both sides of `head`, on which the theorems on `Buffer` are applied.
use kawa.Prelude.{
  codes, ◌+◌, ◌-◌, ◌≤◌, min, ◌≡◌, ◌↔◌, none, some, ◌++◌, arith, max64, length, take, drop,
}
use kawa.Storage.Span.{Span, IsPlaced}
use kawa.Storage.Buffer.{Buffer, shift, write, read, unparsed_data}
use kawa.Storage.Buffer.Valid.{IsValid}
use kawa.Storage.Buffer.Shift.{shift_lem, live, KeepsData}
use kawa.Storage.Buffer.Transfer.{write_appends, read_takes, read_overtakes}

abbrev pub memory : Span
memory = record { addr = 4096; bytes = codes "GET /a HTTP/1.1_" }

pub memory-IsPlaced : IsPlaced memory
memory-IsPlaced = record { fits = omega arith; small = omega arith }

abbrev pub half_parsed : Buffer
half_parsed = record { start = 4; head = 7; end = 12; buffer = memory }

pub half_parsed-IsValid : IsValid half_parsed
half_parsed-IsValid = record {
  placed = memory-IsPlaced;
  start_head = omega arith;
  head_end = omega arith;
  end_capacity = omega arith;
}

shift_lem_example : (c : Buffer) × (shift half_parsed ≡ some (c, 4)) × KeepsData half_parsed c
shift_lem_example = shift_lem half_parsed half_parsed-IsValid

write_appends_example :
    (c : Buffer) × (write half_parsed (codes "host")
      ≡ some (c, min (length (codes "host")) (16 - 12)))
    × IsValid c
    × (live c ≡ live half_parsed ++ take (16 - 12) (codes "host"))
    × (c.end ≡ 12 + min (length (codes "host")) (16 - 12))
write_appends_example = write_appends half_parsed (codes "host") half_parsed-IsValid

read_takes_example :
    (c : Buffer) × (read half_parsed 2 ≡ some (c, take 2 (live half_parsed), min (12 - 4) 2))
    × (live c ≡ drop 2 (live half_parsed))
    × (IsValid c ↔ (min (12 - 4) 2 ≤ 7 - 4))
read_takes_example = read_takes half_parsed 2 half_parsed-IsValid

read_overtakes_example :
    (c : Buffer) × (read half_parsed 5 ≡ some (c, take 5 (live half_parsed), min (12 - 4) 5))
    × (d : Buffer) × (shift c ≡ some (d, c.start))
    × (d.head ≡ max64 + 7 - c.start)
    × (unparsed_data d ≡ none)
read_overtakes_example =
    read_overtakes half_parsed 5 half_parsed-IsValid (omega arith) (omega arith)
