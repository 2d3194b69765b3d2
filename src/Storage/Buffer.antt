-- ===== src/Storage/Buffer.antt =====
-- `src/storage/buffer.rs`: the buffer that data is read into, parsed in and sent from.
-- A panic is `none`. `T: AsBuffer` is a borrowed region of bytes, as in `SliceBuffer`.
pub mod Valid
pub mod Shift
pub mod Transfer
pub mod Meter
use kawa.Prelude.{
  ℕ, ◌+◌, ◌-◌, ◌/◌, ◌≤◌, ◌<◌, ◌≡◌, min, Bool, true, false, ◌&&◌, ◌||◌, Option, none, some, ltb,
  ◌==◌, if◌then◌else◌, ◌>>=◌, ◌>>◌, Bytes, length, take, add64, sub64,
}
use kawa.Storage.Span.{Span, range, sub_span, overwrite}

pub record Buffer : Type 0 where
  pub start : ℕ
  pub head : ℕ
  pub end : ℕ
  pub buffer : Span

unfoldable pub new : Span → Buffer
new buffer = record { start = 0; head = 0; end = 0; buffer = buffer }

abbrev pub capacity : Buffer → ℕ
capacity b = length b.buffer.bytes

unfoldable pub available_data : Buffer → ℕ
available_data b = sub64 b.end b.start

unfoldable pub available_space : Buffer → ℕ
available_space b = sub64 (capacity b) b.end

unfoldable pub is_empty : Buffer → Bool
is_empty b = b.start == b.end

unfoldable pub is_full : Buffer → Bool
is_full b = b.end == capacity b

unfoldable pub fill : Buffer → ℕ → Buffer × ℕ
unfolding available_space
fill b count =
    let count' = min count (available_space b) in (record b { end = add64 b.end count' }, count')

unfoldable pub consume : Buffer → ℕ → Buffer × ℕ
unfolding available_data
consume b count =
    let count' = min count (available_data b) in (record b { start = add64 b.start count' }, count')

unfoldable pub clear : Buffer → Buffer
clear b = record b { start = 0; head = 0; end = 0 }

-- The slices of `data`, `unparsed_data`, `space` and `used`.
unfoldable pub data_of : Buffer → Option Bytes
data_of b = range b.buffer.bytes b.start b.end

unfoldable pub unparsed_data : Buffer → Option Span
unparsed_data b = sub_span b.buffer b.head b.end

unfoldable pub space : Buffer → Option Bytes
space b = range b.buffer.bytes b.end (capacity b)

unfoldable pub used : Buffer → Option Bytes
used b = range b.buffer.bytes 0 b.end

unfoldable pub should_shift : Buffer → Bool
unfolding is_empty
should_shift b = ltb (capacity b / 2) b.start || ltb 0 b.start && is_empty b

-- The body of `shift` at `start > 0`: both slices are taken before the copy.
shift_down : Buffer → ℕ → ℕ → Option (Buffer × ℕ)
shift_down b start len = do
  moved ← range b.buffer.bytes start b.end
  range b.buffer.bytes 0 len
  let buffer = record (b.buffer) { bytes = overwrite b.buffer.bytes 0 moved }
  some (record { start = 0; head = sub64 b.head start; end = len; buffer = buffer }, start)

unfoldable pub shift : Buffer → Option (Buffer × ℕ)
unfolding shift_down
shift b = if ltb 0 b.start then shift_down b b.start (sub64 b.end b.start) else some (b, b.start)

-- `io::Write`: std writes as many bytes into a slice as fit, and never fails.
unfoldable pub write : Buffer → Bytes → Option (Buffer × ℕ)
unfolding fill
write b buf = do
  free ← space b
  let size = min (length buf) (length free)
  let buffer = record (b.buffer) { bytes = overwrite b.buffer.bytes b.end (take size buf) }
  some ((fill (record b { buffer = buffer }) size).0, size)

-- `io::Read` into a slice of `n` bytes: the bytes that are copied to its front, and their number.
unfoldable pub read : Buffer → ℕ → Option (Buffer × Bytes × ℕ)
unfolding available_data
read b n = do
  let len = min (available_data b) n
  copied ← range b.buffer.bytes b.start (add64 b.start len)
  some (record b { start = add64 b.start len }, copied, len)
