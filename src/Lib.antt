-- ===== src/Lib.antt =====
-- Kawa: an HTTP parser that works in place on one buffer, and sends what it parsed without copying.
--
-- How the parts fit together. Bytes are read into a `Buffer` (src/storage/buffer.rs). The parser
-- (src/protocol/h1/parser) reads what lies behind `head`, and pushes blocks whose `Store`s
-- (src/storage/repr.rs) refer to the buffer by offset and length. A converter
-- (src/protocol/h1/converter.rs, src/protocol/h2/converter.rs) turns blocks into the output queue
-- `out`. `as_io_slice` shows the queue to a socket, and `consume` drops what was sent and releases
-- the front of the buffer, which may shift it: then every offset is moved by the same amount.
--
-- Files.
--   Prelude: native numbers, lists of bytes, machine words, text, and the results of runs.
--   Storage/Span: a byte slice of Rust, with its address. `range` and `sub_span` are indexing, that
--     panics out of range.
--   Storage/Buffer: `Buffer`; Valid, Shift and Transfer are on its invariant, `shift`, and `Read` and
--     `Write`; Meter is its gauge.
--   Storage/Slice, Storage/Store: `Slice` and `Store`. Content defines the bytes that a store stands
--     for; Consume, Split, Place and Modify hold the proofs on `consume`, `split`, `modify` and
--     `push_left`.
--   Storage/Repr, Storage/OutBlock: the other data of repr.rs.
--   Storage/Kawa: the methods of `Kawa`; Stream, Shift and Consume are on `as_io_slice` and
--     `consume`.
--   Storage/VecDeque: src/storage/vecdeque.rs, the ring that the queues are with the feature
--     custom-vecdeque. Ring says which list a ring holds, Mask is on the mask of its index, Slices,
--     Growth, Pushes, Pops and Walk are on the operations, and Refine is on runs of them.
--   Storage/Debug: src/storage/debug.rs; Shown says which stores it writes, Written and Panics when
--     it writes a text.
--   Storage/Prepare: the trait `BlockConverter` and `Kawa::prepare`.
--   Protocol/Nom: the functions of the crate nom that the parsers call, as a record that the model
--     takes as a parameter.
--   Protocol/Lookup: src/protocol/utils.rs; Simd is on its two searches, Case on
--     `compare_no_case`.
--   Protocol/Primitives, Protocol/Url: src/protocol/h1/parser/primitives.rs.
--   Protocol/Headers, Protocol/Parser: src/protocol/h1/parser/mod.rs, `process_headers` and `parse`;
--     Headers/Lengths and Sizes are on the headers that give the length of the body, Hosts on those
--     that give the authority, and Headers/Runs on its indexing. Parser/Shrinks and Parser/Ends are
--     on the end of the inner loop of `parse`, Parser/Safe, Turns, Ended, Parsed and Returns on what
--     its turns and rounds leave. Parser/Body is on a body with a Content-Length, Parser/Arrival on
--     such a body that arrives in pieces, Parser/Chunk on the data of a chunk.
--   Nom/Laws says how many bytes a parser of nom takes, and Primitives/Takes how many those of the
--     source take; Nom/Parts says that what a parser of nom returns are parts of its input, and
--     Primitives/Parts that this is so for those of the source. Nom/Reads says exactly which bytes a
--     parser of nom reads, and Primitives/Reads, Lines and Crumbs which lines those of the source
--     accept; Nom/Accepts and Primitives/Accepts say the other way round where they succeed.
--   Protocol/H1, Protocol/H2: the two converters. H1/Wire and H2/Wire describe the text of a message
--     by itself; H1/Output, H1/Writes, H2/Texts, H2/Blocks and H2/Writes are on the runs that write
--     it.
--   Protocol/Rewrite: a header line that is parsed and written back, or written and parsed.
--   Protocol/Order: the order of the slices in a response. Lays, Heads, Turns, Stands and Ready are
--     on `parse`, with Headers/Elides and Filed on what `process_headers` changes, and
--     Parser/Started on the start of the body; Emitted and Sendable are on what the HTTP/1 converter
--     makes of the blocks.
--   Protocol/Forward: `parse`, `prepare`, `as_io_slice` and `consume` one behind the other.
--   Tests: the theorems applied to concrete inputs.
--
-- Conventions. A panic is `none` in an `Option`, or `panic` in a `Run`. Numbers are natural numbers;
-- arithmetic on `usize` and `u32` is that of a release build, which wraps around (add64, sub32). A
-- queue is a list. A method that changes its receiver returns the new one.
--
-- Fuel. `prepare` takes fuel, as a converter may push blocks; more than the number of blocks is
-- enough where it pushes none. The outer loop of `parse` runs with one more than the capacity of the
-- buffer, and its inner loop with twice the unparsed bytes and two. The SIMD loop runs with the
-- length of its input, of which a round takes 16 bytes. `grow` of the ring doubles at most 64 times:
-- then a capacity that is not 0 has wrapped around to 0, where the source does not end.
--
-- Not modelled. The crate nom and the formatting of std, which are parameters; `debug_kawa`, which
-- prints a text; the tests and benchmarks, which only call the library. The model is of the default
-- features, `simd` and `tolerant-parsing` among them; src/storage/vecdeque.rs, behind a feature that
-- is off by default, is modelled by itself, and the queues of `Kawa` are lists.
-- The order of the output is stated of responses: a request line is written with the authority of a
-- Host header that stands behind it, and all crumbs at the first cookie header.
pub mod Prelude
pub mod Storage
pub mod Protocol
pub mod Tests
