-- ===== src/Storage.antt =====
-- `src/storage`: the buffer, the stores that refer to it, and the representation of a message.
pub mod Span
pub mod Buffer
pub mod Slice
pub mod Store
pub mod Repr
pub mod OutBlock
pub mod VecDeque
pub mod Kawa
pub mod Prepare
pub mod Debug
