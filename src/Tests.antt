-- ===== src/Tests.antt =====
-- Runs of the development on concrete inputs.
pub mod Buffers
pub mod Stores
pub mod Outputs
pub mod Lookups
pub mod Noms
pub mod NomParts
pub mod NomReads
pub mod Parsers
pub mod Headers
pub mod VecDeques
pub mod Bodies
pub mod Lines
pub mod Texts
pub mod Responses
