-- ===== src/Protocol.antt =====
-- `src/protocol`: the character lookups, the HTTP/1 parser and the two converters.
pub mod Nom
pub mod Lookup
pub mod Primitives
pub mod Url
pub mod Headers
pub mod Parser
pub mod H1
pub mod H2
pub mod Forward
pub mod Rewrite
pub mod Order
