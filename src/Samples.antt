-- ===== src/Samples.antt =====
-- Concrete inputs of the other modules.
pub mod Numbers
pub mod Validating
pub mod Parsing
pub mod Trees
pub mod Caching
pub mod Zones
pub mod Tracks
pub mod Batches
pub mod Chains
pub mod Hashes
pub mod Incoming
pub mod Clients
pub mod Indexed
pub mod Signed
