-- ===== src/Mqtt/Parser.antt =====
-- internal/mqtt/parser.go, `Parser`. `Fields` has the values of single fields, `Packets` and `Service`
-- the methods for the packet types, and `Envelope` the topic, the wrapper and the dispatch of `Parse`.
-- `Safety` and `Accepts` are about reads and answers, `Topics` about topics, `Ranges` about the values of
-- fields, `Addresses` about identifiers, and `RoundTrip` about an encoder.
pub mod Fields
pub mod Packets
pub mod Service
pub mod Envelope
pub mod Safety
pub mod Topics
pub mod Accepts
pub mod Ranges
pub mod Addresses
pub mod RoundTrip
