-- ===== src/Mqtt.antt =====
-- internal/mqtt: the decoding of the packets that base stations publish.
pub mod Bytes
pub mod Messages
pub mod Parser
