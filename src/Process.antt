-- ===== src/Process.antt =====
-- cmd/fanet-api/main.go: what becomes of a decoded message.
pub mod Converters
pub mod Messages
pub mod Storing
