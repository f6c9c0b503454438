-- ===== src/Handler.antt =====
-- internal/handler: the hub of the WebSocket clients, in broadcast.go and websocket.go.
pub mod Updates
pub mod Groups
pub mod Agreement
pub mod Sending
pub mod Hub
pub mod Delivery
pub mod Silence
pub mod Steady
pub mod Runs
pub mod Consistency
