-- ===== src/Service/Batch.antt =====
-- internal/service/batch_writer.go. `Lane` is what one queue with its worker does, `Writer` the
-- writer with its three lanes, `Retry` the retries of a batch; the other modules prove what they do.
pub mod Retry
pub mod Lane
pub mod Writer
pub mod Calls
pub mod Fifo
pub mod Accounts
