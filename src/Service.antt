-- ===== src/Service.antt =====
-- internal/service: the validation of pilots by their speed, the boundary of the tracked
-- area, and the batches in which items go to the database.
pub mod Validation
pub mod Boundary
pub mod Batch
