-- ===== src/Models.antt =====
-- internal/models: positions and rectangles, and the objects with their checks.
pub mod Points
pub mod Aircraft
pub mod Checks
pub mod Bounds
pub mod Pilots
pub mod Thermals
pub mod Stations
pub mod Grounds
pub mod Protos
