-- ===== src/Service/Validation.antt =====
-- internal/service/validation.go, `ValidationService`. `Defs` has the state and the scoring,
-- `Pilot` the methods, the other modules what they do.
pub mod Defs
pub mod Pilot
pub mod Scores
pub mod Runs
pub mod Hysteresis
pub mod Counters
pub mod Settled
