-- ===== src/Geo/Cache.antt =====
-- internal/geo/cache.go. `Defs` has the cache, `Sound` its invariant, `Calls` sequences of calls, and
-- `Answers` what `Get` and `Clean` answer.
pub mod Defs
pub mod Sound
pub mod Calls
pub mod Answers
pub mod Contents
