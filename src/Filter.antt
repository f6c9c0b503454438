-- ===== src/Filter.antt =====
-- internal/filter: the filters of a track's points.
pub mod Points
pub mod Duplicates
pub mod Intervals
pub mod Order
pub mod Speed
pub mod Segments
pub mod TimeGaps
pub mod Segmentation
pub mod Labels
pub mod Numbering
pub mod Medians
pub mod PingPong
pub mod Teleports
pub mod Marking
pub mod PreCleanup
pub mod Outliers
pub mod Chain
pub mod Removal
pub mod Chains
pub mod Segmented
pub mod Visits
pub mod Levels
