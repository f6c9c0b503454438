-- ===== src/Geo.antt =====
-- internal/geo: the spatial index of the live objects, the cache of query results, and geohashes.
pub mod QuadTree
pub mod Cache
pub mod Geohash
pub mod Cells
pub mod Cover
pub mod Bloom
pub mod Spatial
pub mod Fresh
