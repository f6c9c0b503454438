-- ===== src/Geo/QuadTree.antt =====
-- internal/geo/quadtree.go. `Bounds` has the rectangles, `Node` the tree, `Index` the locked
-- structure around it; the other modules prove what they do.
pub mod Bounds
pub mod Node
pub mod Index
pub mod Frames
pub mod Shape
pub mod Inserts
pub mod Counts
pub mod Queries
pub mod Calls
