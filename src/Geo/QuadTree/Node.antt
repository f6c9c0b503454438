-- ===== src/Geo/QuadTree/Node.antt =====
-- `node` of internal/geo/quadtree.go. A node has no children or all four, and one that has children
-- holds no objects of its own: `leaf` and `fork`. The nil result of `query` is the empty list.
use flybeeper_com_map_fanet.Prelude.{
  ℕ, zero, suc, ◌+◌, Bool, ◌&&◌, List, [], ◌∷◌, ◌++◌, String, str_eq, ltb, length, keep_if,
  if◌then◌else◌, Float,
}
use flybeeper_com_map_fanet.Geo.QuadTree.Bounds.{
  Object, Bounds, Quadrant, nw, ne, sw, se, holds, intersects, width, height, quadrant_of,
  child_bounds,
}

abbrev pub node_capacity : ℕ
node_capacity = 32

abbrev pub max_depth : ℕ
max_depth = 12

pub data Node (F : Type 0) : Type 0 where
  leaf : Bounds F → ℕ → List (Object F) → Node F
  fork : Bounds F → ℕ → Node F → Node F → Node F → Node F → Node F

module _ {F : Type 0} ⦃fl : Float F⦄ where
  unfoldable pub should_split : Bounds F → ℕ → Bool
  should_split b depth =
      ltb depth max_depth && fl.lt (fl.decimal 1 3) (width b) && fl.lt (fl.decimal 1 3) (height b)

  abbrev pub empty_child : Bounds F → ℕ → Quadrant → Node F
  empty_child b depth q = leaf (child_bounds b q) (depth + 1) []

  -- `insertIntoChild`, with the insertion into a child given.
  unfoldable pub insert_into_child : (Object F → Node F → Node F) → Object F → Node F → Node F
  insert_into_child deeper o (leaf b d os) = leaf b d os
  insert_into_child deeper o (fork b d n1 n2 n3 n4) = elim (quadrant_of b o) [
    | nw ↦ fork b d (deeper o n1) n2 n3 n4
    | ne ↦ fork b d n1 (deeper o n2) n3 n4
    | sw ↦ fork b d n1 n2 (deeper o n3) n4
    | se ↦ fork b d n1 n2 n3 (deeper o n4)
  ]

  -- The loop of `split` that moves the objects to the children.
  unfoldable pub move_all : (Object F → Node F → Node F) → List (Object F) → Node F → Node F
  move_all deeper [] n = n
  move_all deeper (o ∷ os) n = move_all deeper os (insert_into_child deeper o n)

  unfoldable pub split : (Object F → Node F → Node F) → Bounds F → ℕ → List (Object F) → Node F
  split deeper b d os =
      move_all deeper os (
        fork b d (empty_child b d nw) (empty_child b d ne) (empty_child b d sw)
          (empty_child b d se))

  -- `insert`. A split inserts into the new children by `deeper`.
  unfoldable pub insert_with : (Object F → Node F → Node F) → Object F → Node F → Node F
  insert_with deeper o (leaf b d os) =
      if holds b o
      then (let os' = os ++ (o ∷ []) in
          if ltb node_capacity (length os') && should_split b d
          then split deeper b d os'
          else leaf b d os')
      else leaf b d os
  insert_with deeper o (fork b d n1 n2 n3 n4) =
      if holds b o
      then elim (quadrant_of b o) [
        | nw ↦ fork b d (insert_with deeper o n1) n2 n3 n4
        | ne ↦ fork b d n1 (insert_with deeper o n2) n3 n4
        | sw ↦ fork b d n1 n2 (insert_with deeper o n3) n4
        | se ↦ fork b d n1 n2 n3 (insert_with deeper o n4)
      ]
      else fork b d n1 n2 n3 n4

  -- The fuel bounds how often an insertion splits a node that the same insertion made.
  unfoldable pub insert_fuel : ℕ → Object F → Node F → Node F
  insert_fuel zero = insert_with (λ o n. n)
  insert_fuel (suc fuel) = insert_with (insert_fuel fuel)

  abbrev pub insert : Object F → Node F → Node F
  insert = insert_fuel max_depth

  -- The loop of `remove` over the objects of a leaf.
  unfoldable pub remove_first : String → List (Object F) → List (Object F)
  remove_first id [] = []
  remove_first id (o ∷ os) = if str_eq o.id id then os else o ∷ remove_first id os

  -- `remove`; its Boolean answer is used by no caller.
  unfoldable pub remove : Object F → Node F → Node F
  remove o (leaf b d os) = leaf b d (remove_first o.id os)
  remove o (fork b d n1 n2 n3 n4) = elim (quadrant_of b o) [
    | nw ↦ fork b d (remove o n1) n2 n3 n4
    | ne ↦ fork b d n1 (remove o n2) n3 n4
    | sw ↦ fork b d n1 n2 (remove o n3) n4
    | se ↦ fork b d n1 n2 n3 (remove o n4)
  ]

  unfoldable pub query : Bounds F → Node F → List (Object F)
  query area (leaf b d os) = if intersects b area then keep_if (holds area) os else []
  query area (fork b d n1 n2 n3 n4) =
      if intersects b area
      then query area n1 ++ (query area n2 ++ (query area n3 ++ query area n4))
      else []
