-- ===== src/Geo/QuadTree/Shape.antt =====
-- The invariant of the tree of internal/geo/quadtree.go: every node has the quarter that its place
-- says, and every object sits where `insertIntoChild` sends it. Then what an insertion does to a
-- predicate of all objects.
use flybeeper_com_map_fanet.Prelude.{
  ℕ, zero, suc, ◌+◌, ◌≡◌, refl, Bool, true, ◌&&◌, List, [], ◌∷◌, ◌++◌, arith, ltb, length, tally,
  tally-append, All, All-append, if_both, Float,
}
use flybeeper_com_map_fanet.Geo.QuadTree.Bounds.{
  Object, Bounds, Quadrant, nw, ne, sw, se, holds, quadrant_of, child_bounds,
}
use flybeeper_com_map_fanet.Geo.QuadTree.Node.{
  Node, leaf, fork, insert_into_child, move_all, split, insert_with, insert_fuel, node_capacity,
  should_split,
}

-- The objects of a tree, in the order of a query.
abbrev pub elements : {F : Type 0} → Node F → List (Object F)
elements (leaf b d os) = os
elements (fork b d n1 n2 n3 n4) = elements n1 ++ (elements n2 ++ (elements n3 ++ elements n4))

-- A predicate of every object, and the number of those that pass a test.
abbrev pub Every : {F : Type 0} → (Object F → Type 0) → Node F → Type 0
Every P (leaf b d os) = All P os
Every P (fork b d n1 n2 n3 n4) = Every P n1 × Every P n2 × Every P n3 × Every P n4

abbrev pub count : {F : Type 0} → (Object F → Bool) → Node F → ℕ
count p (leaf b d os) = tally p os
count p (fork b d n1 n2 n3 n4) = count p n1 + count p n2 + count p n3 + count p n4

pub tally-elements :
    {F : Type 0} (p : Object F → Bool) (n : Node F) → tally p (elements n) ≡ count p n
tally-elements p (leaf b d os) = refl
tally-elements p (fork b d n1 n2 n3 n4) = omega (
  arith,
  tally-append p (elements n1) (elements n2 ++ (elements n3 ++ elements n4)),
  tally-append p (elements n2) (elements n3 ++ elements n4),
  tally-append p (elements n3) (elements n4),
  tally-elements p n1,
  tally-elements p n2,
  tally-elements p n3,
  tally-elements p n4,
)

abbrev pub Insertion : Type 0 → Type 0
Insertion F = Object F → Node F → Node F

module _ {F : Type 0} ⦃fl : Float F⦄ where
  abbrev pub Sits : Bounds F → Quadrant → Object F → Type 0
  Sits b q o = (holds b o ≡ true) × (quadrant_of b o ≡ q)

  abbrev pub IsShaped : Bounds F → ℕ → Node F → Type 0
  IsShaped b d (leaf b' d' os) = (b' ≡ b) × (d' ≡ d) × All (λ o. holds b o ≡ true) os
  IsShaped b d (fork b' d' n1 n2 n3 n4) =
      (b' ≡ b)
      × (d' ≡ d)
      × (IsShaped (child_bounds b nw) (suc d) n1 × Every (Sits b nw) n1)
      × (IsShaped (child_bounds b ne) (suc d) n2 × Every (Sits b ne) n2)
      × (IsShaped (child_bounds b sw) (suc d) n3 × Every (Sits b sw) n3)
      × (IsShaped (child_bounds b se) (suc d) n4 × Every (Sits b se) n4)

  -- What an insertion keeps.
  abbrev pub KeepsEvery : Insertion F → Type 1
  KeepsEvery g =
      (P : Object F → Type 0) (o : Object F) (n : Node F) → P o → Every P n → Every P (g o n)

  insert_into_child-Every : (g : Insertion F) → KeepsEvery g → KeepsEvery (insert_into_child g)
  unfolding insert_into_child
  insert_into_child-Every g k P o (leaf b d os) h e = e
  insert_into_child-Every g k P o (fork b d n1 n2 n3 n4) h (e1, e2, e3, e4) =
      elim (quadrant_of b o)
        as (λ q. Every P (elim q [
          | nw ↦ fork b d (g o n1) n2 n3 n4
          | ne ↦ fork b d n1 (g o n2) n3 n4
          | sw ↦ fork b d n1 n2 (g o n3) n4
          | se ↦ fork b d n1 n2 n3 (g o n4)
        ])) [
          | nw ↦ (k P o n1 h e1, e2, e3, e4)
          | ne ↦ (e1, k P o n2 h e2, e3, e4)
          | sw ↦ (e1, e2, k P o n3 h e3, e4)
          | se ↦ (e1, e2, e3, k P o n4 h e4)
        ]

  move_all-Every :
      (g : Insertion F)
      → KeepsEvery g
      → (P : Object F → Type 0) (os : List (Object F)) (n : Node F) → All P os
      → Every P n
      → Every P (move_all g os n)
  unfolding move_all
  move_all-Every g k P [] n h e = e
  move_all-Every g k P (o ∷ os) n h e =
      move_all-Every g k P os (insert_into_child g o n) h.1
        (insert_into_child-Every g k P o n h.0 e)

  pub insert_with-Every : (g : Insertion F) → KeepsEvery g → KeepsEvery (insert_with g)
  unfolding insert_with split
  insert_with-Every g k P o (leaf b d os) h e =
      let new : List (Object F) = os ++ (o ∷ []) in
      let all : All P new = All-append P os (o ∷ []) e (h, tt) in
      if_both (Every P) (holds b o)
        (if_both (Every P) (ltb node_capacity (length new) && should_split b d)
          (move_all-Every g k P new _ all (tt, tt, tt, tt)) all)
        e
  insert_with-Every g k P o (fork b d n1 n2 n3 n4) h (e1, e2, e3, e4) =
      if_both (Every P) (holds b o)
        (elim (quadrant_of b o)
          as (λ q. Every P (elim q [
            | nw ↦ fork b d (insert_with g o n1) n2 n3 n4
            | ne ↦ fork b d n1 (insert_with g o n2) n3 n4
            | sw ↦ fork b d n1 n2 (insert_with g o n3) n4
            | se ↦ fork b d n1 n2 n3 (insert_with g o n4)
          ])) [
            | nw ↦ (insert_with-Every g k P o n1 h e1, e2, e3, e4)
            | ne ↦ (e1, insert_with-Every g k P o n2 h e2, e3, e4)
            | sw ↦ (e1, e2, insert_with-Every g k P o n3 h e3, e4)
            | se ↦ (e1, e2, e3, insert_with-Every g k P o n4 h e4)
          ])
        (e1, e2, e3, e4)

  pub insert_fuel-Every : (fuel : ℕ) → KeepsEvery (insert_fuel fuel)
  unfolding insert_fuel
  insert_fuel-Every zero = insert_with-Every _ (λ P o n h e. e)
  insert_fuel-Every (suc fuel) = insert_with-Every _ (insert_fuel-Every fuel)
