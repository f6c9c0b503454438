-- ===== src/Geo/QuadTree/Calls.antt =====
-- Sequences of calls of `QuadTree` (internal/geo/quadtree.go), the invariant of the tree over them,
-- and its queries after them.
use flybeeper_com_map_fanet.Prelude.{
  arith, true, lookup-insert_self, eq_iff, ◌≤◌, ap, ℕ, suc, ◌+◌, ◌/◌, ◌≡◌, refl, none, some, List,
  [], ◌∷◌, String, str_eq, All, ltb, length, keep_if, if_both, Dict, lookup, delete, Float,
}
use flybeeper_com_map_fanet.Geo.QuadTree.Bounds.{
  Object, Bounds, nw, ne, sw, se, holds, world, quadrant_of, child_bounds, IsOrdered,
}
use flybeeper_com_map_fanet.Geo.QuadTree.Node.{Node, leaf, fork, insert, remove, remove_first}
use flybeeper_com_map_fanet.Geo.QuadTree.Frames.{world-IsFramed}
use flybeeper_com_map_fanet.Geo.QuadTree.Shape.{count, elements, Every, IsShaped}
use flybeeper_com_map_fanet.Geo.QuadTree.Inserts.{choose, choose-IsShaped}
use flybeeper_com_map_fanet.Geo.QuadTree.Counts.{insert-count, insert-IsShaped}
use flybeeper_com_map_fanet.Geo.QuadTree.Queries.{query-eq-scan}
use flybeeper_com_map_fanet.Geo.QuadTree.Index.{
  QuadTree, bounds_of, insert_object, remove_object, leave_position, update_object, query_bounds,
  radius_bounds, within_radius, query_radius, clean_old, insert_all, rebuild, clean,
}

module _ {F : Type 0} ⦃fl : Float F⦄ where
  remove_first-All :
      (P : Object F → Type 0) (id : String) (os : List (Object F))
      → All P os
      → All P (remove_first id os)
  unfolding remove_first
  remove_first-All P id [] h = tt
  remove_first-All P id (o ∷ os) h =
      if_both (All P) (str_eq o.id id) h.1 (h.0, remove_first-All P id os h.1)

module _ {F : Type 0} ⦃fl : Float F⦄ where
  remove-Every :
      (P : Object F → Type 0) (o : Object F) (n : Node F) → Every P n → Every P (remove o n)
  unfolding remove
  remove-Every P o (leaf b d os) h = remove_first-All P o.id os h
  remove-Every P o (fork b d n1 n2 n3 n4) (e1, e2, e3, e4) =
      elim (quadrant_of b o)
        as (λ q. Every P (
          choose q (fork b d (remove o n1) n2 n3 n4) (fork b d n1 (remove o n2) n3 n4)
            (fork b d n1 n2 (remove o n3) n4) (fork b d n1 n2 n3 (remove o n4)))) [
              | nw ↦ (remove-Every P o n1 e1, e2, e3, e4)
              | ne ↦ (e1, remove-Every P o n2 e2, e3, e4)
              | sw ↦ (e1, e2, remove-Every P o n3 e3, e4)
              | se ↦ (e1, e2, e3, remove-Every P o n4 e4)
            ]

  remove-IsShaped :
      (b : Bounds F) (d : ℕ) (o : Object F) (n : Node F)
      → IsShaped b d n
      → IsShaped b d (remove o n)
  unfolding remove
  remove-IsShaped b d o (leaf b' d' os) (eb, ed, all) = (eb, ed, remove_first-All _ o.id os all)
  remove-IsShaped b d o (fork b' d' n1 n2 n3 n4) (eb, ed, s1, s2, s3, s4) =
      choose-IsShaped b b' d d' (quadrant_of b' o) n1 n2 n3 n4 (remove o n1) (remove o n2)
        (remove o n3) (remove o n4) (eb, ed, s1, s2, s3, s4)
        (λ e. (remove-IsShaped (child_bounds b nw) (suc d) o n1 s1.0, remove-Every _ o n1 s1.1))
        (λ e. (remove-IsShaped (child_bounds b ne) (suc d) o n2 s2.0, remove-Every _ o n2 s2.1))
        (λ e. (remove-IsShaped (child_bounds b sw) (suc d) o n3 s3.0, remove-Every _ o n3 s3.1))
        (λ e. (remove-IsShaped (child_bounds b se) (suc d) o n4 s4.0, remove-Every _ o n4 s4.1))

-- A call that changes the index, with the clock's reading.
pub data Call (F : Type 0) : Type 0 where
  insert_call update_call : Object F → Call F
  remove_call : String → Call F
  clean_call : ℕ → Call F

module _ {F : Type 0} ⦃fl : Float F⦄ where
  unfoldable pub apply : Call F → QuadTree F → QuadTree F
  apply (insert_call o) qt = insert_object o qt
  apply (update_call o) qt = update_object o qt
  apply (remove_call id) qt = remove_object id qt
  apply (clean_call now) qt = (clean now qt).0

  unfoldable pub apply_all : List (Call F) → QuadTree F → QuadTree F
  apply_all [] qt = qt
  apply_all (call ∷ calls) qt = apply_all calls (apply call qt)

module _ {F : Type 0} ⦃fl : Float F⦄ (laws : IsOrdered F) where
  abbrev IsTree : Node F → Type 0
  IsTree = IsShaped world 0

  insert-IsTree : (o : Object F) (n : Node F) → IsTree n → IsTree (insert o n)
  insert-IsTree o n s = insert-IsShaped laws world 0 o n (world-IsFramed laws) s

  insert_all-IsTree : (m : Dict (Object F)) (n : Node F) → IsTree n → IsTree (insert_all m n)
  unfolding insert_all
  insert_all-IsTree [] n s = s
  insert_all-IsTree ((id, o) ∷ m) n s = insert_all-IsTree m (insert o n) (insert-IsTree o n s)

  clean_old-IsTree :
      (now : ℕ) (m : Dict (Object F)) (qt : QuadTree F)
      → IsTree qt.root
      → IsTree (clean_old now m qt).0.root
  unfolding clean_old
  clean_old-IsTree now [] qt s = s
  clean_old-IsTree now ((id, o) ∷ m) qt s = clean_old-IsTree now m _ (
      if_both (λ (x : QuadTree F). IsTree x.root) (ltb (o.timestamp + qt.max_age) now)
        (remove-IsShaped world 0 o qt.root s) s)

  bounds_of-IsTree : (n : Node F) → IsTree n → bounds_of n ≡ world
  bounds_of-IsTree (leaf b d os) s = s.0
  bounds_of-IsTree (fork b d n1 n2 n3 n4) s = s.0

  leave_position-IsTree :
      (id : String) (qt : QuadTree F) → IsTree qt.root → IsTree (leave_position id qt).root
  unfolding leave_position
  leave_position-IsTree id qt s =
      elim (lookup id qt.objects)
        as (λ x.
          IsTree
            (elim x as (λ y. QuadTree F) [
              | none ↦ qt
              | some old ↦ record qt { root = remove old qt.root }
            ]).root) [ none ↦ s | some old ↦ remove-IsShaped world 0 old qt.root s ]

  remove_object-IsTree :
      (id : String) (qt : QuadTree F) → IsTree qt.root → IsTree (remove_object id qt).root
  unfolding remove_object
  remove_object-IsTree id qt s =
      elim (lookup id qt.objects)
        as (λ x.
          IsTree
            (elim x as (λ y. QuadTree F) [
              | none ↦ qt
              | some o ↦ record qt { objects = delete id qt.objects; root = remove o qt.root }
            ]).root) [ none ↦ s | some o ↦ remove-IsShaped world 0 o qt.root s ]

  apply-IsTree : (call : Call F) (qt : QuadTree F) → IsTree qt.root → IsTree (apply call qt).root
  unfolding apply insert_object update_object clean rebuild
  apply-IsTree (insert_call o) qt s = insert-IsTree o qt.root s
  apply-IsTree (update_call o) qt s = insert-IsTree o _ (leave_position-IsTree o.id qt s)
  apply-IsTree (remove_call id) qt s = remove_object-IsTree id qt s
  apply-IsTree (clean_call now) qt s =
      let (qt', removed) = clean_old now qt.objects qt in
      let cleaned = clean_old-IsTree now qt.objects qt s in
      if_both (λ (x : QuadTree F). IsTree x.root) (ltb (length qt'.objects / 4) removed)
        (insert_all-IsTree qt'.objects _ (bounds_of-IsTree qt'.root cleaned, refl, tt)) cleaned

  apply_all-IsTree :
      (calls : List (Call F)) (qt : QuadTree F) → IsTree qt.root → IsTree (apply_all calls qt).root
  unfolding apply_all
  apply_all-IsTree [] qt s = s
  apply_all-IsTree (call ∷ calls) qt s =
      apply_all-IsTree calls (apply call qt) (apply-IsTree call qt s)

  -- Given the laws of the order on floats, from a tree that has the shape of an index of the world, such as a new one, and after any sequence
  -- of `Insert`, `Update`, `Remove` and `Clean`, `QueryBounds` gives what a scan of all objects in the
  -- tree gives, and `QueryRadius` what a scan with the rectangle and then the distance gives.
  pub apply_all-queries :
      (calls : List (Call F)) (qt : QuadTree F)
      → IsShaped world 0 qt.root
      → let qt' = apply_all calls qt in
        ((area : Bounds F) → query_bounds area qt' ≡ keep_if (holds area) (elements qt'.root))
        × ((lat lon radius_km : F)
            → query_radius lat lon radius_km qt'
              ≡ keep_if
                  (within_radius lat lon radius_km)
                  (keep_if (holds (radius_bounds lat lon radius_km)) (elements qt'.root)))
  unfolding query_bounds query_radius
  apply_all-queries calls qt s =
      let scan = λ (area : Bounds F).
        query-eq-scan laws area world 0 (apply_all calls qt).root (apply_all-IsTree calls qt s) in
      (scan, λ lat lon radius_km. ap (keep_if (within_radius lat lon radius_km)) (scan _))

  -- Given the laws of the order on floats, `Insert` of an object in the world whose ID the tree already
  -- holds keeps the old object in the tree: it then holds two or more of this ID, while the map
  -- holds the new one alone.
  pub insert_object-keeps_old :
      (o : Object F) (qt : QuadTree F)
      → IsShaped world 0 qt.root
      → holds world o ≡ true
      → 1 ≤ count (λ x. str_eq x.id o.id) qt.root
      → let qt' = insert_object o qt in
        (2 ≤ count (λ x. str_eq x.id o.id) qt'.root) × (lookup o.id qt'.objects ≡ some o)
  unfolding insert_object
  insert_object-keeps_old o qt s inside held = (
    ground (
      arith,
      eq_iff o.id o.id,
      insert-count laws (λ x. str_eq x.id o.id) world o qt.root (world-IsFramed laws) s,
    ),
    lookup-insert_self o.id o qt.objects,
  )
