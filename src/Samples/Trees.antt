-- ===== src/Samples/Trees.antt =====
-- A quadtree of forty objects on a diagonal, more than one node holds.
use flybeeper_com_map_fanet.Samples.Numbers.{whole, whole-IsOrdered}
use flybeeper_com_map_fanet.Prelude.{
  arith, lookup, str_eq, some, ◌≤◌, List, [], ◌∷◌, List, ℕ, zero, suc, ◌≡◌, ◌+◌, ◌*◌, refl, Bool,
  true, false, [], pos, ℤ, length, keep_if, if◌then◌else◌, sub_ℕ,
}
use flybeeper_com_map_fanet.Geo.QuadTree.Bounds.{
  Object, Bounds, contains, holds, intersects, width, height, middle, world, quadrant_of,
}
use flybeeper_com_map_fanet.Geo.QuadTree.Node.{
  Node, leaf, fork, should_split, insert_into_child, move_all, split, insert_with, insert_fuel,
  insert, query,
}
use flybeeper_com_map_fanet.Geo.QuadTree.Frames.{world-IsFramed}
use flybeeper_com_map_fanet.Geo.QuadTree.Shape.{elements, count, IsShaped}
use flybeeper_com_map_fanet.Geo.QuadTree.Counts.{insert-count, insert-IsShaped}
use flybeeper_com_map_fanet.Geo.QuadTree.Queries.{query-eq-scan}
use flybeeper_com_map_fanet.Geo.QuadTree.Index.{
  new_quad_tree, insert_object, query_bounds, query_radius, radius_bounds, within_radius,
}
use flybeeper_com_map_fanet.Geo.QuadTree.Calls.{
  insert_object-keeps_old, Call, insert_call, update_call, remove_call, clean_call, apply_all,
  apply_all-queries,
}

abbrev on_diagonal : ℕ → Object ℤ
on_diagonal n = record {
  id = "P";
  latitude = sub_ℕ n 20;
  longitude = sub_ℕ (2 * n) 40;
  timestamp = n;
}

abbrev grow : ℕ → Node ℤ → Node ℤ
grow zero n = n
grow (suc k) n = grow k (insert (on_diagonal k) n)

abbrev empty : Node ℤ
empty = leaf world 0 []

abbrev forty : Node ℤ
forty = grow 40 empty

grow-IsShaped : (k : ℕ) (n : Node ℤ) → IsShaped world 0 n → IsShaped world 0 (grow k n)
grow-IsShaped zero n s = s
grow-IsShaped (suc k) n s =
    grow-IsShaped k (insert (on_diagonal k) n)
      (insert-IsShaped whole-IsOrdered world 0 (on_diagonal k) n (world-IsFramed whole-IsOrdered) s)

forty-IsShaped : IsShaped world 0 forty
forty-IsShaped = grow-IsShaped 40 empty (refl, refl, tt)

abbrev corner : Bounds ℤ
corner = record { min_lat = pos 15; min_lon = pos 0; max_lat = pos 90; max_lon = pos 100 }

query-eq-scan_example : query corner forty ≡ keep_if (holds corner) (elements forty)
query-eq-scan_example = query-eq-scan whole-IsOrdered corner world 0 forty forty-IsShaped

insert-IsShaped_example : IsShaped world 0 (insert (on_diagonal 7) forty)
insert-IsShaped_example =
    insert-IsShaped whole-IsOrdered world 0 (on_diagonal 7) forty (world-IsFramed whole-IsOrdered)
      forty-IsShaped

insert-count_example :
    count (λ (o : Object ℤ). true) (insert (on_diagonal 7) forty)
    ≡ (if holds world (on_diagonal 7) then 1 else 0) + count (λ (o : Object ℤ). true) forty
insert-count_example =
    insert-count whole-IsOrdered (λ o. true) world (on_diagonal 7) forty
      (world-IsFramed whole-IsOrdered) forty-IsShaped

-- The tree has split, and five of its objects lie in the corner.
is_fork : Node ℤ → Bool
is_fork (leaf b d os) = false
is_fork (fork b d n1 n2 n3 n4) = true

forty-test :
    (is_fork forty ≡ true) × (length (query corner forty) ≡ 5) × (length (elements forty) ≡ 40)
unfolding is_fork contains intersects width height middle quadrant_of should_split insert_into_child
    move_all split insert_with insert_fuel query
forty-test = (refl, refl, refl)

abbrev calls : List (Call ℤ)
calls =
    insert_call (on_diagonal 3)
    ∷ update_call (record (on_diagonal 3) { latitude = pos 40 })
    ∷ clean_call 1000
    ∷ insert_call (on_diagonal 25)
    ∷ remove_call "Q"
    ∷ []

apply_all-queries_example :
    let qt = apply_all calls (new_quad_tree 60) in
    ((area : Bounds ℤ) → query_bounds area qt ≡ keep_if (holds area) (elements qt.root))
    × ((lat lon radius_km : ℤ)
        → query_radius lat lon radius_km qt
          ≡ keep_if
              (within_radius lat lon radius_km)
              (keep_if (holds (radius_bounds lat lon radius_km)) (elements qt.root)))
apply_all-queries_example =
    apply_all-queries whole-IsOrdered calls (new_quad_tree 60) (refl, refl, tt)

insert_object-keeps_old_example :
    let qt =
      insert_object
        (record (on_diagonal 30) { id = "P" })
        (insert_object (on_diagonal 3) (new_quad_tree 60)) in
    (2 ≤ count (λ (o : Object ℤ). str_eq o.id "P") qt.root)
    × (lookup "P" qt.objects ≡ some (on_diagonal 30))
unfolding insert_object insert_with insert_fuel contains
insert_object-keeps_old_example =
    insert_object-keeps_old whole-IsOrdered (on_diagonal 30)
      (insert_object (on_diagonal 3) (new_quad_tree 60)) (refl, refl, (refl, tt)) refl (omega arith)
