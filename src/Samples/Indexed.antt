-- ===== src/Samples/Indexed.antt =====
-- A Bloom filter with three items, and a spatial index with two objects and a query between them.
use flybeeper_com_map_fanet.Samples.Numbers.{whole}
use flybeeper_com_map_fanet.Prelude.{
  Option, none, String, map, lookup, insert, ℕ, ◌≡◌, refl, true, false, some, [], ◌∷◌, pos, ℤ, List,
}
use flybeeper_com_map_fanet.Geo.QuadTree.Bounds.{Object, Bounds, contains, intersects}
use flybeeper_com_map_fanet.Geo.QuadTree.Index
use flybeeper_com_map_fanet.Geo.QuadTree.Index.{
  new_quad_tree, query_bounds, update_object, leave_position,
}
use flybeeper_com_map_fanet.Geo.QuadTree.Node.{query, insert_fuel, insert_with, should_split}
use flybeeper_com_map_fanet.Geo.Cache.Defs.{get, set, put_front, evict, clear}
use flybeeper_com_map_fanet.Geo.Bloom.{
  BloomFilter, new_bloom_filter, add_all, may_contain, covered, any_hash, hash, set_bit, get_bit,
  set_hashes, get_hashes, add_item, may_contain-add_all,
}
use flybeeper_com_map_fanet.Geo.Spatial.{
  KeyFormat, SpatialIndex, new_spatial_index, search_radius, search_bounds, insert_object,
  get_bounds, bounds_answer, set_bounds, new_geo_cache, invalidate_area,
}
use flybeeper_com_map_fanet.Geo.Fresh.{
  Call, add_call, radius_call, bounds_call, apply_all, tree_after, IsRadiusAnswer, IsBoundsAnswer,
  quiet, apply_all-answers,
}

abbrev small : BloomFilter
small = new_bloom_filter 10 2

-- Three items of a letter and a digit.
abbrev a1 : List ℕ
a1 = 65 ∷ 49 ∷ []

abbrev b2 : List ℕ
b2 = 66 ∷ 50 ∷ []

abbrev c4 : List ℕ
c4 = 67 ∷ 52 ∷ []

small-answers :
    (may_contain a1 (add_all (a1 ∷ b2 ∷ []) small) ≡ true)
    × (may_contain c4 (add_all (a1 ∷ b2 ∷ []) small) ≡ false)
unfolding new_bloom_filter add_all may_contain hash set_bit get_bit set_hashes get_hashes add_item
small-answers = (refl, refl)

may_contain-add_all_example :
    (may_contain c4 (add_all (a1 ∷ b2 ∷ []) small)
      ≡ covered small.hashes small.size c4 (any_hash small.hashes small.size (a1 ∷ b2 ∷ [])))
    × (may_contain b2 (add_all (a1 ∷ b2 ∷ []) small) ≡ true)
may_contain-add_all_example = may_contain-add_all 10 2 (a1 ∷ []) [] b2 c4

-- Every query has the same key.
abbrev keys : KeyFormat ℤ
keys = record { radius_key = λ lat lon radius. "radius"; bounds_key = λ area. "bounds" }

abbrev anna : Object ℤ
anna = record { id = "A1B2C3"; latitude = pos 46; longitude = pos 10; timestamp = 1 }

abbrev berta : Object ℤ
berta = record { id = "0000FF"; latitude = pos 47; longitude = pos 11; timestamp = 2 }

abbrev alps : Bounds ℤ
alps = record { min_lat = pos 44; min_lon = pos 6; max_lat = pos 48; max_lon = pos 16 }

abbrev calls : List (Call ℤ)
calls =
    add_call anna
    ∷ radius_call (pos 46) (pos 10) (pos 50) 1 2 (pos 0)
    ∷ bounds_call alps 3 4 (pos 0)
    ∷ add_call berta
    ∷ radius_call (pos 46) (pos 10) (pos 20) 5 6 (pos 0)
    ∷ []

apply_all-answers_example :
    let tree = tree_after calls (new_quad_tree 300) in
    (si : SpatialIndex ℤ) × (apply_all keys calls (new_spatial_index 300 100 30) ≡ some si)
    × ((near : SpatialIndex ℤ × List (Object ℤ)) × (search_radius keys
            (pos 46)
            (pos 10)
            (pos 30)
            7
            8
            (pos 0)
            quiet
            si
          ≡ some near)
        × IsRadiusAnswer keys tree "radius" near.1)
    × ((inside : SpatialIndex ℤ × List (Object ℤ)) × (search_bounds keys alps 7 8 (pos 0) quiet si
          ≡ some inside)
        × IsBoundsAnswer keys tree "bounds" inside.1)
apply_all-answers_example =
    apply_all-answers keys 300 100 30 calls (pos 46) (pos 10) (pos 30) alps 7 8 (pos 0)

-- An index with nothing in it, and what a bounds query makes of it when Anna is inserted after the query
-- has read the tree and before it writes the cache.
abbrev bare_index : SpatialIndex ℤ
bare_index = record (new_spatial_index 300 100 30) { bloom = small }

abbrev overtaken : Option (SpatialIndex ℤ × List (Object ℤ))
overtaken =
    search_bounds keys alps 1 2 (pos 0)
      (record { before_tree = λ si. si; before_set = λ si. insert_object anna si }) bare_index

abbrev ids : Option (SpatialIndex ℤ × List (Object ℤ)) → Option (List String)
ids none = none
ids (some (si, objects)) = some (map (λ o. o.id) objects)

abbrev again : Option (SpatialIndex ℤ × List (Object ℤ)) → Option (List String)
again none = none
again (some (si, objects)) = ids (search_bounds keys alps 3 4 (pos 0) quiet si)

abbrev in_tree : Option (SpatialIndex ℤ × List (Object ℤ)) → Option (List String)
in_tree none = none
in_tree (some (si, objects)) = some (map (λ o. o.id) (query_bounds alps si.tree))

-- The next query with this key is answered from the cache, without the object that the tree has.
overtaken-stale : (again overtaken ≡ some []) × (in_tree overtaken ≡ some ("A1B2C3" ∷ []))
unfolding new_spatial_index insert_object search_bounds get_bounds bounds_answer set_bounds get set
    put_front evict query_bounds query update_object leave_position insert_fuel insert_with contains
    intersects lookup insert new_geo_cache invalidate_area clear should_split Index.insert_object
overtaken-stale = (refl, refl)
