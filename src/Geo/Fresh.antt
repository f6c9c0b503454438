-- ===== src/Geo/Fresh.antt =====
-- What the queries of internal/geo/spatial.go answer over runs of insertions and queries that do not
-- overlap.
use flybeeper_com_map_fanet.Prelude.{
  ℕ, ◌≡◌, refl, ap, subst, ◌∙◌, Option, none, some, List, [], ◌∷◌, String, Float,
}
use flybeeper_com_map_fanet.Geo.QuadTree.Bounds.{Object, Bounds}
use flybeeper_com_map_fanet.Geo.QuadTree.Index.{
  QuadTree, new_quad_tree, query_bounds, query_radius, update_object,
}
use flybeeper_com_map_fanet.Geo.Cache.Contents.{
  IsFilled, clear-IsFilled, get-IsFilled, set-IsFilled, new_lru_cache-IsFilled,
}
use flybeeper_com_map_fanet.Geo.Spatial.{
  KeyFormat, Meanwhile, GeoCache, SpatialIndex, new_spatial_index, new_geo_cache, invalidate_area,
  insert_object, get_radius, set_radius, get_bounds, set_bounds, radius_answer, bounds_answer,
  search_radius, search_bounds,
}

-- Nothing comes in between.
abbrev pub quiet : {F : Type 0} → Meanwhile F
quiet = record { before_tree = λ si. si; before_set = λ si. si }

module _ {F : Type 0} ⦃fl : Float F⦄ (keys : KeyFormat F) where
  -- An answer of the tree to a radius query with the key.
  abbrev pub IsRadiusAnswer : QuadTree F → String → List (Object F) → Type 0
  IsRadiusAnswer tree key objects =
      (lat : F) × (lon : F) × (radius : F) × (keys.radius_key lat lon radius ≡ key)
      × (objects ≡ query_radius lat lon radius tree)

  abbrev pub IsBoundsAnswer : QuadTree F → String → List (Object F) → Type 0
  IsBoundsAnswer tree key objects =
      (area : Bounds F) × (keys.bounds_key area ≡ key) × (objects ≡ query_bounds area tree)

  -- Both caches are sound, and hold what the tree answers now.
  pub record IsFresh (si : SpatialIndex F) : Type 0 where
    pub radius_filled : IsFilled (IsRadiusAnswer si.tree) si.cache.radius_cache
    pub bounds_filled : IsFilled (IsBoundsAnswer si.tree) si.cache.bounds_cache

  insert_object-IsFresh : (o : Object F) (si : SpatialIndex F) → IsFresh (insert_object o si)
  unfolding insert_object invalidate_area
  insert_object-IsFresh o si = record {
    radius_filled = clear-IsFilled (IsRadiusAnswer (update_object o si.tree)) si.cache.radius_cache;
    bounds_filled = clear-IsFilled (IsBoundsAnswer (update_object o si.tree)) si.cache.bounds_cache;
  }

  new_spatial_index-IsFresh :
      (max_age capacity ttl : ℕ) → IsFresh (new_spatial_index max_age capacity ttl)
  unfolding new_spatial_index new_geo_cache
  new_spatial_index-IsFresh max_age capacity ttl = record {
    radius_filled = new_lru_cache-IsFilled _ capacity ttl;
    bounds_filled = new_lru_cache-IsFilled _ capacity ttl;
  }

  radius_answer-IsFresh :
      (lat lon radius : F) (later : ℕ) (ms : F) (si : SpatialIndex F) (o : Option (List (Object F)))
      → IsFilled (IsRadiusAnswer si.tree) si.cache.radius_cache
      → IsFilled (IsBoundsAnswer si.tree) si.cache.bounds_cache
      → ((v : List (Object F))
          → o ≡ some v
          → IsRadiusAnswer si.tree (keys.radius_key lat lon radius) v)
      → let r = radius_answer keys lat lon radius later ms quiet si o in
        IsFresh r.0
        × (r.0.tree ≡ si.tree)
        × IsRadiusAnswer si.tree (keys.radius_key lat lon radius) r.1
  unfolding radius_answer set_radius
  radius_answer-IsFresh lat lon radius later ms si (some v) r b answered =
      (record { radius_filled = r; bounds_filled = b }, refl, answered v refl)
  radius_answer-IsFresh lat lon radius later ms si none r b answered =
      let mine : IsRadiusAnswer si.tree (keys.radius_key lat lon radius)
          (query_radius lat lon radius si.tree) =
        (lat, lon, radius, refl, refl) in
      (
        record {
          radius_filled =
              set-IsFilled (IsRadiusAnswer si.tree) (keys.radius_key lat lon radius) _ _ later
                si.cache.radius_cache mine r;
          bounds_filled = b;
        },
        refl,
        mine,
      )

  bounds_answer-IsFresh :
      (area : Bounds F) (later : ℕ) (ms : F) (si : SpatialIndex F) (o : Option (List (Object F)))
      → IsFilled (IsRadiusAnswer si.tree) si.cache.radius_cache
      → IsFilled (IsBoundsAnswer si.tree) si.cache.bounds_cache
      → ((v : List (Object F)) → o ≡ some v → IsBoundsAnswer si.tree (keys.bounds_key area) v)
      → let r = bounds_answer keys area later ms quiet si o in
        IsFresh r.0 × (r.0.tree ≡ si.tree) × IsBoundsAnswer si.tree (keys.bounds_key area) r.1
  unfolding bounds_answer set_bounds
  bounds_answer-IsFresh area later ms si (some v) r b answered =
      (record { radius_filled = r; bounds_filled = b }, refl, answered v refl)
  bounds_answer-IsFresh area later ms si none r b answered =
      let mine : IsBoundsAnswer si.tree (keys.bounds_key area) (query_bounds area si.tree) =
        (area, refl, refl) in
      (
        record {
          radius_filled = r;
          bounds_filled =
              set-IsFilled (IsBoundsAnswer si.tree) (keys.bounds_key area) _ _ later
                si.cache.bounds_cache mine b;
        },
        refl,
        mine,
      )

  -- A radius query succeeds, leaves the tree, and answers what the tree answers.
  search_radius-answers :
      (lat lon radius : F) (now later : ℕ) (ms : F) (si : SpatialIndex F)
      → IsFresh si
      → (si' : SpatialIndex F) × (objects : List (Object F)) × (search_radius keys lat lon radius
            now later ms quiet si
          ≡ some (si', objects))
        × (si'.tree ≡ si.tree)
        × IsFresh si'
        × IsRadiusAnswer si.tree (keys.radius_key lat lon radius) objects
  unfolding search_radius get_radius
  search_radius-answers lat lon radius now later ms si h =
      let (c, o, got, filled, answered) =
        get-IsFilled (IsRadiusAnswer si.tree) (keys.radius_key lat lon radius) now
          si.cache.radius_cache h.radius_filled in
      let gc : GeoCache F = record si.cache { radius_cache = c } in
      let (fresh, same, answer) =
        radius_answer-IsFresh lat lon radius later ms (record si { cache = gc }) o filled
          h.bounds_filled answered in
      (
        (radius_answer keys lat lon radius later ms quiet (record si { cache = gc }) o).0,
        (radius_answer keys lat lon radius later ms quiet (record si { cache = gc }) o).1,
        rw (search_radius, get_radius, got) refl,
        same,
        fresh,
        answer,
      )

  search_bounds-answers :
      (area : Bounds F) (now later : ℕ) (ms : F) (si : SpatialIndex F)
      → IsFresh si
      → (si' : SpatialIndex F) × (objects : List (Object F)) × (search_bounds keys area now later ms
            quiet si
          ≡ some (si', objects))
        × (si'.tree ≡ si.tree)
        × IsFresh si'
        × IsBoundsAnswer si.tree (keys.bounds_key area) objects
  unfolding search_bounds get_bounds
  search_bounds-answers area now later ms si h =
      let (c, o, got, filled, answered) =
        get-IsFilled (IsBoundsAnswer si.tree) (keys.bounds_key area) now si.cache.bounds_cache
          h.bounds_filled in
      let gc : GeoCache F = record si.cache { bounds_cache = c } in
      let (fresh, same, answer) =
        bounds_answer-IsFresh area later ms (record si { cache = gc }) o h.radius_filled filled
          answered in
      (
        (bounds_answer keys area later ms quiet (record si { cache = gc }) o).0,
        (bounds_answer keys area later ms quiet (record si { cache = gc }) o).1,
        rw (search_bounds, get_bounds, got) refl,
        same,
        fresh,
        answer,
      )

-- A call, with the clock and the time that it took.
pub data Call (F : Type 0) : Type 0 where
  add_call : Object F → Call F
  radius_call : F → F → F → ℕ → ℕ → F → Call F
  bounds_call : Bounds F → ℕ → ℕ → F → Call F

module _ {F : Type 0} ⦃fl : Float F⦄ where
  abbrev pub index_of : Option (SpatialIndex F × List (Object F)) → Option (SpatialIndex F)
  index_of none = none
  index_of (some r) = some r.0

  -- The tree that the insertions alone make.
  unfoldable pub tree_after : List (Call F) → QuadTree F → QuadTree F
  tree_after [] tree = tree
  tree_after (add_call o ∷ calls) tree = tree_after calls (update_object o tree)
  tree_after (radius_call lat lon radius now later ms ∷ calls) tree = tree_after calls tree
  tree_after (bounds_call area now later ms ∷ calls) tree = tree_after calls tree

module _ {F : Type 0} ⦃fl : Float F⦄ (keys : KeyFormat F) where
  unfoldable pub apply : Call F → SpatialIndex F → Option (SpatialIndex F)
  apply (add_call o) si = some (insert_object o si)
  apply (radius_call lat lon radius now later ms) si =
      index_of (search_radius keys lat lon radius now later ms quiet si)
  apply (bounds_call area now later ms) si =
      index_of (search_bounds keys area now later ms quiet si)

  unfoldable pub apply_all : List (Call F) → SpatialIndex F → Option (SpatialIndex F)
  unfolding apply
  apply_all [] si = some si
  apply_all (call ∷ calls) si = elim (apply call si) [
    | none ↦ none
    | some si' ↦ apply_all calls si'
  ]

  apply-IsFresh :
      (call : Call F) (si : SpatialIndex F)
      → IsFresh keys si
      → (si' : SpatialIndex F) × (apply call si ≡ some si')
        × IsFresh keys si'
        × (si'.tree ≡ tree_after (call ∷ []) si.tree)
  unfolding apply tree_after
  apply-IsFresh (add_call o) si h =
      (insert_object o si, refl, insert_object-IsFresh keys o si, unfold insert_object in refl)
  apply-IsFresh (radius_call lat lon radius now later ms) si h =
      let (si', objects, e, same, fresh, answer) =
        search_radius-answers keys lat lon radius now later ms si h in
      (si', ap index_of e, fresh, same)
  apply-IsFresh (bounds_call area now later ms) si h =
      let (si', objects, e, same, fresh, answer) =
        search_bounds-answers keys area now later ms si h in
      (si', ap index_of e, fresh, same)

  tree_after-first :
      (call : Call F) (calls : List (Call F)) (tree : QuadTree F)
      → tree_after calls (tree_after (call ∷ []) tree) ≡ tree_after (call ∷ calls) tree
  unfolding tree_after
  tree_after-first (add_call o) calls tree = refl
  tree_after-first (radius_call lat lon radius now later ms) calls tree = refl
  tree_after-first (bounds_call area now later ms) calls tree = refl

  apply_all-IsFresh :
      (calls : List (Call F)) (si : SpatialIndex F)
      → IsFresh keys si
      → (si' : SpatialIndex F) × (apply_all calls si ≡ some si')
        × IsFresh keys si'
        × (si'.tree ≡ tree_after calls si.tree)
  unfolding apply_all
  apply_all-IsFresh [] si h = (si, refl, h, unfold tree_after in refl)
  apply_all-IsFresh (call ∷ calls) si h =
      let (si1, e1, h1, t1) = apply-IsFresh call si h in
      let (si2, e2, h2, t2) = apply_all-IsFresh calls si1 h1 in
      (
        si2,
        rw (apply_all, e1) e2,
        h2,
        t2 ∙ ap (tree_after calls) t1 ∙ tree_after-first call calls si.tree,
      )

  -- From a new index, over any insertions and queries at any times, each of which ends before the next
  -- begins: the calls succeed, and so do a radius query and a bounds query after them. What these
  -- answer, from a cache or not, is what the tree of the insertions alone answers to a query with the
  -- same rounded key. Of a query that an insertion overlaps nothing is said.
  pub apply_all-answers :
      (max_age capacity ttl : ℕ) (calls : List (Call F)) (lat lon radius : F) (area : Bounds F)
      (now later : ℕ) (ms : F)
      → let tree = tree_after calls (new_quad_tree max_age) in
        (si : SpatialIndex F) × (apply_all calls (new_spatial_index max_age capacity ttl) ≡ some si)
        × ((near : SpatialIndex F × List (Object F)) × (search_radius keys lat lon radius now later
                ms quiet si
              ≡ some near)
            × IsRadiusAnswer keys tree (keys.radius_key lat lon radius) near.1)
        × ((inside : SpatialIndex F × List (Object F)) × (search_bounds keys area now later ms quiet
                si
              ≡ some inside)
            × IsBoundsAnswer keys tree (keys.bounds_key area) inside.1)
  apply_all-answers max_age capacity ttl calls lat lon radius area now later ms =
      let (si, ran, fresh, grown) =
        apply_all-IsFresh calls (new_spatial_index max_age capacity ttl)
          (new_spatial_index-IsFresh keys max_age capacity ttl) in
      let tree_e : si.tree ≡ tree_after calls (new_quad_tree max_age) =
        unfold new_spatial_index in grown in
      let (r, objects, found_r, same_r, fresh_r, answer_r) =
        search_radius-answers keys lat lon radius now later ms si fresh in
      let (b, others, found_b, same_b, fresh_b, answer_b) =
        search_bounds-answers keys area now later ms si fresh in
      (
        si,
        ran,
        (
          (r, objects),
          found_r,
          subst (λ t. IsRadiusAnswer keys t (keys.radius_key lat lon radius) objects) tree_e
              answer_r,
        ),
        (
          (b, others),
          found_b,
          subst (λ t. IsBoundsAnswer keys t (keys.bounds_key area) others) tree_e answer_b,
        ),
      )
