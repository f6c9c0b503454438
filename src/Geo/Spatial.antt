-- ===== src/Geo/Spatial.antt =====
-- `GeoCache` of internal/geo/cache.go and `SpatialIndex` of internal/geo/spatial.go. The texts that
-- `fmt.Sprintf` makes of rounded coordinates are an argument; `now` and `later` are the clock at the two
-- calls of a cache, `ms` what a query took. A query is not one step: it locks the cache, then the tree,
-- then the cache, and what other goroutines do between these is an argument too, any two functions. The
-- numbers of queries are counted at the end of a query. The size of the Bloom filter is that of its formula.
use Prim.Native.Char.{code}
use flybeeper_com_map_fanet.Prelude.{
  ℕ, suc, ◌++◌, true, insert, lookup, found, Dict, ◌+◌, ◌/◌, Bool, ◌&&◌, Option, none, some, List,
  [], ◌∷◌, String, pos, ltb, length, if◌then◌else◌, Float,
}
use flybeeper_com_map_fanet.Geo.QuadTree.Bounds.{Object, Bounds}
use flybeeper_com_map_fanet.Geo.QuadTree.Index.{
  QuadTree, new_quad_tree, update_object, remove_object, query_bounds, query_radius,
}
use flybeeper_com_map_fanet.Geo.QuadTree.Index
use flybeeper_com_map_fanet.Geo.Cache.Defs.{LruCache, new_lru_cache, get, set, clear}
use flybeeper_com_map_fanet.Geo.Cache.Defs
use flybeeper_com_map_fanet.Geo.Geohash.{bounding_box}
use flybeeper_com_map_fanet.Geo.Cover.{neighbors}
use flybeeper_com_map_fanet.Geo.Bloom.{BloomFilter, new_bloom_filter, add_item, may_contain}

pub record KeyFormat (F : Type 0) : Type 0 where
  pub radius_key : F → F → F → String
  pub bounds_key : Bounds F → String

pub record GeoCache (F : Type 0) : Type 0 where
  pub radius_cache : LruCache (List (Object F))
  pub bounds_cache : LruCache (List (Object F))

pub record SpatialMetrics (F : Type 0) : Type 0 where
  pub query_count : ℕ
  pub update_count : ℕ
  pub cache_hits : ℕ
  pub cache_misses : ℕ
  pub tree_queries : ℕ
  pub avg_query_time_ms : F

pub record SpatialIndex (F : Type 0) : Type 0 where
  pub tree : QuadTree F
  pub cache : GeoCache F
  pub bloom : BloomFilter
  pub metrics : SpatialMetrics F

-- What other goroutines do to the index before a query reads the tree, and before it writes the cache.
pub record Meanwhile (F : Type 0) : Type 0 where
  pub before_tree : SpatialIndex F → SpatialIndex F
  pub before_set : SpatialIndex F → SpatialIndex F

-- The runes of a text.
abbrev runes : String → List ℕ
runes String.[] = []
runes (String.◌∷◌ c s) = code c ∷ runes s

-- `NewBloomFilter(100000, 0.01)`
unfoldable pub live_bloom_filter : BloomFilter
live_bloom_filter = new_bloom_filter 958506 7

module _ {F : Type 0} where
  -- `NewGeoCache`
  unfoldable pub new_geo_cache : ℕ → ℕ → GeoCache F
  new_geo_cache capacity ttl = record {
    radius_cache = new_lru_cache capacity ttl;
    bounds_cache = new_lru_cache capacity ttl;
  }

  -- `InvalidateArea`, whatever the area.
  unfoldable pub invalidate_area : GeoCache F → GeoCache F
  invalidate_area gc = record {
    radius_cache = clear gc.radius_cache;
    bounds_cache = clear gc.bounds_cache;
  }

  -- `GeoCache.Clean`
  unfoldable pub clean_caches : ℕ → GeoCache F → GeoCache F × ℕ
  clean_caches now gc =
      let (r, n) = Defs.clean now gc.radius_cache in
      let (b, k) = Defs.clean now gc.bounds_cache in
      (record { radius_cache = r; bounds_cache = b }, n + k)

module _ {F : Type 0} ⦃fl : Float F⦄ where
  open fl use {of_int, decimal, add, mul, le}

  unfoldable pub new_spatial_index : ℕ → ℕ → ℕ → SpatialIndex F
  new_spatial_index max_age capacity ttl = record {
    tree = new_quad_tree max_age;
    cache = new_geo_cache capacity ttl;
    bloom = live_bloom_filter;
    metrics = record {
      query_count = 0;
      update_count = 0;
      cache_hits = 0;
      cache_misses = 0;
      tree_queries = 0;
      avg_query_time_ms = of_int (pos 0);
    };
  }

  unfoldable pub insert_object : Object F → SpatialIndex F → SpatialIndex F
  insert_object o si = record {
    bloom = add_item (runes o.id) si.bloom;
    tree = update_object o si.tree;
    cache = invalidate_area si.cache;
    metrics = record si.metrics { update_count = si.metrics.update_count + 1 };
  }

  -- `Remove`
  unfoldable pub remove_id : String → SpatialIndex F → SpatialIndex F
  remove_id id si = record si {
    tree = remove_object id si.tree;
    metrics = record si.metrics { update_count = si.metrics.update_count + 1 };
  }

  -- `updateQueryMetrics`
  unfoldable pub update_query_metrics : F → SpatialMetrics F → SpatialMetrics F
  update_query_metrics ms m = record m {
    avg_query_time_ms =
        if le m.avg_query_time_ms (of_int (pos 0)) && le (of_int (pos 0)) m.avg_query_time_ms
        then ms
        else add (mul m.avg_query_time_ms (decimal 9 1)) (mul ms (decimal 1 1));
  }

  -- The metrics after a query that the cache answered, and after one that it did not.
  unfoldable pub count_hit : F → SpatialMetrics F → SpatialMetrics F
  unfolding update_query_metrics
  count_hit ms m =
      update_query_metrics ms
        (record m { query_count = m.query_count + 1; cache_hits = m.cache_hits + 1 })

  unfoldable pub count_miss : F → SpatialMetrics F → SpatialMetrics F
  unfolding update_query_metrics
  count_miss ms m = update_query_metrics ms (record m {
    query_count = m.query_count + 1;
    cache_misses = m.cache_misses + 1;
    tree_queries = m.tree_queries + 1;
  })

  -- `Exists`, `Size`
  unfoldable pub exists_id : String → SpatialIndex F → Bool
  exists_id id si = may_contain (runes id) si.bloom

  unfoldable pub size : SpatialIndex F → ℕ
  size si = length si.tree.objects

  unfoldable pub rebuild_bloom_filter : SpatialIndex F → SpatialIndex F
  rebuild_bloom_filter si = record si { bloom = live_bloom_filter }

  -- `Clean`
  unfoldable pub clean_index : ℕ → SpatialIndex F → SpatialIndex F × ℕ
  clean_index now si =
      let (tree, removed) = Index.clean now si.tree in
      let (cache, expired) = clean_caches now si.cache in
      let cleaned : SpatialIndex F = record si { tree = tree; cache = cache } in
      (
        if ltb (length tree.objects / 4) removed then rebuild_bloom_filter cleaned else cleaned,
        removed,
      )

-- The queries: the index after the call and the answer; none is a panic of the cache.
module _ {F : Type 0} ⦃fl : Float F⦄ (keys : KeyFormat F) where
  -- `GetRadius`, `SetRadius`, `GetBounds`, `SetBounds`
  unfoldable pub get_radius :
      F → F → F → ℕ → GeoCache F → Option (GeoCache F × Option (List (Object F)))
  get_radius lat lon radius now gc =
      elim (get (keys.radius_key lat lon radius) now gc.radius_cache) [
        | none ↦ none
        | some (c, o) ↦ some (record gc { radius_cache = c }, o)
      ]

  unfoldable pub set_radius : F → F → F → List (Object F) → ℕ → GeoCache F → GeoCache F
  set_radius lat lon radius objects now gc = record gc {
    radius_cache =
        set (keys.radius_key lat lon radius) objects (length objects) now gc.radius_cache;
  }

  unfoldable pub get_bounds :
      Bounds F → ℕ → GeoCache F → Option (GeoCache F × Option (List (Object F)))
  get_bounds area now gc = elim (get (keys.bounds_key area) now gc.bounds_cache) [
    | none ↦ none
    | some (c, o) ↦ some (record gc { bounds_cache = c }, o)
  ]

  unfoldable pub set_bounds : Bounds F → List (Object F) → ℕ → GeoCache F → GeoCache F
  set_bounds area objects now gc = record gc {
    bounds_cache = set (keys.bounds_key area) objects (length objects) now gc.bounds_cache;
  }

  unfoldable pub radius_answer :
      F
      → F
      → F
      → ℕ
      → F
      → Meanwhile F
      → SpatialIndex F
      → Option (List (Object F))
      → SpatialIndex F × List (Object F)
  unfolding set_radius
  radius_answer lat lon radius later ms others si (some objects) =
      (record si { metrics = count_hit ms si.metrics }, objects)
  radius_answer lat lon radius later ms others si none =
      let si1 = others.before_tree si in
      let objects = query_radius lat lon radius si1.tree in
      let si2 = others.before_set si1 in
      (
        record si2 {
          cache = set_radius lat lon radius objects later si2.cache;
          metrics = count_miss ms si2.metrics;
        },
        objects,
      )

  -- `QueryRadius`
  unfoldable pub search_radius :
      F
      → F
      → F
      → ℕ
      → ℕ
      → F
      → Meanwhile F
      → SpatialIndex F
      → Option (SpatialIndex F × List (Object F))
  unfolding get_radius radius_answer
  search_radius lat lon radius now later ms others si =
      elim (get_radius lat lon radius now si.cache) [
        | none ↦ none
        | some (gc, o) ↦
            some (radius_answer lat lon radius later ms others (record si { cache = gc }) o)
      ]

  unfoldable pub bounds_answer :
      Bounds F
      → ℕ
      → F
      → Meanwhile F
      → SpatialIndex F
      → Option (List (Object F))
      → SpatialIndex F × List (Object F)
  unfolding set_bounds
  bounds_answer area later ms others si (some objects) =
      (record si { metrics = count_hit ms si.metrics }, objects)
  bounds_answer area later ms others si none =
      let si1 = others.before_tree si in
      let objects = query_bounds area si1.tree in
      let si2 = others.before_set si1 in
      (
        record si2 {
          cache = set_bounds area objects later si2.cache;
          metrics = count_miss ms si2.metrics;
        },
        objects,
      )

  -- `QueryBounds`
  unfoldable pub search_bounds :
      Bounds F
      → ℕ
      → ℕ
      → F
      → Meanwhile F
      → SpatialIndex F
      → Option (SpatialIndex F × List (Object F))
  unfolding get_bounds bounds_answer
  search_bounds area now later ms others si = elim (get_bounds area now si.cache) [
    | none ↦ none
    | some (gc, o) ↦ some (bounds_answer area later ms others (record si { cache = gc }) o)
  ]

  -- The objects that were not seen, in their order, with the ids seen after them.
  unfoldable pub append_unseen : List (Object F) → Dict Bool → List (Object F) × Dict Bool
  append_unseen [] seen = ([], seen)
  append_unseen (o ∷ os) seen =
      let skipped = append_unseen os seen in
      let (rest, seen') = append_unseen os (insert o.id true seen) in
      if found (lookup o.id seen) then skipped else (o ∷ rest, seen')

  -- The queries for the neighbours, from the number of the first; `clock` has the times of each, and
  -- what comes in between.
  unfoldable pub search_neighbors :
      (ℕ → ℕ × ℕ × F × Meanwhile F)
      → ℕ
      → List (List ℕ)
      → Dict Bool
      → List (Object F)
      → SpatialIndex F
      → Option (SpatialIndex F × List (Object F))
  unfolding search_bounds append_unseen
  search_neighbors clock i [] seen objects si = some (si, objects)
  search_neighbors clock i (gh ∷ rest) seen objects si =
      let (now, later, ms, meanwhile) = clock i in
      elim (search_bounds (bounding_box gh) now later ms meanwhile si) [
        | none ↦ none
        | some (si', others) ↦
            let (unseen, seen') = append_unseen others seen in
            search_neighbors clock (suc i) rest seen' (objects ++ unseen) si'
      ]

  -- `QueryGeohash`
  unfoldable pub search_geohash :
      (ℕ → ℕ × ℕ × F × Meanwhile F)
      → List ℕ
      → SpatialIndex F
      → Option (SpatialIndex F × List (Object F))
  unfolding search_neighbors
  search_geohash clock geohash si =
      let (now, later, ms, meanwhile) = clock 0 in
      elim (search_bounds (bounding_box geohash) now later ms meanwhile si) [
        | none ↦ none
        | some (si', objects) ↦
            search_neighbors clock 1 (neighbors F geohash) (append_unseen objects []).1 objects si'
      ]
