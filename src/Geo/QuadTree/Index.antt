-- ===== src/Geo/QuadTree/Index.antt =====
-- `QuadTree` of internal/geo/quadtree.go: the root and the map of objects by ID. The lock makes each
-- method one step. Go walks the map in no fixed order; here it is the order of the association list.
use flybeeper_com_map_fanet.Prelude.{
  ℕ, ◌+◌, ◌/◌, Bool, none, some, List, [], ◌∷◌, String, pos, ltb, length, keep_if, if◌then◌else◌,
  Dict, lookup, delete, Float,
}
use flybeeper_com_map_fanet.Prelude
use flybeeper_com_map_fanet.Models.Points.{distance_km}
use flybeeper_com_map_fanet.Geo.QuadTree.Bounds.{Object, Bounds, world}
use flybeeper_com_map_fanet.Geo.QuadTree.Node.{Node, leaf, fork, insert, remove, query}

pub record QuadTree (F : Type 0) : Type 0 where
  pub root : Node F
  pub max_age : ℕ
  pub objects : Dict (Object F)

abbrev pub bounds_of : {F : Type 0} → Node F → Bounds F
bounds_of (leaf b d os) = b
bounds_of (fork b d n1 n2 n3 n4) = b

module _ {F : Type 0} ⦃fl : Float F⦄ where
  -- `NewQuadTree`
  abbrev pub new_quad_tree : ℕ → QuadTree F
  new_quad_tree max_age = record { root = leaf world 0 []; max_age = max_age; objects = [] }

  -- `Insert`
  unfoldable pub insert_object : Object F → QuadTree F → QuadTree F
  insert_object o qt = record qt {
    objects = Prelude.insert o.id o qt.objects;
    root = insert o qt.root;
  }

  -- `Remove`
  unfoldable pub remove_object : String → QuadTree F → QuadTree F
  remove_object id qt = elim (lookup id qt.objects) [
    | none ↦ qt
    | some o ↦ record qt { objects = delete id qt.objects; root = remove o qt.root }
  ]

  -- The first part of `Update`: the object leaves its old position.
  unfoldable pub leave_position : String → QuadTree F → QuadTree F
  leave_position id qt = elim (lookup id qt.objects) [
    | none ↦ qt
    | some old ↦ record qt { root = remove old qt.root }
  ]

  -- `Update`
  unfoldable pub update_object : Object F → QuadTree F → QuadTree F
  update_object o qt = insert_object o (leave_position o.id qt)

  -- `QueryBounds`
  unfoldable pub query_bounds : Bounds F → QuadTree F → List (Object F)
  query_bounds area qt = query area qt.root

  -- The rectangle of `QueryRadius`.
  unfoldable pub radius_bounds : F → F → F → Bounds F
  radius_bounds lat lon radius_km =
      let radius_deg = fl.div radius_km (fl.of_int (pos 111)) in
      record {
        min_lat = fl.sub lat radius_deg;
        max_lat = fl.add lat radius_deg;
        min_lon = fl.sub lon radius_deg;
        max_lon = fl.add lon radius_deg;
      }

  -- `dist <= radiusKm`
  abbrev pub within_radius : F → F → F → Object F → Bool
  within_radius lat lon radius_km o = fl.le (distance_km lat lon o.latitude o.longitude) radius_km

  -- `QueryRadius`
  unfoldable pub query_radius : F → F → F → QuadTree F → List (Object F)
  query_radius lat lon radius_km qt =
      keep_if (within_radius lat lon radius_km) (query (radius_bounds lat lon radius_km) qt.root)

  -- The loop of `Clean` over the map: the tree after it, and how many objects were removed.
  unfoldable pub clean_old : ℕ → Dict (Object F) → QuadTree F → QuadTree F × ℕ
  clean_old now [] qt = (qt, 0)
  clean_old now ((id, o) ∷ rest) qt =
      let old = ltb (o.timestamp + qt.max_age) now in
      let qt' = record qt { objects = delete id qt.objects; root = remove o qt.root } in
      let (done, removed) = clean_old now rest (if old then qt' else qt) in
      (done, removed + (if old then 1 else 0))

  -- The loop of `rebuild`.
  unfoldable pub insert_all : Dict (Object F) → Node F → Node F
  insert_all [] n = n
  insert_all ((id, o) ∷ rest) n = insert_all rest (insert o n)

  unfoldable pub rebuild : QuadTree F → QuadTree F
  rebuild qt = record qt { root = insert_all qt.objects (leaf (bounds_of qt.root) 0 []) }

  -- `Clean`
  unfoldable pub clean : ℕ → QuadTree F → QuadTree F × ℕ
  clean now qt =
      let (qt', removed) = clean_old now qt.objects qt in
      (if ltb (length qt'.objects / 4) removed then rebuild qt' else qt', removed)
