-- ===== src/Geo/QuadTree/Bounds.antt =====
-- The rectangles of internal/geo/quadtree.go and the objects that they hold. An object is what the
-- interface `Object` gives of it.
use flybeeper_com_map_fanet.Prelude.{
  ℕ, ◌≡◌, Bool, true, false, ◌&&◌, ◌||◌, not, String, pos, negsuc, if◌then◌else◌, Float,
}

pub record Object (F : Type 0) : Type 0 where
  pub id : String
  pub latitude : F
  pub longitude : F
  pub timestamp : ℕ

pub record Bounds (F : Type 0) : Type 0 where
  pub min_lat : F
  pub min_lon : F
  pub max_lat : F
  pub max_lon : F

pub data Quadrant : Type 0 where
  nw ne sw se : Quadrant

module _ {F : Type 0} ⦃fl : Float F⦄ where
  open fl use {of_int, decimal, add, sub, div, le, lt}

  -- `Contains`
  unfoldable pub contains : Bounds F → F → F → Bool
  contains b lat lon = le b.min_lat lat && le lat b.max_lat && le b.min_lon lon && le lon b.max_lon

  abbrev pub holds : Bounds F → Object F → Bool
  holds b o = contains b o.latitude o.longitude

  -- `Intersects`
  unfoldable pub intersects : Bounds F → Bounds F → Bool
  intersects b other = not (
      lt b.max_lat other.min_lat
      || lt other.max_lat b.min_lat
      || lt b.max_lon other.min_lon
      || lt other.max_lon b.min_lon)

  unfoldable pub width : Bounds F → F
  width b = sub b.max_lon b.min_lon

  unfoldable pub height : Bounds F → F
  height b = sub b.max_lat b.min_lat

  -- `(a + b) / 2`, the coordinates of `Center`.
  unfoldable pub middle : F → F → F
  middle a b = div (add a b) (of_int (pos 2))

  abbrev pub center_lat : Bounds F → F
  center_lat b = middle b.min_lat b.max_lat

  abbrev pub center_lon : Bounds F → F
  center_lon b = middle b.min_lon b.max_lon

  -- The bounds of `NewQuadTree`.
  abbrev pub world : Bounds F
  world = record {
    min_lat = of_int (negsuc 89);
    min_lon = of_int (negsuc 179);
    max_lat = of_int (pos 90);
    max_lon = of_int (pos 180);
  }

  -- The child that `insertIntoChild` and `remove` go to.
  unfoldable pub quadrant_of : Bounds F → Object F → Quadrant
  quadrant_of b o =
      if le (center_lat b) o.latitude
      then if le (center_lon b) o.longitude then ne else nw
      else (if le (center_lon b) o.longitude then se else sw)

  -- The bounds of the children that `split` makes.
  abbrev pub child_bounds : Bounds F → Quadrant → Bounds F
  child_bounds b nw = record b { min_lat = center_lat b; max_lon = center_lon b }
  child_bounds b ne = record b { min_lat = center_lat b; min_lon = center_lon b }
  child_bounds b sw = record b { max_lat = center_lat b; max_lon = center_lon b }
  child_bounds b se = record b { max_lat = center_lat b; min_lon = center_lon b }

-- What the tree relies on in `float64`: `<=` is an order on the values that are not NaN (those that
-- are `<=` themselves), `<` excludes `>=`, and between two latitudes or longitudes the middle lies
-- between them (no sum of such values overflows).
pub record IsOrdered (F : Type 0) ⦃fl : Float F⦄ : Type 0 where
  pub refl_of_le : (x y : F) → fl.le x y ≡ true → (fl.le x x ≡ true) × (fl.le y y ≡ true)
  pub le_trans : (x y z : F) → fl.le x y ≡ true → fl.le y z ≡ true → fl.le x z ≡ true
  pub le_of_not_le :
      (x y : F) → fl.le x x ≡ true → fl.le y y ≡ true → fl.le x y ≡ false → fl.le y x ≡ true
  pub not_le_of_lt : (x y : F) → fl.lt x y ≡ true → fl.le y x ≡ false
  pub world_lat : fl.le (fl.of_int (negsuc 89)) (fl.of_int (pos 90)) ≡ true
  pub world_lon : fl.le (fl.of_int (negsuc 179)) (fl.of_int (pos 180)) ≡ true
  pub lat_in_lon_low : fl.le (fl.of_int (negsuc 179)) (fl.of_int (negsuc 89)) ≡ true
  pub lat_in_lon_high : fl.le (fl.of_int (pos 90)) (fl.of_int (pos 180)) ≡ true
  pub middle_between :
      (x y : F)
      → fl.le (fl.of_int (negsuc 179)) x ≡ true
      → fl.le x y ≡ true
      → fl.le y (fl.of_int (pos 180)) ≡ true
      → (fl.le x (middle x y) ≡ true) × (fl.le (middle x y) y ≡ true)
