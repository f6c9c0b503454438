-- ===== src/Geo/QuadTree/Frames.antt =====
-- Rectangles inside the world, their quarters, and the points that they hold
-- (internal/geo/quadtree.go).
use flybeeper_com_map_fanet.Prelude.{◌≡◌, true, false, pos, negsuc, arith, Float}
use flybeeper_com_map_fanet.Geo.QuadTree.Bounds.{
  Object, Bounds, Quadrant, nw, ne, sw, se, contains, holds, intersects, center_lat, center_lon,
  world, quadrant_of, child_bounds, IsOrdered,
}

-- A rectangle with ordered sides, in the world.
pub record IsFramed {F : Type 0} ⦃fl : Float F⦄ (b : Bounds F) : Type 0 where
  pub low_lat : fl.le (fl.of_int (negsuc 179)) b.min_lat ≡ true
  pub lat : fl.le b.min_lat b.max_lat ≡ true
  pub high_lat : fl.le b.max_lat (fl.of_int (pos 180)) ≡ true
  pub low_lon : fl.le (fl.of_int (negsuc 179)) b.min_lon ≡ true
  pub lon : fl.le b.min_lon b.max_lon ≡ true
  pub high_lon : fl.le b.max_lon (fl.of_int (pos 180)) ≡ true

module _ {F : Type 0} ⦃fl : Float F⦄ (laws : IsOrdered F) where
  open laws use {
    refl_of_le, le_trans, le_of_not_le, not_le_of_lt, world_lat, world_lon, lat_in_lon_low,
    lat_in_lon_high, middle_between,
  }

  pub world-IsFramed : IsFramed (world {F = F})
  world-IsFramed = record {
    low_lat = lat_in_lon_low;
    lat = world_lat;
    high_lat = lat_in_lon_high;
    low_lon = (refl_of_le _ _ world_lon).0;
    lon = world_lon;
    high_lon = (refl_of_le _ _ world_lon).1;
  }

  pub child_bounds-IsFramed :
      (b : Bounds F) (q : Quadrant) → IsFramed b → IsFramed (child_bounds b q)
  child_bounds-IsFramed b q f = split q
    where
      lat_mid : (fl.le b.min_lat (center_lat b) ≡ true) × (fl.le (center_lat b) b.max_lat ≡ true)
      lat_mid = middle_between b.min_lat b.max_lat f.low_lat f.lat f.high_lat

      lon_mid : (fl.le b.min_lon (center_lon b) ≡ true) × (fl.le (center_lon b) b.max_lon ≡ true)
      lon_mid = middle_between b.min_lon b.max_lon f.low_lon f.lon f.high_lon

      up_lat : fl.le (fl.of_int (negsuc 179)) (center_lat b) ≡ true
      up_lat = le_trans _ _ _ f.low_lat lat_mid.0

      down_lat : fl.le (center_lat b) (fl.of_int (pos 180)) ≡ true
      down_lat = le_trans _ _ _ lat_mid.1 f.high_lat

      up_lon : fl.le (fl.of_int (negsuc 179)) (center_lon b) ≡ true
      up_lon = le_trans _ _ _ f.low_lon lon_mid.0

      down_lon : fl.le (center_lon b) (fl.of_int (pos 180)) ≡ true
      down_lon = le_trans _ _ _ lon_mid.1 f.high_lon

      split : (q : Quadrant) → IsFramed (child_bounds b q)
      split nw = record {
        low_lat = up_lat;
        lat = lat_mid.1;
        high_lat = f.high_lat;
        low_lon = f.low_lon;
        lon = lon_mid.0;
        high_lon = down_lon;
      }
      split ne = record {
        low_lat = up_lat;
        lat = lat_mid.1;
        high_lat = f.high_lat;
        low_lon = up_lon;
        lon = lon_mid.1;
        high_lon = f.high_lon;
      }
      split sw = record {
        low_lat = f.low_lat;
        lat = lat_mid.0;
        high_lat = down_lat;
        low_lon = f.low_lon;
        lon = lon_mid.0;
        high_lon = down_lon;
      }
      split se = record {
        low_lat = f.low_lat;
        lat = lat_mid.0;
        high_lat = down_lat;
        low_lon = up_lon;
        lon = lon_mid.1;
        high_lon = f.high_lon;
      }

  pub holds-child :
      (b : Bounds F) (o : Object F)
      → IsFramed b
      → holds b o ≡ true
      → holds (child_bounds b (quadrant_of b o)) o ≡ true
  unfolding contains quadrant_of
  holds-child b o f h =
      let lat_mid = middle_between b.min_lat b.max_lat f.low_lat f.lat f.high_lat in
      let lon_mid = middle_between b.min_lon b.max_lon f.low_lon f.lon f.high_lon in
      let lat_num = (refl_of_le _ _ lat_mid.0).1 in
      let lon_num = (refl_of_le _ _ lon_mid.0).1 in
      ground (
        arith,
        refl_of_le o.latitude b.max_lat,
        refl_of_le o.longitude b.max_lon,
        le_of_not_le (center_lat b) o.latitude,
        le_of_not_le (center_lon b) o.longitude,
      )

  -- Two rectangles that hold one point intersect.
  pub intersects-of_holds :
      (b area : Bounds F) (o : Object F)
      → holds b o ≡ true
      → intersects b area ≡ false
      → holds area o ≡ false
  unfolding contains intersects
  intersects-of_holds b area o h e = ground (
    arith,
    not_le_of_lt b.max_lat area.min_lat,
    not_le_of_lt area.max_lat b.min_lat,
    not_le_of_lt b.max_lon area.min_lon,
    not_le_of_lt area.max_lon b.min_lon,
    le_trans area.min_lat o.latitude b.max_lat,
    le_trans b.min_lat o.latitude area.max_lat,
    le_trans area.min_lon o.longitude b.max_lon,
    le_trans b.min_lon o.longitude area.max_lon,
  )
