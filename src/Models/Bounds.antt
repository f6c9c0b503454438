-- ===== src/Models/Bounds.antt =====
-- `GeoPoint` and `Bounds` of internal/models/geo.go but for the distance and the geohashes.
use flybeeper_com_map_fanet.Prelude.{Bool, ◌&&◌, ◌||◌, List, [], ◌∷◌, ◌++◌, pos, negsuc, Float}
use flybeeper_com_map_fanet.Models.Points.{GeoPoint, distance_to}
use flybeeper_com_map_fanet.Models.Checks.{Reason, Checked, latitude, longitude, first_fault}

pub record Bounds (F : Type 0) : Type 0 where
  pub southwest : GeoPoint F
  pub northeast : GeoPoint F

module _ {F : Type 0} ⦃fl : Float F⦄ where
  open fl use {of_int, add, sub, mul, div, lt, le, pi, cos}

  -- The tests of `GeoPoint.Validate`
  abbrev pub point_faults : GeoPoint F → List (Bool × Reason)
  point_faults p =
      (lt p.latitude (of_int (negsuc 89)) || lt (of_int (pos 90)) p.latitude, latitude)
      ∷ (lt p.longitude (of_int (negsuc 179)) || lt (of_int (pos 180)) p.longitude, longitude)
      ∷ []

  unfoldable pub validate_point : GeoPoint F → Checked
  validate_point p = first_fault (point_faults p)

  unfoldable pub is_in_bounds : GeoPoint F → GeoPoint F → GeoPoint F → Bool
  is_in_bounds p sw ne =
      le sw.latitude p.latitude
      && le p.latitude ne.latitude
      && le sw.longitude p.longitude
      && le p.longitude ne.longitude

  -- `Bounds.Validate`
  unfoldable pub validate_bounds : Bounds F → Checked
  validate_bounds b = first_fault (
      point_faults b.southwest
      ++ point_faults b.northeast
      ++ (lt b.northeast.latitude b.southwest.latitude, latitude)
        ∷ (lt b.northeast.longitude b.southwest.longitude, longitude)
        ∷ [])

  unfoldable pub contains : Bounds F → GeoPoint F → Bool
  unfolding is_in_bounds
  contains b point = is_in_bounds point b.southwest b.northeast

  unfoldable pub center : Bounds F → GeoPoint F
  center b = record {
    latitude = div (add b.southwest.latitude b.northeast.latitude) (of_int (pos 2));
    longitude = div (add b.southwest.longitude b.northeast.longitude) (of_int (pos 2));
    altitude = pos 0;
  }

  unfoldable pub expand : Bounds F → F → Bounds F
  unfolding center
  expand b km =
      let lat_deg_per_km = div (of_int (pos 1)) (of_int (pos 111)) in
      let lon_deg_per_km =
        div (of_int (pos 1))
          (mul (of_int (pos 111)) (cos (div (mul (center b).latitude pi) (of_int (pos 180))))) in
      let lat_expansion = mul km lat_deg_per_km in
      let lon_expansion = mul km lon_deg_per_km in
      record {
        southwest = record {
          latitude = sub b.southwest.latitude lat_expansion;
          longitude = sub b.southwest.longitude lon_expansion;
          altitude = pos 0;
        };
        northeast = record {
          latitude = add b.northeast.latitude lat_expansion;
          longitude = add b.northeast.longitude lon_expansion;
          altitude = pos 0;
        };
      }

  unfoldable pub diagonal_km : Bounds F → F
  unfolding distance_to
  diagonal_km b = distance_to b.southwest b.northeast
