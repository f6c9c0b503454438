-- ===== src/Models/Points.antt =====
-- `GeoPoint` of internal/models/geo.go, and the haversine distance, which the program writes out
-- four times: in kilometres in internal/models/geo.go and internal/geo/geohash.go, in metres in
-- internal/service/validation.go and internal/mqtt/parser.go.
use flybeeper_com_map_fanet.Prelude.{ℕ, ℤ, pos, Float}

pub record GeoPoint (F : Type 0) : Type 0 where
  pub latitude : F
  pub longitude : F
  pub altitude : ℤ

module _ {F : Type 0} ⦃fl : Float F⦄ where
  open fl use {of_int, add, sub, mul, div, le, lt, pi, sin, cos, sqrt, atan2}

  abbrev int : ℕ → F
  int n = of_int (pos n)

  radians : F → F
  radians x = div (mul x pi) (int 180)

  -- `2 * math.Atan2(math.Sqrt(a), math.Sqrt(1-a))`, for the `a` of the haversine formula.
  central_angle : F → F → F → F → F
  central_angle lat1 lon1 lat2 lon2 =
      let lat1_rad = radians lat1 in
      let lat2_rad = radians lat2 in
      let delta_lat = radians (sub lat2 lat1) in
      let delta_lon = radians (sub lon2 lon1) in
      let half_lat = sin (div delta_lat (int 2)) in
      let half_lon = sin (div delta_lon (int 2)) in
      let a =
        add (mul half_lat half_lat)
          (mul (mul (mul (cos lat1_rad) (cos lat2_rad)) half_lon) half_lon) in
      mul (int 2) (atan2 (sqrt a) (sqrt (sub (int 1) a)))

  -- `Distance` of internal/geo/geohash.go
  unfoldable pub distance_km : F → F → F → F → F
  unfolding central_angle radians
  distance_km lat1 lon1 lat2 lon2 = mul (int 6371) (central_angle lat1 lon1 lat2 lon2)

  -- `calculateDistance` of the validation service
  unfoldable pub distance_m : F → F → F → F → F
  unfolding central_angle radians
  distance_m lat1 lon1 lat2 lon2 = mul (int 6371000) (central_angle lat1 lon1 lat2 lon2)

  -- `DistanceTo`
  unfoldable pub distance_to : GeoPoint F → GeoPoint F → F
  unfolding central_angle radians
  distance_to p q = mul (int 6371) (central_angle p.latitude p.longitude q.latitude q.longitude)
