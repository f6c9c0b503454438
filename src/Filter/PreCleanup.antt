-- ===== src/Filter/PreCleanup.antt =====
-- `PreCleanupFilter` of internal/filter/pre_cleanup_filter.go: it marks isolated points and leaves all. A distance
-- that no neighbour has lowered, `math.MaxFloat64` in the source, is `none`.
use flybeeper_com_map_fanet.Prelude.{
  ℕ, ◌+◌, ◌-◌, ◌*◌, ◌/◌, Bool, true, false, ◌&&◌, not, Option, none, some, List, [], ◌∷◌, ◌++◌, map,
  reverse, length, take, tally, ltb, leb, if◌then◌else◌, Float,
}
use flybeeper_com_map_fanet.Models.Points.{GeoPoint, distance_to}
use flybeeper_com_map_fanet.Filter.Points.{
  TrackPoint, TrackData, FilterResult, no_stats, number, above,
}
use flybeeper_com_map_fanet.Filter.Segments.{valid_points}
use flybeeper_com_map_fanet.Filter.Speed.{distance_between}
use flybeeper_com_map_fanet.Filter.Medians.{float64s, item, median_position}

module _ {F : Type 0} ⦃fl : Float F⦄ where
  open fl use {mul, le, lt}

  abbrev or_all : List (TrackPoint F) → List (TrackPoint F) → List (TrackPoint F)
  or_all [] points = points
  or_all (v ∷ vs) points = v ∷ vs

  unfoldable pub calculate_median_center : List (TrackPoint F) → GeoPoint F
  calculate_median_center points = median_position (or_all (valid_points points) points)

  -- The distance three quarters up the sorted ones, from 20 to 200 km.
  unfoldable pub radius_of_distances : List F → F
  radius_of_distances [] = number 100
  radius_of_distances (d ∷ ds) =
      let n = length (d ∷ ds) in
      let at = n * 3 / 4 in
      let radius = item (float64s (d ∷ ds)) (if leb n at then n - 1 else at) in
      if lt radius (number 20)
      then number 20
      else if above radius (number 200)
      then number 200
      else radius

  unfoldable pub calculate_cluster_radius : List (TrackPoint F) → GeoPoint F → F
  calculate_cluster_radius points center =
      radius_of_distances (map (λ p. distance_to p.position center) (valid_points points))

  abbrev nearer : F → Option F → Option F
  nearer d none = some d
  nearer d (some m) = if lt d m then some d else some m

  -- The least distance of a point to those of some others that are not marked.
  unfoldable pub nearest : Option F → TrackPoint F → List (TrackPoint F) → Option F
  nearest least point [] = least
  nearest least point (p ∷ ps) =
      nearest (if p.filtered then least else nearer (distance_between point p) least) point ps

  abbrev or_else : Option F → Option F → Option F
  or_else (some d) other = some d
  or_else none other = other

  -- Five neighbours on each side, else the whole track; the points before come latest first.
  unfoldable pub get_min_neighbor_distance :
      List (TrackPoint F) → TrackPoint F → List (TrackPoint F) → Option F
  get_min_neighbor_distance before point rest =
      or_else (nearest none point (reverse (take 5 before) ++ take 5 rest))
        (nearest none point (reverse before ++ rest))

  unfoldable pub count_nearby_points :
      List (TrackPoint F) → TrackPoint F → List (TrackPoint F) → F → ℕ
  count_nearby_points before point rest radius_km =
      tally (λ p. not p.filtered && le (distance_between point p) radius_km)
        (reverse before ++ rest)

  abbrev is_remote : Option F → Bool
  is_remote none = true
  is_remote (some d) = above d (number 50)

  -- The first and the last point.
  abbrev pub is_boundary : List (TrackPoint F) → List (TrackPoint F) → Bool
  is_boundary [] rest = true
  is_boundary (p ∷ before) [] = true
  is_boundary (p ∷ before) (q ∷ rest) = false

  unfoldable pub is_isolated :
      GeoPoint F → F → List (TrackPoint F) → TrackPoint F → List (TrackPoint F) → Bool
  is_isolated center radius before point rest =
      let from_center = distance_to point.position center in
      if is_boundary before rest
      then above from_center (mul radius (number 2))
        && is_remote (get_min_neighbor_distance before point rest)
      else above from_center (mul radius (number 3))
        && ltb (count_nearby_points before point rest (number 10)) 2

  abbrev pub isolate : Bool → TrackPoint F → TrackPoint F
  isolate b p = record p {
    filtered = if b then true else p.filtered;
    filter_reason = if b then "Isolated point outside main cluster" else p.filter_reason;
  }

  -- The loop of `Filter`, with the number of isolated points, boundary or not.
  unfoldable pub clean_from :
      GeoPoint F → F → List (TrackPoint F) → List (TrackPoint F) → List (TrackPoint F) × ℕ
  clean_from center radius before [] = ([], 0)
  clean_from center radius before (p ∷ rest) =
      let b = is_isolated center radius before p rest in
      let (points, n) = clean_from center radius (isolate b p ∷ before) rest in
      (isolate b p ∷ points, (if b then 1 else 0) + n)

  -- `Filter`
  unfoldable pub filter_pre_cleanup : TrackData F → FilterResult F
  filter_pre_cleanup track =
      let center = calculate_median_center track.points in
      let (points, n) =
        clean_from center (calculate_cluster_radius track.points center) [] track.points in
      if ltb (length track.points) 3
      then record {
        original_count = length track.points;
        filtered_count = 0;
        points = track.points;
        statistics = no_stats;
      }
      else record {
        original_count = length track.points;
        filtered_count = n;
        points = points;
        statistics = record no_stats { outliers = n };
      }
