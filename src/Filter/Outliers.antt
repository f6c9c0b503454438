-- ===== src/Filter/Outliers.antt =====
-- `OutlierFilter` of internal/filter/outlier_filter.go. The copy of a dropped point is marked and forgotten, so that
-- its mark is not modelled; neither is the log.
use flybeeper_com_map_fanet.Prelude.{
  if_both, ℕ, ◌+◌, ◌-◌, ◌≡◌, refl, pos, Bool, true, false, ◌&&◌, some, List, [], ◌∷◌, ◌++◌, map,
  foldl, reverse, length, take, get_elem?, ltb, leb, arith, if◌then◌else◌, Float,
}
use flybeeper_com_map_fanet.Models.Points.{GeoPoint, distance_to}
use flybeeper_com_map_fanet.Filter.Points.{
  TrackPoint, TrackData, FilterResult, FilterConfig, no_stats, number, above,
}
use flybeeper_com_map_fanet.Filter.Duplicates.{IsWithin, done, keep, skip}
use flybeeper_com_map_fanet.Filter.Order.{IsWithin-refl}
use flybeeper_com_map_fanet.Filter.Speed.{distance_between}
use flybeeper_com_map_fanet.Filter.Medians.{calculate_median, calculate_mad, median_position}

abbrev pub one : Bool → ℕ
one b = if b then 1 else 0

-- At least two of the three methods, point by point.
unfoldable pub two_of_three : List Bool → List Bool → List Bool → List Bool
two_of_three [] ys zs = []
two_of_three (x ∷ xs) [] zs = []
two_of_three (x ∷ xs) (y ∷ ys) [] = []
two_of_three (x ∷ xs) (y ∷ ys) (z ∷ zs) = leb 2 (one x + one y + one z) ∷ two_of_three xs ys zs

abbrev first_or_false : List Bool → Bool
first_or_false [] = false
first_or_false (b ∷ bs) = b

two_of_three-first :
    (xs ys zs : List Bool)
    → first_or_false xs ≡ false
    → first_or_false zs ≡ false
    → first_or_false (two_of_three xs ys zs) ≡ false
unfolding two_of_three
two_of_three-first xs ys zs ex ez = ground arith

module _ {F : Type 0} ⦃fl : Float F⦄ where
  open fl use {add, mul, div, lt}

  -- The distances of the points from those before them.
  unfoldable pub steps_from : TrackPoint F → List (TrackPoint F) → List F
  steps_from prev [] = []
  steps_from prev (p ∷ ps) = distance_between prev p ∷ steps_from p ps

  -- A computed threshold between the least one and the configured one.
  abbrev pub bounded : F → F → F → F
  bounded least most threshold =
      let t = if lt threshold least then least else threshold in if above t most then most else t

  abbrev pub none_flagged : List (TrackPoint F) → List Bool
  none_flagged points = map (λ p. false) points

  unfoldable pub detect_distance_outliers : FilterConfig F → List (TrackPoint F) → List Bool
  detect_distance_outliers c [] = []
  detect_distance_outliers c (p ∷ ps) =
      let distances = steps_from p ps in
      let median = calculate_median distances in
      let threshold =
        bounded (number 10) c.outlier_threshold_km
          (add median (mul (number 3) (calculate_mad distances median))) in
      if ltb (length (p ∷ ps)) 3
      then none_flagged (p ∷ ps)
      else false ∷ map (λ d. above d threshold) distances

  unfoldable pub detect_median_deviation_outliers : FilterConfig F → List (TrackPoint F) → List Bool
  detect_median_deviation_outliers c points =
      let center = median_position points in
      let deviations = map (λ p. distance_to p.position center) points in
      let median = calculate_median deviations in
      let threshold =
        bounded (number 5) c.outlier_threshold_km
          (add median (mul (number 4) (calculate_mad deviations median))) in
      if ltb (length points) 5 then none_flagged points else map (λ d. above d threshold) deviations

  -- The mean position of the neighbours, of which there are some.
  abbrev pub mean_position : List (TrackPoint F) → GeoPoint F
  mean_position points = record {
    latitude =
        div (foldl add (number 0) (map (λ p. p.position.latitude) points)) (number (length points));
    longitude =
        div (foldl add (number 0) (map (λ p. p.position.longitude) points))
          (number (length points));
    altitude = pos 0;
  }

  -- A point with three neighbours on each side that is far from their mean; the points before come
  -- latest first.
  abbrev pub is_flicker :
      FilterConfig F → List (TrackPoint F) → TrackPoint F → List (TrackPoint F) → Bool
  is_flicker c before point rest =
      leb 3 (length before)
      && leb 3 (length rest)
      && above (distance_to point.position (mean_position (reverse (take 3 before) ++ take 3 rest)))
          (div c.outlier_threshold_km (number 2))

  unfoldable pub flickers_from :
      FilterConfig F → List (TrackPoint F) → List (TrackPoint F) → List Bool
  flickers_from c before [] = []
  flickers_from c before (p ∷ rest) = is_flicker c before p rest ∷ flickers_from c (p ∷ before) rest

  unfoldable pub detect_flickering_outliers : FilterConfig F → List (TrackPoint F) → List Bool
  detect_flickering_outliers c points =
      if ltb (length points) 5 then none_flagged points else flickers_from c [] points

  unfoldable pub detect_outliers : FilterConfig F → List (TrackPoint F) → List Bool
  detect_outliers c points =
      two_of_three (detect_distance_outliers c points) (detect_median_deviation_outliers c points)
        (detect_flickering_outliers c points)

  -- The points whose flag is not set, and the number of the others.
  unfoldable pub drop_flagged : List (TrackPoint F) → List Bool → List (TrackPoint F) × ℕ
  drop_flagged [] flags = ([], 0)
  drop_flagged (p ∷ ps) [] = (p ∷ ps, 0)
  drop_flagged (p ∷ ps) (b ∷ bs) =
      let (points, n) = drop_flagged ps bs in (if b then points else p ∷ points, one b + n)

  -- `Filter`
  unfoldable pub filter_outliers : FilterConfig F → TrackData F → FilterResult F
  filter_outliers c track =
      let (points, n) = drop_flagged track.points (detect_outliers c track.points) in
      if ltb (length track.points) 3
      then record {
        original_count = length track.points;
        filtered_count = 0;
        points = track.points;
        statistics = no_stats;
      }
      else record {
        original_count = length track.points;
        filtered_count = length track.points - length points;
        points = points;
        statistics = record no_stats { outliers = n };
      }

  drop_flagged-thins :
      (ps : List (TrackPoint F)) (bs : List Bool)
      → let (points, n) = drop_flagged ps bs in IsWithin points ps × (length points + n ≡ length ps)
  unfolding drop_flagged
  drop_flagged-thins [] bs = (done, refl)
  drop_flagged-thins (p ∷ ps) [] = (IsWithin-refl (p ∷ ps), omega arith)
  drop_flagged-thins (p ∷ ps) (true ∷ bs) =
      let (within, n) = drop_flagged-thins ps bs in (skip within, omega (arith, n))
  drop_flagged-thins (p ∷ ps) (false ∷ bs) =
      let (within, n) = drop_flagged-thins ps bs in (keep refl within, omega (arith, n))

  distance-first :
      (c : FilterConfig F) (p : TrackPoint F) (ps : List (TrackPoint F))
      → first_or_false (detect_distance_outliers c (p ∷ ps)) ≡ false
  unfolding detect_distance_outliers
  distance-first c p ps =
      if_both (λ bs. first_or_false bs ≡ false) (ltb (length (p ∷ ps)) 3) refl refl

  flickering-first :
      (c : FilterConfig F) (p : TrackPoint F) (ps : List (TrackPoint F))
      → first_or_false (detect_flickering_outliers c (p ∷ ps)) ≡ false
  unfolding detect_flickering_outliers flickers_from
  flickering-first c p ps =
      if_both (λ bs. first_or_false bs ≡ false) (ltb (length (p ∷ ps)) 5) refl refl

  drop_flagged-first :
      (p : TrackPoint F) (ps : List (TrackPoint F)) (bs : List Bool)
      → first_or_false bs ≡ false
      → get_elem? (drop_flagged (p ∷ ps) bs).0 0 ≡ some p
  unfolding drop_flagged
  drop_flagged-first p ps bs e = ground arith

  detect_outliers-first :
      (c : FilterConfig F) (p : TrackPoint F) (ps : List (TrackPoint F))
      → first_or_false (detect_outliers c (p ∷ ps)) ≡ false
  unfolding detect_outliers
  detect_outliers-first c p ps =
      two_of_three-first (detect_distance_outliers c (p ∷ ps))
        (detect_median_deviation_outliers c (p ∷ ps)) (detect_flickering_outliers c (p ∷ ps))
        (distance-first c p ps) (flickering-first c p ps)

  first_stays :
      (c : FilterConfig F) (points : List (TrackPoint F))
      → get_elem? (drop_flagged points (detect_outliers c points)).0 0 ≡ get_elem? points 0
  unfolding drop_flagged
  first_stays c [] = refl
  first_stays c (p ∷ ps) =
      drop_flagged-first p ps (detect_outliers c (p ∷ ps)) (detect_outliers-first c p ps)

  -- The outlier filter accounts for every point: those left and the outliers are all, and the count
  -- of filtered points is that of the outliers. The points left are, in order and by their
  -- positions, among the track's. The first point always stays, however far from all others it is.
  pub filter_outliers-thins :
      (c : FilterConfig F) (track : TrackData F)
      → let r = filter_outliers c track in
        (r.original_count ≡ length track.points)
        × (length r.points + r.statistics.outliers ≡ length track.points)
        × (r.filtered_count ≡ r.statistics.outliers)
        × IsWithin r.points track.points
        × (get_elem? r.points 0 ≡ get_elem? track.points 0)
  unfolding filter_outliers
  filter_outliers-thins c track =
      let (within, n) = drop_flagged-thins track.points (detect_outliers c track.points) in
      let first = first_stays c track.points in
      if_both
        (λ (r : FilterResult F).
          (r.original_count ≡ length track.points)
          × (length r.points + r.statistics.outliers ≡ length track.points)
          × (r.filtered_count ≡ r.statistics.outliers)
          × IsWithin r.points track.points
          × (get_elem? r.points 0 ≡ get_elem? track.points 0))
        (ltb (length track.points) 3) (refl, omega arith, refl, IsWithin-refl track.points, refl)
        (refl, n, omega (arith, n), within, first)
