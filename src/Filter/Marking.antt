-- ===== src/Filter/Marking.antt =====
-- What `SmartTeleportationFilter` of internal/filter/smart_teleportation_filter.go marks and counts, and the bound of
-- its ping-pong detector.
use flybeeper_com_map_fanet.Prelude.{
  ℕ, ◌+◌, ◌≤◌, ◌≡◌, refl, true, false, ◌&&◌, ◌||◌, not, List, [], ◌∷◌, length, tally, ltb, arith,
  if◌then◌else◌, String, Float,
}
use flybeeper_com_map_fanet.Models.Points.{GeoPoint}
use flybeeper_com_map_fanet.Filter.Points.{is_filtered, TrackPoint, TrackData, number, above}
use flybeeper_com_map_fanet.Filter.Speed.{
  statistics_from, with_statistics, distance_between, calculate_track_statistics,
  calculate_track_statistics-keeps,
}
use flybeeper_com_map_fanet.Filter.Duplicates.{IsWithin, done, keep}
use flybeeper_com_map_fanet.Filter.Order.{IsWithin-trans}
use flybeeper_com_map_fanet.Filter.Medians.{median_position}
use flybeeper_com_map_fanet.Filter.Teleports.{
  Verdict, Marks, is_marked, count_mark, judge, judge_motion, marked, mark_points, no_marks,
  filter_smart_teleportation,
}

module _ {F : Type 0} ⦃fl : Float F⦄ where
  -- A point that is not marked is neither too fast nor too far from the one before it.
  abbrev pub AreCalm : TrackPoint F → List (TrackPoint F) → Type 0
  AreCalm p [] = Unit
  AreCalm p (q ∷ qs) =
      ((q.filtered || not (above q.speed (number 0) && above q.speed (number 300))) ≡ true)
      × ((q.filtered || not (above (distance_between p q) (number 200))) ≡ true)
      × AreCalm q qs

  abbrev pub AreAllCalm : List (TrackPoint F) → Type 0
  AreAllCalm [] = Unit
  AreAllCalm (p ∷ ps) = AreCalm p ps

  abbrev total : Marks F → ℕ
  total c = c.teleportations + c.massive_duplicates + c.ping_pong_points + c.speed_violations

  count_mark-total :
      (v : Verdict F) (c : Marks F)
      → total (count_mark v c) ≡ total c + (if is_marked v then 1 else 0)
  unfolding count_mark
  count_mark-total v c = ground arith

  judge-calm :
      (n : ℕ) (center : GeoPoint F) (places : List (GeoPoint F × ℕ)) (prev : TrackPoint F)
      (before : List (TrackPoint F)) (point : TrackPoint F)
      → let (v, places') = judge n center places (prev ∷ before) point in
        ((is_marked v || not (above point.speed (number 0) && above point.speed (number 300)))
          ≡ true)
        × ((is_marked v || not (above (distance_between prev point) (number 200))) ≡ true)
  unfolding judge judge_motion
  judge-calm n center places prev before point = ground arith

  pub tally-statistics_from :
      (prev : TrackPoint F) (rest : List (TrackPoint F))
      → tally is_filtered (statistics_from prev rest) ≡ tally is_filtered rest
  unfolding statistics_from
  tally-statistics_from prev [] = refl
  tally-statistics_from prev (p ∷ rest) =
      omega (arith, tally-statistics_from (with_statistics prev p) rest)

  tally-calculate :
      (points : List (TrackPoint F))
      → tally is_filtered (calculate_track_statistics points) ≡ tally is_filtered points
  unfolding calculate_track_statistics
  tally-calculate [] = refl
  tally-calculate (p ∷ rest) = omega (arith, tally-statistics_from p rest)

  module _ (sprintf : String → List F → String) where
    AreCalm-marked :
        (v : Verdict F) (p : TrackPoint F) (qs : List (TrackPoint F))
        → AreCalm p qs
        → AreCalm (marked sprintf v p) qs
    AreCalm-marked v p [] h = tt
    AreCalm-marked v p (q ∷ qs) h = h

    -- What the loop makes of the points from one on.
    abbrev IsMarking : Marks F → List (TrackPoint F) → List (TrackPoint F) × Marks F → Type 0
    IsMarking counts rest (points, last) =
        IsWithin points rest
        × (length points ≡ length rest)
        × (tally is_filtered points + total counts ≤ tally is_filtered rest + total last)
        × (total last ≤ tally is_filtered points + total counts)

    mark_points-IsMarking :
        (n : ℕ) (center : GeoPoint F) (places : List (GeoPoint F × ℕ))
        (before : List (TrackPoint F)) (counts : Marks F) (rest : List (TrackPoint F))
        → IsMarking counts rest (mark_points sprintf n center places before counts rest)
    unfolding mark_points
    mark_points-IsMarking n center places before counts [] = (done, refl, omega arith, omega arith)
    mark_points-IsMarking n center places before counts (p ∷ rest) =
        let (v, places') = judge n center places before p in
        let (within, same, upper, lower) =
          mark_points-IsMarking n center places' (p ∷ before) (count_mark v counts) rest in
        (
          keep refl within,
          omega (arith, same),
          ground (arith, upper, lower, count_mark-total v counts),
          ground (arith, upper, lower, count_mark-total v counts),
        )

    mark_points-AreCalm :
        (n : ℕ) (center : GeoPoint F) (places : List (GeoPoint F × ℕ)) (prev : TrackPoint F)
        (before : List (TrackPoint F)) (counts : Marks F) (rest : List (TrackPoint F))
        → AreCalm prev (mark_points sprintf n center places (prev ∷ before) counts rest).0
    unfolding mark_points
    mark_points-AreCalm n center places prev before counts [] = tt
    mark_points-AreCalm n center places prev before counts (p ∷ rest) =
        let (v, places') = judge n center places (prev ∷ before) p in
        let (slow, near) = judge-calm n center places prev before p in
        (
          ground (arith, slow),
          ground (arith, near),
          AreCalm-marked v p _
              (mark_points-AreCalm n center places' p (prev ∷ before) (count_mark v counts) rest),
        )

    mark_points-AreAllCalm :
        (n : ℕ) (center : GeoPoint F) (points : List (TrackPoint F))
        → AreAllCalm (mark_points sprintf n center [] [] no_marks points).0
    unfolding mark_points
    mark_points-AreAllCalm n center [] = tt
    mark_points-AreAllCalm n center (p ∷ rest) =
        let (v, places') = judge n center [] [] p in
        AreCalm-marked v p _
          (mark_points-AreCalm n center places' p [] (count_mark v no_marks) rest)

  not_short : (points : List (TrackPoint F)) → 3 ≤ length points → ltb (length points) 3 ≡ false
  not_short points h = ground arith

  -- On a track of at least three points the smart filter leaves every point in its place and counts
  -- what it marks: the three counters of the statistics add up to the count of filtered points, which
  -- is at most the number of marked points of the result, and this at most the count and the points
  -- that were marked before. A point after the first that is not marked is within 200 km of the point
  -- before it and, where its speed is positive, not above 300 km/h.
  pub filter_smart_teleportation-marks :
      (sprintf : String → List F → String) (track : TrackData F)
      → 3 ≤ length track.points
      → let r = filter_smart_teleportation sprintf track in
        (r.original_count ≡ length track.points)
        × (length r.points ≡ length track.points)
        × IsWithin r.points track.points
        × (r.statistics.teleportations + r.statistics.duplicates + r.statistics.speed_violations
            ≡ r.filtered_count)
        × (r.filtered_count ≤ tally is_filtered r.points)
        × (tally is_filtered r.points ≤ r.filtered_count + tally is_filtered track.points)
        × AreAllCalm r.points
  unfolding filter_smart_teleportation
  filter_smart_teleportation-marks sprintf track long =
      let points = calculate_track_statistics track.points in
      let center = median_position points in
      let (inside, size) = calculate_track_statistics-keeps track.points in
      let (within, same, upper, lower) =
        mark_points-IsMarking sprintf (length points) center [] [] no_marks points in
      rw (not_short track.points long) (
        refl,
        omega (arith, same, size),
        IsWithin-trans within inside,
        omega arith,
        omega (arith, lower),
        omega (arith, upper, tally-calculate track.points),
        mark_points-AreAllCalm sprintf (length points) center points,
      )
