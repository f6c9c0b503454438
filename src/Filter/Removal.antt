-- ===== src/Filter/Removal.antt =====
-- What each filter of internal/filter that removes points leaves, in the terms of a chain.
use flybeeper_com_map_fanet.Prelude.{
  ℕ, suc, ◌+◌, ◌≤◌, ◌≡◌, refl, Bool, List, [], ◌∷◌, length, tally, arith, Bool-cases, inl, inr,
  Float,
}
use flybeeper_com_map_fanet.Filter.Points.{
  TrackPoint, TrackData, SegmentInfo, FilterStats, FilterConfig, no_stats, is_filtered,
  get_max_speed,
}
use flybeeper_com_map_fanet.Filter.Duplicates.{
  IsWithin, done, keep, touch, is_duplicate, drop_duplicates, filter_duplicates,
  filter_duplicates-thins,
}
use flybeeper_com_map_fanet.Filter.Speed.{
  statistics_from, drop_fast, filter_speed, filter_speed-slows, is_violation, measured, raise,
  speed_between, distance_between,
}
use flybeeper_com_map_fanet.Filter.Segments.{cut_from, segment_track}
use flybeeper_com_map_fanet.Filter.Labels.{relabel, mark_all-relabel}
use flybeeper_com_map_fanet.Filter.Outliers.{
  drop_flagged, detect_outliers, filter_outliers, filter_outliers-thins,
}
use flybeeper_com_map_fanet.Filter.Marking.{tally-statistics_from}

module _ {F : Type 0} ⦃fl : Float F⦄ where
  -- The points that a filter says it has removed.
  abbrev pub removed : FilterStats F → ℕ
  removed s = s.outliers + s.duplicates + s.speed_violations

  -- A filter that removes points, says how many, and marks none of the others.
  abbrev pub Removes : List (TrackPoint F) → List (TrackPoint F) → FilterStats F → Type 0
  Removes points points' s =
      IsWithin points' points
      × (length points' + removed s ≡ length points)
      × (tally is_filtered points' ≤ tally is_filtered points)

  drop_flagged-marks :
      (ps : List (TrackPoint F)) (bs : List Bool)
      → tally is_filtered (drop_flagged ps bs).0 ≤ tally is_filtered ps
  unfolding drop_flagged
  drop_flagged-marks [] bs = omega arith
  drop_flagged-marks (p ∷ ps) [] = omega arith
  drop_flagged-marks (p ∷ ps) (b ∷ bs) = ground (arith, drop_flagged-marks ps bs)

  drop_duplicates-marks :
      (c : FilterConfig F) (last : TrackPoint F) (before rest : List (TrackPoint F))
      → tally is_filtered (drop_duplicates c last before rest).0 ≤ tally is_filtered (last ∷ rest)
  unfolding drop_duplicates
  drop_duplicates-marks c last before [] = omega arith
  drop_duplicates-marks c last before (cur ∷ rest) =
      elim (Bool-cases (is_duplicate c last before cur)) [
        | inl e ↦
            rw (e, drop_duplicates)
              (ground (arith, drop_duplicates-marks c (touch last cur) before rest))
        | inr e ↦
            rw (e, drop_duplicates)
              (ground (arith, drop_duplicates-marks c cur (last ∷ before) rest))
      ]

  drop_fast-marks :
      (max_speed : F) (stats : FilterStats F) (prev : TrackPoint F) (rest : List (TrackPoint F))
      → let (points, last) = drop_fast max_speed stats prev rest in
        (tally is_filtered points ≤ tally is_filtered rest)
        × (last.outliers ≡ stats.outliers)
        × (last.duplicates ≡ stats.duplicates)
  unfolding drop_fast
  drop_fast-marks max_speed stats prev [] = (omega arith, refl, refl)
  drop_fast-marks max_speed stats prev (p ∷ rest) =
      let seen = raise (speed_between prev p) (distance_between prev p) stats in
      elim (Bool-cases (is_violation max_speed prev p)) [
        | inl e ↦
            let (marks, o, d) =
              drop_fast-marks max_speed
                (record seen { speed_violations = stats.speed_violations + 1 }) prev rest in
            rw (e, drop_fast) (omega (arith, marks), o, d)
        | inr e ↦
            let (marks, o, d) = drop_fast-marks max_speed seen (measured prev p) rest in
            rw (e, drop_fast) (omega (arith, marks), o, d)
      ]

  relabel-keeps :
      (ss : List (SegmentInfo F)) (i : ℕ) (ps : List (TrackPoint F))
      → IsWithin (relabel ss i ps) ps
        × (length (relabel ss i ps) ≡ length ps)
        × (tally is_filtered (relabel ss i ps) ≡ tally is_filtered ps)
  relabel-keeps ss i [] = (done, refl, refl)
  relabel-keeps ss i (p ∷ ps) =
      let (within, size, marks) = relabel-keeps ss (suc i) ps in
      (keep refl within, omega (arith, size), omega (arith, marks))

  pub duplicates-Removes :
      (c : FilterConfig F) (points : List (TrackPoint F))
      → let r = filter_duplicates c points in Removes points r.points r.statistics
  unfolding filter_duplicates
  duplicates-Removes c [] = (done, refl, omega arith)
  duplicates-Removes c (p ∷ []) = (keep refl done, refl, omega arith)
  duplicates-Removes c (p ∷ q ∷ rest) =
      let (all, count, filtered, within, apart) = filter_duplicates-thins c (p ∷ q ∷ rest) in
      (within, omega (arith, count), drop_duplicates-marks c p [] (q ∷ rest))

  pub segments-Removes :
      (split : TrackPoint F → TrackPoint F → Bool)
      (make : List (TrackPoint F) → ℕ → ℕ → SegmentInfo F) (points : List (TrackPoint F))
      → let r = segment_track split make points in Removes points r.points r.statistics
  unfolding segment_track
  segments-Removes split make [] = (done, refl, omega arith)
  segments-Removes split make (p ∷ []) = (keep refl done, refl, omega arith)
  segments-Removes split make (p ∷ q ∷ rest) =
      let points = p ∷ q ∷ rest in
      let ss = cut_from split make 1 0 (p ∷ []) p (q ∷ rest) in
      let (within, size, marks) = relabel-keeps ss 0 points in
      rw (mark_all-relabel ss points) (within, omega (arith, size), omega (arith, marks))

  pub length-segment_track :
      (split : TrackPoint F → TrackPoint F → Bool)
      (make : List (TrackPoint F) → ℕ → ℕ → SegmentInfo F) (points : List (TrackPoint F))
      → length (segment_track split make points).points ≡ length points
  unfolding segment_track
  length-segment_track split make [] = refl
  length-segment_track split make (p ∷ []) = refl
  length-segment_track split make (p ∷ q ∷ rest) =
      let (within, size, marks) = segments-Removes split make (p ∷ q ∷ rest) in omega (arith, size)

  pub speed-Removes :
      (c : FilterConfig F) (track : TrackData F) (points : List (TrackPoint F))
      → track.points ≡ points
      → let r = filter_speed c track in Removes points r.points r.statistics
  unfolding filter_speed
  speed-Removes c track [] e = rw e (done, refl, omega arith)
  speed-Removes c track (p ∷ []) e = rw e (keep refl done, refl, omega arith)
  speed-Removes c track (p ∷ q ∷ rest) e =
      let max_speed = get_max_speed c track.aircraft_type in
      let (all, count, filtered, within, slow) =
        filter_speed-slows c (record track { points = p ∷ q ∷ rest }) in
      let (marks, o, d) = drop_fast-marks max_speed no_stats p (statistics_from p (q ∷ rest)) in
      rw e (
        within,
        omega (arith, count, o, d),
        omega (arith, marks, tally-statistics_from p (q ∷ rest)),
      )

  pub outliers-Removes :
      (c : FilterConfig F) (track : TrackData F)
      → let r = filter_outliers c track in Removes track.points r.points r.statistics
  unfolding filter_outliers
  outliers-Removes c track =
      let (all, count, filtered, within, first) = filter_outliers-thins c track in
      ground
        (arith, count, within, drop_flagged-marks track.points (detect_outliers c track.points))
