-- ===== src/Filter/Speed.antt =====
-- `CalculateTrackStatistics` of internal/filter/chain.go and `SpeedBasedFilter` of
-- internal/filter/speed_filter.go. The copy of a dropped point is marked and forgotten, so that its mark is not
-- modelled; neither is the log.
use flybeeper_com_map_fanet.Prelude.{
  pos, ◌+◌, ◌-◌, ◌≡◌, refl, Bool, true, false, ◌&&◌, ◌||◌, List, [], ◌∷◌, ltb, length, sub_ℕ, arith,
  if◌then◌else◌, Bool-cases, inl, inr, Float,
}
use flybeeper_com_map_fanet.Models.Points.{distance_to}
use flybeeper_com_map_fanet.Filter.Points.{
  TrackPoint, TrackData, FilterStats, FilterResult, FilterConfig, no_stats, number, above,
  get_max_speed, in_units, hour,
}
use flybeeper_com_map_fanet.Filter.Duplicates.{IsWithin, done, keep, skip}
use flybeeper_com_map_fanet.Filter.Order.{IsWithin-trans}

module _ {F : Type 0} ⦃fl : Float F⦄ where
  open fl use {div, of_int}

  abbrev pub distance_between : TrackPoint F → TrackPoint F → F
  distance_between p q = distance_to p.position q.position

  -- `timeDiff.Hours()`
  abbrev pub hours_between : TrackPoint F → TrackPoint F → F
  hours_between p q = in_units hour (sub_ℕ q.timestamp p.timestamp)

  -- The distance from the point before and, where time and distance are positive, the speed.
  abbrev pub with_statistics : TrackPoint F → TrackPoint F → TrackPoint F
  with_statistics prev curr =
      let d = distance_between prev curr in
      let h = hours_between prev curr in
      record curr {
        distance = d;
        speed =
            if ltb prev.timestamp curr.timestamp && above d (number 0) && above h (number 0)
            then div d h
            else curr.speed;
      }

  unfoldable pub statistics_from : TrackPoint F → List (TrackPoint F) → List (TrackPoint F)
  statistics_from prev [] = []
  statistics_from prev (curr ∷ rest) =
      let curr' = with_statistics prev curr in curr' ∷ statistics_from curr' rest

  unfoldable pub calculate_track_statistics : List (TrackPoint F) → List (TrackPoint F)
  calculate_track_statistics [] = []
  calculate_track_statistics (p ∷ rest) = p ∷ statistics_from p rest

  abbrev pub moves : TrackPoint F → TrackPoint F → Bool
  moves prev point =
      above (hours_between prev point) (number 0) && above (distance_between prev point) (number 0)

  -- The speed of a point from the last valid one, in km/h.
  abbrev pub speed_between : TrackPoint F → TrackPoint F → F
  speed_between prev point =
      if moves prev point
      then div (distance_between prev point) (hours_between prev point)
      else number 0

  -- The point with its speed and distance from the last valid one.
  abbrev pub measured : TrackPoint F → TrackPoint F → TrackPoint F
  measured prev point = record point {
    speed = if moves prev point then speed_between prev point else point.speed;
    distance = if moves prev point then distance_between prev point else point.distance;
  }

  -- The statistics keep the largest speed and distance, those of dropped points too.
  abbrev pub raise : F → F → FilterStats F → FilterStats F
  raise speed distance s = record s {
    max_speed_detected = if above speed s.max_speed_detected then speed else s.max_speed_detected;
    max_distance_jump =
        if above distance s.max_distance_jump then distance else s.max_distance_jump;
  }

  -- The two tests, of the speed and of the jump.
  abbrev pub is_violation : F → TrackPoint F → TrackPoint F → Bool
  is_violation max_speed prev point =
      above (speed_between prev point) max_speed || above (distance_between prev point) (number 100)

  -- The loop of `Filter`: the points that pass after the last valid one, and the statistics.
  unfoldable pub drop_fast :
      F → FilterStats F → TrackPoint F → List (TrackPoint F) → List (TrackPoint F) × FilterStats F
  drop_fast max_speed stats prev [] = ([], stats)
  drop_fast max_speed stats prev (point ∷ rest) =
      let seen = raise (speed_between prev point) (distance_between prev point) stats in
      elim (is_violation max_speed prev point) [
        | true ↦
            drop_fast max_speed (record seen { speed_violations = stats.speed_violations + 1 }) prev
              rest
        | false ↦
            let point' = measured prev point in
            let (points, last) = drop_fast max_speed seen point' rest in (point' ∷ points, last)
      ]

  -- `Filter`
  unfoldable pub filter_speed : FilterConfig F → TrackData F → FilterResult F
  filter_speed c track = elim track.points [
    | [] ↦ record { original_count = 0; filtered_count = 0; points = []; statistics = no_stats }
    | p ∷ [] ↦ record {
      original_count = 1;
      filtered_count = 0;
      points = p ∷ [];
      statistics = no_stats;
    }
    | p ∷ q ∷ rest ↦
        let (points, stats) =
          drop_fast (get_max_speed c track.aircraft_type) no_stats p
            (statistics_from p (q ∷ rest)) in
        record {
          original_count = length (p ∷ q ∷ rest);
          filtered_count = length (p ∷ q ∷ rest) - length (p ∷ points);
          points = p ∷ points;
          statistics = stats;
        }
  ]

  -- Neighbours are at most 100 km from each other, and where their times and places differ, the
  -- distance by the hours is at most the speed.
  abbrev pub AreSlow : F → TrackPoint F → List (TrackPoint F) → Type 0
  AreSlow max_speed p [] = Unit
  AreSlow max_speed p (q ∷ qs) =
      (above (distance_between p q) (of_int (pos 100)) ≡ false)
      × (above (hours_between p q) (of_int (pos 0)) ≡ true
          → above (distance_between p q) (of_int (pos 0)) ≡ true
          → above (div (distance_between p q) (hours_between p q)) max_speed ≡ false)
      × AreSlow max_speed q qs

  -- What the two tests let through.
  is_violation-slow :
      (max_speed : F) (p q : TrackPoint F)
      → is_violation max_speed p q ≡ false
      → AreSlow max_speed p (q ∷ [])
  is_violation-slow max_speed p q h = (ground arith, λ later apart. ground arith, tt)

  statistics_from-IsWithin :
      (prev : TrackPoint F) (rest : List (TrackPoint F)) → IsWithin (statistics_from prev rest) rest
  unfolding statistics_from
  statistics_from-IsWithin prev [] = done
  statistics_from-IsWithin prev (curr ∷ rest) =
      keep refl (statistics_from-IsWithin (with_statistics prev curr) rest)

  length-statistics_from :
      (prev : TrackPoint F) (rest : List (TrackPoint F))
      → length (statistics_from prev rest) ≡ length rest
  unfolding statistics_from
  length-statistics_from prev [] = refl
  length-statistics_from prev (curr ∷ rest) =
      omega (arith, length-statistics_from (with_statistics prev curr) rest)

  pub calculate_track_statistics-keeps :
      (points : List (TrackPoint F))
      → IsWithin (calculate_track_statistics points) points
        × (length (calculate_track_statistics points) ≡ length points)
  unfolding calculate_track_statistics
  calculate_track_statistics-keeps [] = (done, refl)
  calculate_track_statistics-keeps (p ∷ rest) =
      (keep refl (statistics_from-IsWithin p rest), omega (arith, length-statistics_from p rest))

  -- What the loop makes of the points after the last valid one.
  abbrev IsSlowed :
      F
      → FilterStats F
      → TrackPoint F
      → List (TrackPoint F)
      → List (TrackPoint F) × FilterStats F
      → Type 0
  IsSlowed max_speed stats prev rest (points, last) =
      (length points + last.speed_violations ≡ stats.speed_violations + length rest)
      × IsWithin points rest
      × AreSlow max_speed prev points

  drop_fast-IsSlowed :
      (max_speed : F) (stats : FilterStats F) (prev : TrackPoint F) (rest : List (TrackPoint F))
      → IsSlowed max_speed stats prev rest (drop_fast max_speed stats prev rest)
  unfolding drop_fast
  drop_fast-IsSlowed max_speed stats prev [] = (omega arith, done, tt)
  drop_fast-IsSlowed max_speed stats prev (point ∷ rest) =
      let seen = raise (speed_between prev point) (distance_between prev point) stats in
      elim (Bool-cases (is_violation max_speed prev point)) [
        | inl e ↦
            let (count, within, slow) =
              drop_fast-IsSlowed max_speed
                (record seen { speed_violations = stats.speed_violations + 1 }) prev rest in
            rw (e, drop_fast) (omega (arith, count), skip within, slow)
        | inr e ↦
            let (count, within, slow) =
              drop_fast-IsSlowed max_speed seen (measured prev point) rest in
            let near = is_violation-slow max_speed prev point e in
            rw (e, drop_fast) (omega (arith, count), keep refl within, (near.0, near.1, slow))
      ]

  abbrev pub AreAllSlow : F → List (TrackPoint F) → Type 0
  AreAllSlow max_speed [] = Unit
  AreAllSlow max_speed (p ∷ ps) = AreSlow max_speed p ps

  filter_speed_from :
      (c : FilterConfig F) (track : TrackData F) (points : List (TrackPoint F))
      → track.points ≡ points
      → let r = filter_speed c track in
        (r.original_count ≡ length points)
        × (length r.points + r.statistics.speed_violations ≡ length points)
        × (r.filtered_count ≡ r.statistics.speed_violations)
        × IsWithin r.points points
        × AreAllSlow (get_max_speed c track.aircraft_type) r.points
  unfolding filter_speed
  filter_speed_from c track [] e = rw e (refl, refl, refl, done, tt)
  filter_speed_from c track (p ∷ []) e = rw e (refl, refl, refl, keep refl done, tt)
  filter_speed_from c track (p ∷ q ∷ rest) e =
      let max_speed = get_max_speed c track.aircraft_type in
      let (count, within, slow) =
        drop_fast-IsSlowed max_speed no_stats p (statistics_from p (q ∷ rest)) in
      let same = length-statistics_from p (q ∷ rest) in
      rw e (
        refl,
        omega (arith, count, same),
        omega (arith, count, same),
        keep refl (IsWithin-trans within (statistics_from-IsWithin p (q ∷ rest))),
        slow,
      )

  -- The speed filter accounts for every point: those left and the violations are all, and the count
  -- of filtered points is that of the violations. The points left are, in order and by their
  -- positions, among the track's. Any two neighbours of them are not above 100 km apart, and if the
  -- hours and the kilometres between them are both above 0, their quotient is not above the aircraft's
  -- maximum speed; of neighbours of one time nothing is said of their speed. This holds whatever
  -- floating-point numbers are.
  pub filter_speed-slows :
      (c : FilterConfig F) (track : TrackData F)
      → let r = filter_speed c track in
        (r.original_count ≡ length track.points)
        × (length r.points + r.statistics.speed_violations ≡ length track.points)
        × (r.filtered_count ≡ r.statistics.speed_violations)
        × IsWithin r.points track.points
        × AreAllSlow (get_max_speed c track.aircraft_type) r.points
  filter_speed-slows c track = filter_speed_from c track track.points refl
