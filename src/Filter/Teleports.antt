-- ===== src/Filter/Teleports.antt =====
-- `SmartTeleportationFilter` of internal/filter/smart_teleportation_filter.go, which marks points and leaves
-- all. `sprintf` is `fmt.Sprintf`.
use flybeeper_com_map_fanet.Prelude.{
  ℕ, ◌+◌, ◌-◌, Bool, true, false, ◌&&◌, ◌||◌, not, List, [], ◌∷◌, map, reverse, length, take,
  keep_if, ltb, leb, if◌then◌else◌, String, Float,
}
use flybeeper_com_map_fanet.Models.Points.{GeoPoint, distance_to}
use flybeeper_com_map_fanet.Filter.Points.{
  TrackPoint, TrackData, FilterResult, no_stats, number, above,
}
use flybeeper_com_map_fanet.Filter.Speed.{distance_between, calculate_track_statistics}
use flybeeper_com_map_fanet.Filter.Medians.{float64s, middle_item, median_position}
use flybeeper_com_map_fanet.Filter.PingPong.{add_point}

-- Why a point is marked.
pub data Verdict (F : Type 0) : Type 0 where
  passes : Verdict F
  first_outlier : F → Verdict F
  massive_duplicate : Verdict F
  ping_pong : Verdict F
  speed_violation : F → Verdict F
  speed_anomaly : F → F → Verdict F
  extreme_teleportation : F → Verdict F

-- The counters of `Filter`.
pub record Marks (F : Type 0) : Type 0 where
  pub teleportations : ℕ
  pub massive_duplicates : ℕ
  pub ping_pong_points : ℕ
  pub speed_violations : ℕ
  pub max_jump : F
  pub max_speed_detected : F

module _ {F : Type 0} ⦃fl : Float F⦄ where
  open fl use {of_int, decimal, mul, div, lt}

  -- The points before come with the latest first, here and below.
  unfoldable pub duplicates_back : GeoPoint F → ℕ → List (TrackPoint F) → ℕ
  duplicates_back current count [] = count
  duplicates_back current count (p ∷ before) =
      if ltb count 5 && lt (distance_to current p.position) (decimal 1 3)
      then duplicates_back current (count + 1) before
      else count

  unfoldable pub is_massive : TrackPoint F → List (TrackPoint F) → Bool
  is_massive point before =
      not (ltb (length before) 5) && leb 5 (duplicates_back point.position 1 before)

  -- `calculateSlidingMedianSpeed`: at most 15 points, never the first of the track.
  unfoldable pub sliding_median_speed : List (TrackPoint F) → F
  sliding_median_speed before =
      let index = length before in
      let window = if ltb (index - 15) 1 then index - 1 else 15 in
      let speeds =
        map (λ p. p.speed)
          (keep_if (λ p. above p.speed (number 0)) (reverse (take window before))) in
      if ltb index 15 || ltb (length speeds) 3 then number 0 else middle_item (float64s speeds)

  -- The tests of speed and distance, for a point after the first.
  unfoldable pub judge_motion : TrackPoint F → List (TrackPoint F) → TrackPoint F → Verdict F
  judge_motion prev before point =
      let median = sliding_median_speed (prev ∷ before) in
      let distance = distance_between prev point in
      if above point.speed (number 0) && above point.speed (number 300)
      then speed_violation point.speed
      else if above point.speed (number 0)
          && (above median (number 0) && above point.speed (mul median (number 10)))
      then speed_anomaly point.speed median
      else if above distance (number 200)
      then extreme_teleportation distance
      else passes

  abbrev pub judge_from : List (TrackPoint F) → TrackPoint F → Verdict F
  judge_from [] point = passes
  judge_from (prev ∷ before) point = judge_motion prev before point

  -- `i == 0` and the test of the first point; `n` is the number of points.
  abbrev pub is_first_outlier : ℕ → GeoPoint F → List (TrackPoint F) → TrackPoint F → Bool
  is_first_outlier n center [] point =
      above (distance_to point.position center) (number 200) && ltb 10 n
  is_first_outlier n center (prev ∷ before) point = false

  -- The tests in their order, with the places of the ping-pong detector.
  unfoldable pub judge :
      ℕ
      → GeoPoint F
      → List (GeoPoint F × ℕ)
      → List (TrackPoint F)
      → TrackPoint F
      → Verdict F × List (GeoPoint F × ℕ)
  judge n center places before point = elim (is_first_outlier n center before point) [
    | true ↦ (first_outlier (distance_to point.position center), places)
    | false ↦ elim (is_massive point before) [
      | true ↦ (massive_duplicate, places)
      | false ↦
          let (places', bounces) = add_point 3 point.position places in
          (if bounces then ping_pong else judge_from before point, places')
    ]
  ]

  abbrev pub is_marked : Verdict F → Bool
  is_marked passes = false
  is_marked (first_outlier d) = true
  is_marked massive_duplicate = true
  is_marked ping_pong = true
  is_marked (speed_violation s) = true
  is_marked (speed_anomaly s m) = true
  is_marked (extreme_teleportation d) = true

  unfoldable pub count_mark : Verdict F → Marks F → Marks F
  count_mark passes c = c
  count_mark (first_outlier d) c = record c { teleportations = c.teleportations + 1 }
  count_mark massive_duplicate c = record c { massive_duplicates = c.massive_duplicates + 1 }
  count_mark ping_pong c = record c { ping_pong_points = c.ping_pong_points + 1 }
  count_mark (speed_violation s) c = record c {
    speed_violations = c.speed_violations + 1;
    max_speed_detected = if above s c.max_speed_detected then s else c.max_speed_detected;
  }
  count_mark (speed_anomaly s m) c = record c {
    speed_violations = c.speed_violations + 1;
    max_speed_detected = if above s c.max_speed_detected then s else c.max_speed_detected;
  }
  count_mark (extreme_teleportation d) c = record c {
    teleportations = c.teleportations + 1;
    max_jump = if above d c.max_jump then d else c.max_jump;
  }

  abbrev pub no_marks : Marks F
  no_marks = record {
    teleportations = 0;
    massive_duplicates = 0;
    ping_pong_points = 0;
    speed_violations = 0;
    max_jump = number 0;
    max_speed_detected = number 0;
  }

  module _ (sprintf : String → List F → String) where
    unfoldable pub reason_of : Verdict F → String
    reason_of passes = ""
    reason_of (first_outlier d) = sprintf "First point outlier: %.1f km from median center" (d ∷ [])
    reason_of massive_duplicate = "Massive duplicate"
    reason_of ping_pong = "Ping-pong pattern"
    reason_of (speed_violation s) = sprintf "Speed violation: %.1f km/h" (s ∷ [])
    reason_of (speed_anomaly s m) =
        sprintf "Speed anomaly: %.1f km/h (%.1fx median)" (s ∷ div s m ∷ [])
    reason_of (extreme_teleportation d) = sprintf "Extreme teleportation: %.1f km" (d ∷ [])

    abbrev pub marked : Verdict F → TrackPoint F → TrackPoint F
    marked v p = record p {
      filtered = if is_marked v then true else p.filtered;
      filter_reason = if is_marked v then reason_of v else p.filter_reason;
    }

    -- The loop of `Filter`.
    unfoldable pub mark_points :
        ℕ
        → GeoPoint F
        → List (GeoPoint F × ℕ)
        → List (TrackPoint F)
        → Marks F
        → List (TrackPoint F)
        → List (TrackPoint F) × Marks F
    mark_points n center places before counts [] = ([], counts)
    mark_points n center places before counts (p ∷ rest) =
        let (v, places') = judge n center places before p in
        let (points, last) = mark_points n center places' (p ∷ before) (count_mark v counts) rest in
        (marked v p ∷ points, last)

    -- `SmartTeleportationFilter.Filter`
    unfoldable pub filter_smart_teleportation : TrackData F → FilterResult F
    filter_smart_teleportation track =
        let points = calculate_track_statistics track.points in
        let (result, c) =
          mark_points (length points) (median_position points) [] [] no_marks points in
        if ltb (length track.points) 3
        then record {
          original_count = length track.points;
          filtered_count = 0;
          points = track.points;
          statistics = no_stats;
        }
        else record {
          original_count = length track.points;
          filtered_count =
              c.teleportations + c.massive_duplicates + c.ping_pong_points + c.speed_violations;
          points = result;
          statistics = record no_stats {
            teleportations = c.teleportations + c.ping_pong_points;
            duplicates = c.massive_duplicates;
            speed_violations = c.speed_violations;
            max_speed_detected = c.max_speed_detected;
            max_distance_jump = c.max_jump;
          };
        }
