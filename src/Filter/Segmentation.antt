-- ===== src/Filter/Segmentation.antt =====
-- `SegmentationFilter` of internal/filter/segmentation_filter.go.
use flybeeper_com_map_fanet.Prelude.{
  ℕ, ◌+◌, ◌-◌, ◌*◌, sub_ℕ, Bool, ◌&&◌, ◌||◌, not, List, [], ◌∷◌, length, ltb, if◌then◌else◌, String,
  Float,
}
use flybeeper_com_map_fanet.Filter.Points.{
  TrackPoint, TrackData, SegmentInfo, SegmentType, stationary, hike, flight, FilterResult, minute,
  in_units, number, above,
}
use flybeeper_com_map_fanet.Filter.Segments.{valid_points, last_time, no_segment, segment_track}
use flybeeper_com_map_fanet.Filter.Speed.{distance_between, hours_between}

module _ {F : Type 0} ⦃fl : Float F⦄ where
  open fl use {add, div, lt}

  -- More than five minutes, or more than 10 km at more than 600 km/h; never at a filtered point.
  unfoldable pub should_split : TrackPoint F → TrackPoint F → Bool
  should_split prev curr =
      not (curr.filtered || prev.filtered)
      && (ltb (prev.timestamp + 5 * minute) curr.timestamp
          || (ltb prev.timestamp curr.timestamp
              && above (distance_between prev curr) (number 10)
              && above (div (distance_between prev curr) (hours_between prev curr)) (number 600)))

  unfoldable pub total_distance : F → TrackPoint F → List (TrackPoint F) → F
  total_distance sum prev [] = sum
  total_distance sum prev (p ∷ ps) = total_distance (add sum (distance_between prev p)) p ps

  unfoldable pub top_speed : F → TrackPoint F → List (TrackPoint F) → F
  top_speed max prev [] = max
  top_speed max prev (p ∷ ps) =
      let h = hours_between prev p in
      let speed = div (distance_between prev p) h in
      top_speed (if above h (number 0) && above speed max then speed else max) p ps

  unfoldable pub classify_segment : F → SegmentType
  classify_segment avg_speed =
      if lt avg_speed (number 5)
      then stationary
      else if lt avg_speed (number 15)
      then hike
      else flight

  unfoldable pub generate_color_by_speed : F → String
  generate_color_by_speed avg_speed =
      if lt avg_speed (number 3)
      then "#2F2F2F"
      else if lt avg_speed (number 8)
      then "#1E3A8A"
      else if lt avg_speed (number 20)
      then "#0EA5E9"
      else if lt avg_speed (number 40)
      then "#16A34A"
      else if lt avg_speed (number 80)
      then "#84CC16"
      else if lt avg_speed (number 150)
      then "#EAB308"
      else if lt avg_speed (number 250)
      then "#F97316"
      else "#DC2626"

  -- `createSegmentInfo`
  unfoldable pub full_segment : List (TrackPoint F) → ℕ → ℕ → SegmentInfo F
  full_segment points id start_index = elim (valid_points points) [
    | [] ↦ no_segment
    | v ∷ vs ↦
        let end_time = last_time v.timestamp vs in
        let duration = in_units minute (sub_ℕ end_time v.timestamp) in
        let distance = total_distance (number 0) v vs in
        let avg_speed =
          if above duration (number 0) then div distance (div duration (number 60)) else number 0 in
        record {
          id = id;
          type = classify_segment avg_speed;
          start_index = start_index;
          end_index = start_index + length points - 1;
          start_time = v.timestamp;
          end_time = end_time;
          duration = duration;
          distance = distance;
          avg_speed = avg_speed;
          max_speed = top_speed (number 0) v vs;
          point_count = length (v ∷ vs);
          color = generate_color_by_speed avg_speed;
        }
  ]

  unfoldable pub filter_segments : TrackData F → FilterResult F
  filter_segments track = segment_track should_split full_segment track.points
