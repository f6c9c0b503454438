-- ===== src/Filter/TimeGaps.antt =====
-- `TimeGapSegmentationFilter` of internal/filter/timegap_segmentation_filter.go.
use flybeeper_com_map_fanet.Prelude.{
  ℕ, ◌+◌, ◌-◌, ◌*◌, sub_ℕ, Bool, List, [], ◌∷◌, length, ltb, if◌then◌else◌, ◌==◌, Float,
}
use flybeeper_com_map_fanet.Filter.Points.{
  TrackPoint, TrackData, SegmentInfo, FilterResult, minute, in_units,
}
use flybeeper_com_map_fanet.Filter.Segments.{valid_points, last_time, no_segment, segment_track}

-- The `gapMinutes` that a new filter gets; one of 0 or less is 30.
abbrev pub gap_or_default : ℕ → ℕ
gap_or_default gap_minutes = if gap_minutes == 0 then 30 else gap_minutes

module _ {F : Type 0} ⦃fl : Float F⦄ where
  -- `timeDiff > gapThreshold`
  abbrev pub is_gap : ℕ → TrackPoint F → TrackPoint F → Bool
  is_gap gap_minutes prev curr = ltb (prev.timestamp + gap_minutes * minute) curr.timestamp

  unfoldable pub time_gap_segment : List (TrackPoint F) → ℕ → ℕ → SegmentInfo F
  time_gap_segment points id start_index = elim (valid_points points) [
    | [] ↦ no_segment
    | v ∷ vs ↦
        let end_time = last_time v.timestamp vs in
        record no_segment {
          id = id;
          start_index = start_index;
          end_index = start_index + length points - 1;
          start_time = v.timestamp;
          end_time = end_time;
          point_count = length (v ∷ vs);
          duration = in_units minute (sub_ℕ end_time v.timestamp);
          color = "#999999";
        }
  ]

  unfoldable pub filter_time_gaps : ℕ → TrackData F → FilterResult F
  filter_time_gaps gap_minutes track =
      segment_track (is_gap (gap_or_default gap_minutes)) time_gap_segment track.points
