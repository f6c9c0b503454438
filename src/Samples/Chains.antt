-- ===== src/Samples/Chains.antt =====
-- A track of two flights an hour apart, through the filters and their chains.
use mathlib.Core.List.{Permᴰ}
use flybeeper_com_map_fanet.Prelude.{
  ◌*◌, ℕ, ◌+◌, ◌≤◌, ◌≡◌, refl, List, [], ◌∷◌, map, length, tally, ℤ, arith, String,
}
use flybeeper_com_map_fanet.Samples.Numbers.{whole}
use flybeeper_com_map_fanet.Samples.Tracks.{point}
use flybeeper_com_map_fanet.Filter.Points.{
  TrackPoint, TrackData, default_filter_config, get_max_speed, second, is_filtered,
}
use flybeeper_com_map_fanet.Filter.Duplicates.{IsWithin}
use flybeeper_com_map_fanet.Filter.Speed.{AreAllSlow, filter_speed, filter_speed-slows}
use flybeeper_com_map_fanet.Filter.TimeGaps.{is_gap, filter_time_gaps, time_gap_segment}
use flybeeper_com_map_fanet.Filter.Segments.{segment_track, cut_from, mark_all, mark_from}
use flybeeper_com_map_fanet.Filter.Segmentation.{should_split, filter_segments}
use flybeeper_com_map_fanet.Filter.Labels.{AreAllNumbered}
use flybeeper_com_map_fanet.Filter.Numbering.{segmentations-number}
use flybeeper_com_map_fanet.Filter.Teleports.{filter_smart_teleportation}
use flybeeper_com_map_fanet.Filter.Marking.{AreAllCalm, filter_smart_teleportation-marks}
use flybeeper_com_map_fanet.Filter.Chain.{filter_chain, new_filter_chain}
use flybeeper_com_map_fanet.Filter.Removal.{removed}
use flybeeper_com_map_fanet.Filter.Chains.{new_filter_chain-removes}
use flybeeper_com_map_fanet.Filter.Levels.{level2_filter_chain, level2_filter_chain-order_free}

abbrev flights : TrackData ℤ
flights = record {
  device_id = "ABC123";
  aircraft_type = 1;
  points =
      point 0 0
      ∷ point 1 (600 * second)
      ∷ point 80 (601 * second)
      ∷ point 2 (4200 * second)
      ∷ point 3 (4800 * second)
      ∷ [];
}

-- No text but the format's.
abbrev format : String → List ℤ → String
format text numbers = text

abbrev ids : List (TrackPoint ℤ) → List ℕ
ids points = map (λ p. p.segment_id) points

two_segments : ids (filter_time_gaps 30 flights).points ≡ 1 ∷ 1 ∷ 1 ∷ 2 ∷ 2 ∷ []
unfolding filter_time_gaps segment_track cut_from mark_all mark_from time_gap_segment
two_segments = refl

filter_speed-slows_example :
    let r = filter_speed default_filter_config flights in
    (r.original_count ≡ 5)
    × (length r.points + r.statistics.speed_violations ≡ 5)
    × (r.filtered_count ≡ r.statistics.speed_violations)
    × IsWithin r.points flights.points
    × AreAllSlow (get_max_speed default_filter_config 1) r.points
filter_speed-slows_example = filter_speed-slows default_filter_config flights

segmentations-number_example :
    AreAllNumbered (is_gap 30) flights.points (filter_time_gaps 30 flights).points
    × AreAllNumbered should_split flights.points (filter_segments flights).points
segmentations-number_example = segmentations-number 30 flights (omega arith)

filter_smart_teleportation-marks_example :
    let r = filter_smart_teleportation format flights in
    (r.original_count ≡ 5)
    × (length r.points ≡ 5)
    × IsWithin r.points flights.points
    × (r.statistics.teleportations + r.statistics.duplicates + r.statistics.speed_violations
        ≡ r.filtered_count)
    × (r.filtered_count ≤ tally is_filtered r.points)
    × (tally is_filtered r.points ≤ r.filtered_count + 0)
    × AreAllCalm r.points
filter_smart_teleportation-marks_example =
    filter_smart_teleportation-marks format flights (omega arith)

new_filter_chain-removes_example :
    let r = filter_chain (new_filter_chain default_filter_config) flights in
    (r.original_count ≡ 5)
    × IsWithin r.points flights.points
    × (length r.points + removed r.statistics ≡ 5)
    × (r.filtered_count ≡ tally is_filtered r.points)
    × (r.filtered_count ≤ 0)
new_filter_chain-removes_example = new_filter_chain-removes default_filter_config flights

abbrev one_two : List (TrackPoint ℤ) → List ℕ
one_two points = 1 ∷ 2 ∷ []

abbrev two_one : List (TrackPoint ℤ) → List ℕ
two_one points = 2 ∷ 1 ∷ []

level2_filter_chain-order_free_example :
    let r = filter_chain (level2_filter_chain format default_filter_config one_two) flights in
    let r' = filter_chain (level2_filter_chain format default_filter_config two_one) flights in
    (r.original_count ≡ 5)
    × (length r.points ≡ 5)
    × (r.filtered_count ≡ tally is_filtered r.points)
    × (r.points ≡ r'.points)
    × (r.filtered_count ≡ r'.filtered_count)
level2_filter_chain-order_free_example =
    level2_filter_chain-order_free format default_filter_config one_two two_one flights
      (λ points. Permᴰ.swap refl refl)
