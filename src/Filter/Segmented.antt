-- ===== src/Filter/Segmented.antt =====
-- `SegmentedFilterChain` of internal/filter/segmented_filter_chain.go, which filters every segment by the chain of level
-- 1. A Go map is visited in any order: `order` is the one of the segments' numbers.
use flybeeper_com_map_fanet.Prelude.{
  ◌++◌, ℕ, suc, ◌+◌, sub_ℕ, true, false, not, Option, none, some, List, [], ◌∷◌, map, length, tally,
  keep_if, get_elem?, ltb, if◌then◌else◌, ◌==◌, String, Float,
}
use flybeeper_com_map_fanet.Filter.Points.{
  TrackPoint, TrackData, SegmentInfo, FilterStats, FilterResult, FilterConfig, no_stats, number,
  above, is_filtered, in_units, hour, minute,
}
use flybeeper_com_map_fanet.Filter.Speed.{distance_between}
use flybeeper_com_map_fanet.Filter.Segments.{no_segment}
use flybeeper_com_map_fanet.Filter.Segmentation.{generate_color_by_speed}
use flybeeper_com_map_fanet.Filter.Chain.{larger, add_speeds, filter_chain, level1_filter_chain}

-- The number of a point's segment; 0 stands for 1.
abbrev pub group_id : {F : Type 0} → TrackPoint F → ℕ
group_id p = if p.segment_id == 0 then 1 else p.segment_id

-- `segmentMap[id]`, from an index on.
unfoldable pub indices_of : {F : Type 0} → ℕ → ℕ → List (TrackPoint F) → List ℕ
indices_of id i [] = []
indices_of id i (p ∷ ps) =
    if group_id p == id then i ∷ indices_of id (suc i) ps else indices_of id (suc i) ps

-- What the loops over the points of one segment gather.
pub record Span (F : Type 0) : Type 0 where
  pub start_time : Option ℕ
  pub end_time : Option ℕ
  pub total_distance : F
  pub segment_speed : F
  pub speed_count : ℕ

-- What the loop over the segments changes.
pub record Progress (F : Type 0) : Type 0 where
  pub points : List (TrackPoint F)
  pub stats : FilterStats F
  pub segments : List (SegmentInfo F)

abbrev earlier : Option ℕ → ℕ → ℕ
earlier none t = t
earlier (some s) t = if ltb t s then t else s

abbrev later : Option ℕ → ℕ → ℕ
later none t = t
later (some s) t = if ltb s t then t else s

abbrev time_of : Option ℕ → ℕ
time_of none = 0
time_of (some t) = t

abbrev last_index : ℕ → List ℕ → ℕ
last_index i [] = i
last_index i (j ∷ js) = last_index j js

-- One write per point of a segment, by its place in the segment: the points before the writes come
-- first, since they say which segment a point is in.
unfoldable pub write_group :
    {F : Type 0}
    → ℕ
    → (ℕ → TrackPoint F → TrackPoint F)
    → ℕ
    → List (TrackPoint F)
    → List (TrackPoint F)
    → List (TrackPoint F)
write_group id write k [] results = results
write_group id write k (p ∷ ps) [] = []
write_group id write k (p ∷ ps) (r ∷ rs) = elim (group_id p == id) [
  | true ↦ write k r ∷ write_group id write (suc k) ps rs
  | false ↦ r ∷ write_group id write k ps rs
]

module _ {F : Type 0} ⦃fl : Float F⦄ where
  open fl use {add, div}

  -- `resultPoints[originalIdx] = segmentResult.Points[i]`, while there is one.
  abbrev pub write_result : ℕ → List (TrackPoint F) → ℕ → TrackPoint F → TrackPoint F
  write_result id news k r = elim (get_elem? news k) [
    | none ↦ r
    | some p ↦ record p { segment_id = id }
  ]

  abbrev pub write_isolated : ℕ → TrackPoint F → TrackPoint F
  write_isolated k r = record r { filtered = true; filter_reason = "Isolated segment point" }

  -- The distance from the point before, where that is not filtered.
  abbrev step_distance : Option (TrackPoint F) → TrackPoint F → F → F
  step_distance none p total = total
  step_distance (some q) p total = if q.filtered then total else add total (distance_between q p)

  unfoldable pub span_from : Option (TrackPoint F) → List (TrackPoint F) → Span F → Span F
  span_from prev [] s = s
  span_from prev (p ∷ ps) s =
      let fast = above p.speed (number 0) in
      span_from (some p) ps (
        if p.filtered then s else record {
          start_time = some (earlier s.start_time p.timestamp);
          end_time = some (later s.end_time p.timestamp);
          total_distance = step_distance prev p s.total_distance;
          segment_speed = if fast then add s.segment_speed p.speed else s.segment_speed;
          speed_count = if fast then s.speed_count + 1 else s.speed_count;
        })

  abbrev no_span : Span F
  no_span = record {
    start_time = none;
    end_time = none;
    total_distance = number 0;
    segment_speed = number 0;
    speed_count = 0;
  }

  -- The summary of a segment whose first index is given.
  unfoldable pub segment_info : ℕ → ℕ → List ℕ → List (TrackPoint F) → SegmentInfo F
  segment_info id first others points =
      let s = span_from none points no_span in
      let lasted = sub_ℕ (time_of s.end_time) (time_of s.start_time) in
      let hours = in_units hour lasted in
      let avg_speed =
        if ltb 0 s.speed_count
        then div s.segment_speed (number s.speed_count)
        else if above hours (number 0)
        then div s.total_distance hours
        else number 0 in
      record no_segment {
        id = id;
        start_index = first;
        end_index = last_index first others;
        start_time = time_of s.start_time;
        end_time = time_of s.end_time;
        duration = in_units minute lasted;
        distance = s.total_distance;
        avg_speed = avg_speed;
        point_count = tally (λ p. not p.filtered) points;
        color = generate_color_by_speed avg_speed;
      }

  abbrev numbered : ℕ → TrackPoint F → TrackPoint F
  numbered id p = record p { segment_id = id }

  abbrev pub hidden : TrackPoint F → TrackPoint F
  hidden p = record p { filtered = true }

  -- The points of one segment, with its number.
  abbrev pub segment_points : ℕ → List (TrackPoint F) → List (TrackPoint F)
  segment_points id points = map (numbered id) (keep_if (λ p. group_id p == id) points)

  module _ (sprintf : String → List F → String) (c : FilterConfig F) (track : TrackData F) where
    -- The chain of level 1 on the points of one segment.
    unfoldable pub segment_result : ℕ → FilterResult F
    segment_result id =
        filter_chain (level1_filter_chain sprintf c)
          (record track { points = segment_points id track.points })

    abbrev pub writes_of : ℕ → ℕ → TrackPoint F → TrackPoint F
    writes_of id =
        if ltb (length (indices_of id 0 track.points)) 2
        then write_isolated
        else write_result id (segment_result id).points

    abbrev add_stats : FilterStats F → FilterStats F → FilterStats F
    add_stats combined s = record combined {
      speed_violations = combined.speed_violations + s.speed_violations;
      duplicates = combined.duplicates + s.duplicates;
      outliers = combined.outliers + s.outliers;
      teleportations = combined.teleportations + s.teleportations;
      max_speed_detected = larger s.max_speed_detected combined.max_speed_detected;
      max_distance_jump = larger s.max_distance_jump combined.max_distance_jump;
    }

    -- The statistics and segments after one segment; one of fewer than two points has none.
    unfoldable pub gather :
        ℕ → List ℕ → FilterStats F → List (SegmentInfo F) → FilterStats F × List (SegmentInfo F)
    gather id [] stats segments = (stats, segments)
    gather id (i ∷ []) stats segments = (stats, segments)
    gather id (i ∷ j ∷ js) stats segments =
        let r = segment_result id in
        (
          add_stats stats r.statistics,
          (if ltb 1 (tally (λ p. not p.filtered) r.points)
              then segments ++ (segment_info id i (j ∷ js) r.points ∷ [])
              else segments),
        )

    -- One round of the loop over the segments.
    unfoldable pub filter_group : ℕ → Progress F → Progress F
    filter_group id g =
        let (stats, segments) = gather id (indices_of id 0 track.points) g.stats g.segments in
        record {
          points = write_group id (writes_of id) 0 track.points g.points;
          stats = stats;
          segments = segments;
        }

    unfoldable pub filter_groups : List ℕ → Progress F → Progress F
    filter_groups [] g = g
    filter_groups (id ∷ ids) g = filter_groups ids (filter_group id g)

    -- All points are marked as filtered at first.
    abbrev pub all_marked : Progress F
    all_marked = record { points = map hidden track.points; stats = no_stats; segments = [] }

    abbrev final_speed : List (TrackPoint F) → F
    final_speed points =
        let (total, n) = add_speeds (keep_if (λ p. not p.filtered) points) (number 0) 0 in
        if ltb 0 n then div total (number n) else number 0

    -- `Filter`; `order` has the number of every segment once.
    unfoldable pub filter_segmented : List ℕ → FilterResult F
    filter_segmented order = elim track.points [
      | [] ↦ record { original_count = 0; filtered_count = 0; points = []; statistics = no_stats }
      | p ∷ ps ↦
          let g = filter_groups order all_marked in
          record {
            original_count = length (p ∷ ps);
            filtered_count = tally is_filtered g.points;
            points = g.points;
            statistics = record g.stats {
              avg_speed = final_speed g.points;
              segments = g.segments;
              segment_count = length order;
              segment_breaks = sub_ℕ (length order) 1;
            };
          }
    ]
