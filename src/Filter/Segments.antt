-- ===== src/Filter/Segments.antt =====
-- What internal/filter/timegap_segmentation_filter.go and internal/filter/segmentation_filter.go share: the same loop cuts
-- the points into segments, with another test between two neighbours and another summary of a segment.
use flybeeper_com_map_fanet.Prelude.{
  ℕ, suc, ◌+◌, sub_ℕ, Bool, true, false, ◌&&◌, not, List, [], ◌∷◌, ◌++◌, length, leb, ltb, keep_if,
  if◌then◌else◌, Float,
}
use flybeeper_com_map_fanet.Filter.Points.{
  TrackPoint, SegmentInfo, stationary, FilterResult, no_stats, number,
}

module _ {F : Type 0} where
  abbrev pub valid_points : List (TrackPoint F) → List (TrackPoint F)
  valid_points points = keep_if (λ p. not p.filtered) points

  -- The time of the last of some points.
  abbrev pub last_time : ℕ → List (TrackPoint F) → ℕ
  last_time t [] = t
  last_time t (p ∷ ps) = last_time p.timestamp ps

  -- `if segment.PointCount > 0`
  abbrev pub kept : SegmentInfo F → List (SegmentInfo F) → List (SegmentInfo F)
  kept segment segments = if ltb 0 segment.point_count then segment ∷ segments else segments

  -- The loop from a point on: `id`, `start` and `current` are the segment being collected.
  unfoldable pub cut_from :
      (TrackPoint F → TrackPoint F → Bool)
      → (List (TrackPoint F) → ℕ → ℕ → SegmentInfo F)
      → ℕ
      → ℕ
      → List (TrackPoint F)
      → TrackPoint F
      → List (TrackPoint F)
      → List (SegmentInfo F)
  cut_from split make id start current prev [] = kept (make current id start) []
  cut_from split make id start current prev (curr ∷ rest) = elim (split prev curr) [
    | true ↦
        kept (make current id start)
          (cut_from split make (id + 1) (start + length current) (curr ∷ []) curr rest)
    | false ↦ cut_from split make id start (current ++ (curr ∷ [])) curr rest
  ]

  -- The numbers that one segment gives, to the points from an index on.
  unfoldable pub mark_from : SegmentInfo F → ℕ → List (TrackPoint F) → List (TrackPoint F)
  mark_from segment i [] = []
  mark_from segment i (p ∷ ps) =
      (record p {
        segment_id =
            if leb segment.start_index i && leb i segment.end_index
            then segment.id
            else p.segment_id;
      })
      ∷ mark_from segment (suc i) ps

  unfoldable pub mark_all : List (SegmentInfo F) → List (TrackPoint F) → List (TrackPoint F)
  mark_all [] points = points
  mark_all (segment ∷ segments) points = mark_all segments (mark_from segment 0 points)

module _ {F : Type 0} ⦃fl : Float F⦄ where
  -- `SegmentInfo{}`
  abbrev pub no_segment : SegmentInfo F
  no_segment = record {
    id = 0;
    type = stationary;
    start_index = 0;
    end_index = 0;
    start_time = 0;
    end_time = 0;
    duration = number 0;
    distance = number 0;
    avg_speed = number 0;
    max_speed = number 0;
    point_count = 0;
    color = "";
  }

  -- `Filter` of both, with the test and the summary.
  unfoldable pub segment_track :
      (TrackPoint F → TrackPoint F → Bool)
      → (List (TrackPoint F) → ℕ → ℕ → SegmentInfo F)
      → List (TrackPoint F)
      → FilterResult F
  segment_track split make [] = record {
    original_count = 0;
    filtered_count = 0;
    points = [];
    statistics = no_stats;
  }
  segment_track split make (p ∷ []) = record {
    original_count = 1;
    filtered_count = 0;
    points = p ∷ [];
    statistics = no_stats;
  }
  segment_track split make (p ∷ q ∷ rest) =
      let segments = cut_from split make 1 0 (p ∷ []) p (q ∷ rest) in
      record {
        original_count = length (p ∷ q ∷ rest);
        filtered_count = 0;
        points = mark_all segments (p ∷ q ∷ rest);
        statistics = record no_stats {
          segments = segments;
          segment_count = length segments;
          segment_breaks = sub_ℕ (length segments) 1;
        };
      }
