-- ===== src/Filter/Levels.antt =====
-- The chain of level 2 of internal/filter/levels.go, which ends with the segmented filter. `order` is the order in
-- which the map of segments is visited, for the points that it was made of.
use flybeeper_com_map_fanet.Prelude.{
  ℕ, ◌≡◌, refl, ap, ◌∙◌, some, List, [], ◌∷◌, length, tally, ltb, arith, if_both, String, Float,
}
use mathlib.Core.List.{Permᴰ}
use flybeeper_com_map_fanet.Models.Points.{GeoPoint}
use flybeeper_com_map_fanet.Filter.Points.{
  TrackPoint, TrackData, FilterResult, FilterConfig, is_filtered,
}
use flybeeper_com_map_fanet.Filter.PreCleanup.{
  clean_from, isolate, is_isolated, calculate_median_center, calculate_cluster_radius,
  filter_pre_cleanup,
}
use flybeeper_com_map_fanet.Filter.TimeGaps.{
  gap_or_default, is_gap, time_gap_segment, filter_time_gaps,
}
use flybeeper_com_map_fanet.Filter.Removal.{length-segment_track}
use flybeeper_com_map_fanet.Filter.Segmented.{filter_segmented}
use flybeeper_com_map_fanet.Filter.Visits.{filter_segmented-order_free}
use flybeeper_com_map_fanet.Filter.Chain.{TrackFilter, apply_filters, filter_chain}

module _ {F : Type 0} ⦃fl : Float F⦄ where
  abbrev pub level2_filter_chain :
      (String → List F → String)
      → FilterConfig F
      → (List (TrackPoint F) → List ℕ)
      → List (TrackFilter F)
  level2_filter_chain sprintf c order =
      (λ track. some (filter_pre_cleanup track))
      ∷ (λ track. some (filter_time_gaps 30 track))
      ∷ (λ track. some (filter_segmented sprintf c track (order track.points)))
      ∷ []

  length-clean_from :
      (center : GeoPoint F) (radius : F) (before rest : List (TrackPoint F))
      → length (clean_from center radius before rest).0 ≡ length rest
  unfolding clean_from
  length-clean_from center radius before [] = refl
  length-clean_from center radius before (p ∷ rest) = omega (
    arith,
    length-clean_from center radius (isolate (is_isolated center radius before p rest) p ∷ before)
        rest,
  )

  length-pre_cleanup :
      (track : TrackData F) → length (filter_pre_cleanup track).points ≡ length track.points
  unfolding filter_pre_cleanup
  length-pre_cleanup track =
      let center = calculate_median_center track.points in
      if_both (λ (r : FilterResult F). length r.points ≡ length track.points)
        (ltb (length track.points) 3) refl
        (length-clean_from center (calculate_cluster_radius track.points center) [] track.points)

  length-time_gaps :
      (gap : ℕ) (track : TrackData F)
      → length (filter_time_gaps gap track).points ≡ length track.points
  unfolding filter_time_gaps
  length-time_gaps gap track =
      length-segment_track (is_gap (gap_or_default gap)) time_gap_segment track.points

  -- The points that the segmented filter of the chain gets.
  abbrev segmented_track : TrackData F → TrackData F
  segmented_track track =
      let cleaned = record track { points = (filter_pre_cleanup track).points } in
      record cleaned { points = (filter_time_gaps 30 cleaned).points }

  length-segmented_track :
      (track : TrackData F) → length (segmented_track track).points ≡ length track.points
  length-segmented_track track =
      length-time_gaps 30 (record track { points = (filter_pre_cleanup track).points })
      ∙ length-pre_cleanup track

  level2_from :
      (sprintf : String → List F → String) (c : FilterConfig F)
      (order order' : List (TrackPoint F) → List ℕ) (track : TrackData F)
      (points : List (TrackPoint F))
      → ((ps : List (TrackPoint F)) → Permᴰ (order ps) (order' ps))
      → track.points ≡ points
      → let r = filter_chain (level2_filter_chain sprintf c order) track in
        let r' = filter_chain (level2_filter_chain sprintf c order') track in
        (r.original_count ≡ length points)
        × (length r.points ≡ length points)
        × (r.filtered_count ≡ tally is_filtered r.points)
        × (r.points ≡ r'.points)
        × (r.filtered_count ≡ r'.filtered_count)
  unfolding filter_chain apply_filters
  level2_from sprintf c order order' track [] perm e = rw e (refl, refl, refl, refl, refl)
  level2_from sprintf c order order' track (p ∷ ps) perm e =
      let track' = record track { points = p ∷ ps } in
      let middle = segmented_track track' in
      let (same, counts, size, marked) =
        filter_segmented-order_free sprintf c middle (order middle.points) (order' middle.points)
          (perm middle.points) in
      rw e (refl, size ∙ length-segmented_track track', refl, same, ap (tally is_filtered) same)

  -- The chain of level 2 answers as many points as the track has, and its count of filtered points is
  -- that of the marked ones. Although the segments stand in a map, which the runtime visits in any
  -- order, the points and the count do not depend on that order.
  pub level2_filter_chain-order_free :
      (sprintf : String → List F → String) (c : FilterConfig F)
      (order order' : List (TrackPoint F) → List ℕ) (track : TrackData F)
      → ((ps : List (TrackPoint F)) → Permᴰ (order ps) (order' ps))
      → let r = filter_chain (level2_filter_chain sprintf c order) track in
        let r' = filter_chain (level2_filter_chain sprintf c order') track in
        (r.original_count ≡ length track.points)
        × (length r.points ≡ length track.points)
        × (r.filtered_count ≡ tally is_filtered r.points)
        × (r.points ≡ r'.points)
        × (r.filtered_count ≡ r'.filtered_count)
  level2_filter_chain-order_free sprintf c order order' track perm =
      level2_from sprintf c order order' track track.points perm refl
