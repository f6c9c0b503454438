-- ===== src/Filter/Chains.antt =====
-- What the chains of internal/filter/chain.go and internal/filter/levels.go leave of a track.
use flybeeper_com_map_fanet.Prelude.{
  ◌+◌, ◌≤◌, ◌≡◌, refl, subst, Bool, true, false, none, some, List, [], ◌∷◌, ◌++◌, length, tally,
  All, All-append, arith, Option-cases, inl, inr, Float,
}
use flybeeper_com_map_fanet.Filter.Points.{
  TrackPoint, TrackData, FilterStats, FilterConfig, no_stats, is_filtered,
}
use flybeeper_com_map_fanet.Filter.Duplicates.{IsWithin, done, filter_duplicates}
use flybeeper_com_map_fanet.Filter.Order.{IsWithin-refl, IsWithin-trans}
use flybeeper_com_map_fanet.Filter.Speed.{filter_speed}
use flybeeper_com_map_fanet.Filter.Segmentation.{filter_segments}
use flybeeper_com_map_fanet.Filter.Outliers.{filter_outliers}
use flybeeper_com_map_fanet.Filter.Segmentation.{should_split, full_segment}
use flybeeper_com_map_fanet.Filter.Chain.{
  TrackFilter, combine_stats, apply_filters, filter_chain, enabled, new_filter_chain,
}
use flybeeper_com_map_fanet.Filter.Removal.{
  removed, Removes, duplicates-Removes, segments-Removes, speed-Removes, outliers-Removes,
}

module _ {F : Type 0} ⦃fl : Float F⦄ where
  abbrev IsRemover : TrackFilter F → Type 0
  IsRemover filter =
      (track : TrackData F)
      → elim (filter track) [ none ↦ Unit | some r ↦ Removes track.points r.points r.statistics ]

  combine_stats-removed :
      (stats s : FilterStats F) → removed (combine_stats stats s) ≡ removed stats + removed s
  unfolding combine_stats
  combine_stats-removed stats s = ground arith

  apply_filters-Removes :
      (filters : List (TrackFilter F)) (track : TrackData F) (stats : FilterStats F)
      → All IsRemover filters
      → let (last, total) = apply_filters filters track stats in
        IsWithin last.points track.points
        × (length last.points + removed total ≡ length track.points + removed stats)
        × (tally is_filtered last.points ≤ tally is_filtered track.points)
  unfolding apply_filters
  apply_filters-Removes [] track stats h = (IsWithin-refl track.points, refl, omega arith)
  apply_filters-Removes (filter ∷ filters) track stats (here, later) =
      elim (Option-cases (filter track)) [
        | inl e ↦ rw (e, apply_filters) (apply_filters-Removes filters track stats later)
        | inr (r, e) ↦
            let s = combine_stats stats r.statistics in
            let (within, count, marks) : Removes track.points r.points r.statistics =
              subst
                (λ o. elim o [ none ↦ Unit | some r ↦ Removes track.points r.points r.statistics ])
                e (here track) in
            let (within2, count2, marks2) =
              apply_filters-Removes filters (record track { points = r.points }) s later in
            rw (e, apply_filters)
              (
                IsWithin-trans within2 within,
                omega (arith, count, count2, combine_stats-removed stats r.statistics),
                omega (arith, marks, marks2),
              )
      ]

  enabled-Removes :
      (b : Bool) (filter : TrackFilter F) → IsRemover filter → All IsRemover (enabled b filter)
  enabled-Removes true filter h = (h, tt)
  enabled-Removes false filter h = tt

  append-Removes :
      (xs : List (TrackFilter F)) (f : TrackFilter F) (ys zs : List (TrackFilter F))
      → All IsRemover xs
      → IsRemover f
      → All IsRemover ys
      → All IsRemover zs
      → All IsRemover (xs ++ (f ∷ []) ++ ys ++ zs)
  append-Removes xs f ys zs ha hb hc hd =
      let start : List (TrackFilter F) = xs ++ (f ∷ []) in
      All-append IsRemover (start ++ ys) zs
        (All-append IsRemover start ys (All-append IsRemover xs (f ∷ []) ha (hb, tt)) hc) hd

  new_filter_chain-Removes : (c : FilterConfig F) → All IsRemover (new_filter_chain c)
  new_filter_chain-Removes c =
      let outlier : TrackFilter F = λ track. some (filter_outliers c track) in
      let segment : TrackFilter F = λ track. some (filter_segments track) in
      let duplicate : TrackFilter F = λ track. some (filter_duplicates c track.points) in
      let speed : TrackFilter F = λ track. some (filter_speed c track) in
      append-Removes (enabled c.enable_outlier_filter outlier) segment
        (enabled c.enable_duplicate_filter duplicate) (enabled c.enable_speed_filter speed)
        (enabled-Removes c.enable_outlier_filter outlier (outliers-Removes c))
        (unfold filter_segments in λ track. segments-Removes should_split full_segment track.points)
        (enabled-Removes c.enable_duplicate_filter duplicate
          (λ track. duplicates-Removes c track.points))
        (enabled-Removes c.enable_speed_filter speed
          (λ track. speed-Removes c track track.points refl))

  chain_from :
      (filters : List (TrackFilter F)) (track : TrackData F) (points : List (TrackPoint F))
      → track.points ≡ points
      → All IsRemover filters
      → let r = filter_chain filters track in
        (r.original_count ≡ length points)
        × (r.filtered_count ≡ tally is_filtered r.points)
        × Removes points r.points r.statistics
  unfolding filter_chain
  chain_from filters track [] e h = rw e (refl, refl, (done, refl, omega arith))
  chain_from filters track (p ∷ ps) e h =
      let (within, count, marks) =
        apply_filters-Removes filters (record track { points = p ∷ ps }) no_stats h in
      rw e (refl, refl, (within, omega (arith, count), marks))

  -- The default chain, with whatever filters the configuration enables, leaves a subsequence of the
  -- track by positions, and its outliers, duplicates and speed violations are together exactly the
  -- points that are missing. It marks none of those left, so that the count of filtered points, which
  -- is that of the marks, is at most the number of points that came marked: 0 on a fresh track,
  -- however many points were removed.
  pub new_filter_chain-removes :
      (c : FilterConfig F) (track : TrackData F)
      → let r = filter_chain (new_filter_chain c) track in
        (r.original_count ≡ length track.points)
        × IsWithin r.points track.points
        × (length r.points + removed r.statistics ≡ length track.points)
        × (r.filtered_count ≡ tally is_filtered r.points)
        × (r.filtered_count ≤ tally is_filtered track.points)
  new_filter_chain-removes c track =
      let (all, marked, (within, count, marks)) =
        chain_from (new_filter_chain c) track track.points refl (new_filter_chain-Removes c) in
      (all, within, count, marked, omega (arith, marked, marks))
