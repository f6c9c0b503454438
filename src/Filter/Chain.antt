-- ===== src/Filter/Chain.antt =====
-- `FilterChain` of internal/filter/chain.go with the chains of internal/filter/levels.go that have no segmented part. A
-- filter answers `none` for an error, which the chain passes over.
use flybeeper_com_map_fanet.Prelude.{
  ℕ, ◌+◌, Bool, true, false, Option, none, some, List, [], ◌∷◌, ◌++◌, length, tally, ltb,
  if◌then◌else◌, String, Float,
}
use flybeeper_com_map_fanet.Filter.Points.{
  is_filtered, TrackPoint, TrackData, FilterStats, FilterResult, FilterConfig, no_stats, number,
  above,
}
use flybeeper_com_map_fanet.Filter.Duplicates.{filter_duplicates}
use flybeeper_com_map_fanet.Filter.Speed.{filter_speed}
use flybeeper_com_map_fanet.Filter.Segmentation.{filter_segments}
use flybeeper_com_map_fanet.Filter.Outliers.{filter_outliers}
use flybeeper_com_map_fanet.Filter.Teleports.{filter_smart_teleportation}

-- `TrackFilter`
abbrev pub TrackFilter : Type 0 → Type 0
TrackFilter F = TrackData F → Option (FilterResult F)

module _ {F : Type 0} ⦃fl : Float F⦄ where
  open fl use {add, div}

  abbrev pub larger : F → F → F
  larger x y = if above x y then x else y

  -- The statistics of the chain with those of one more filter.
  unfoldable pub combine_stats : FilterStats F → FilterStats F → FilterStats F
  combine_stats combined s =
      let sums = record combined {
        speed_violations = combined.speed_violations + s.speed_violations;
        duplicates = combined.duplicates + s.duplicates;
        outliers = combined.outliers + s.outliers;
        teleportations = combined.teleportations + s.teleportations;
        max_speed_detected = larger s.max_speed_detected combined.max_speed_detected;
        max_distance_jump = larger s.max_distance_jump combined.max_distance_jump;
      } in
      if ltb 0 s.segment_count
      then record sums {
        segment_count = s.segment_count;
        segment_breaks = s.segment_breaks;
        segments = s.segments;
      }
      else sums

  -- The loop over the filters.
  unfoldable pub apply_filters :
      List (TrackFilter F) → TrackData F → FilterStats F → TrackData F × FilterStats F
  apply_filters [] track stats = (track, stats)
  apply_filters (filter ∷ filters) track stats = elim (filter track) [
    | none ↦ apply_filters filters track stats
    | some r ↦
        apply_filters filters (record track { points = r.points })
          (combine_stats stats r.statistics)
  ]

  -- The sum of the positive speeds, and how many there are.
  unfoldable pub add_speeds : List (TrackPoint F) → F → ℕ → F × ℕ
  add_speeds [] total n = (total, n)
  add_speeds (p ∷ ps) total n =
      if above p.speed (number 0)
      then add_speeds ps (add total p.speed) (n + 1)
      else add_speeds ps total n

  abbrev pub average_speed : List (TrackPoint F) → F → F
  average_speed points old =
      let (total, n) = add_speeds points (number 0) 0 in
      if ltb 1 (length points) then if ltb 0 n then div total (number n) else old else old

  -- `FilterChain.Filter`
  unfoldable pub filter_chain : List (TrackFilter F) → TrackData F → FilterResult F
  filter_chain filters track = elim track.points [
    | [] ↦ record { original_count = 0; filtered_count = 0; points = []; statistics = no_stats }
    | p ∷ ps ↦
        let (last, stats) = apply_filters filters track no_stats in
        record {
          original_count = length (p ∷ ps);
          filtered_count = tally is_filtered last.points;
          points = last.points;
          statistics = record stats { avg_speed = average_speed last.points stats.avg_speed };
        }
  ]

  abbrev pub enabled : Bool → TrackFilter F → List (TrackFilter F)
  enabled true filter = filter ∷ []
  enabled false filter = []

  -- `NewFilterChain`
  abbrev pub new_filter_chain : FilterConfig F → List (TrackFilter F)
  new_filter_chain c =
      enabled c.enable_outlier_filter (λ track. some (filter_outliers c track))
      ++ ((λ track. some (filter_segments track)) ∷ [])
      ++ enabled c.enable_duplicate_filter (λ track. some (filter_duplicates c track.points))
      ++ enabled c.enable_speed_filter (λ track. some (filter_speed c track))

  -- `NewLevel1FilterChain`
  abbrev pub level1_filter_chain :
      (String → List F → String) → FilterConfig F → List (TrackFilter F)
  level1_filter_chain sprintf c =
      (λ track. some (filter_duplicates c track.points))
      ∷ (λ track. some (filter_smart_teleportation sprintf track))
      ∷ []
