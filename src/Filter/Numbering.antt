-- ===== src/Filter/Numbering.antt =====
-- The segment numbers that internal/filter/timegap_segmentation_filter.go and
-- internal/filter/segmentation_filter.go give to the points.
use flybeeper_com_map_fanet.Prelude.{
  ℕ, suc, ◌+◌, ◌≤◌, ◌<◌, ◌≡◌, refl, sym, ap, subst, ◌∙◌, Bool, true, false, ◌||◌, not, List, [],
  ◌∷◌, ◌++◌, length, length-append, keep_if-append, ltb, ◌==◌, arith, if◌then◌else◌, if_both,
  Bool-cases, inl, inr, Float,
}
use flybeeper_com_map_fanet.Filter.Points.{TrackPoint, TrackData, SegmentInfo}
use flybeeper_com_map_fanet.Filter.Segments.{valid_points, kept, cut_from, segment_track}
use flybeeper_com_map_fanet.Filter.TimeGaps.{
  gap_or_default, is_gap, time_gap_segment, filter_time_gaps,
}
use flybeeper_com_map_fanet.Filter.Segmentation.{should_split, full_segment, filter_segments}
use flybeeper_com_map_fanet.Filter.Labels.{
  AreNumbered, AreAllNumbered, Describes, number_at, relabel, mark_all-relabel,
}

module _ {F : Type 0} (split : TrackPoint F → TrackPoint F → Bool)
    (make : List (TrackPoint F) → ℕ → ℕ → SegmentInfo F)
    (describes : (current : List (TrackPoint F)) (id start : ℕ)
      → Describes current id start (make current id start)) where
  -- The valid ones of the points from an index on have the numbers that they should.
  abbrev AreRight : ℕ → TrackPoint F → List (TrackPoint F) → ℕ → List (SegmentInfo F) → Type 0
  AreRight n prev [] i ss = Unit
  AreRight n prev (p ∷ ps) i ss =
      let n' = if split prev p then n + 1 else n in
      (p.filtered ≡ false → (old : ℕ) → number_at i old ss ≡ n') × AreRight n' p ps (suc i) ss

  AreRight-kept :
      (n : ℕ) (prev : TrackPoint F) (ps : List (TrackPoint F)) (i : ℕ) (s : SegmentInfo F)
      (ss : List (SegmentInfo F))
      → AreRight n prev ps i ss
      → AreRight n prev ps i (kept s ss)
  AreRight-kept n prev [] i s ss h = tt
  AreRight-kept n prev (p ∷ ps) i s ss (here, later) = (
    λ valid old.
        if_both
          (λ (x : List (SegmentInfo F)). number_at i old x ≡ (if split prev p then n + 1 else n))
          (ltb 0 s.point_count) (here valid _) (here valid old),
    AreRight-kept (if split prev p then n + 1 else n) p ps (suc i) s ss later,
  )

  -- The segments of the loop leave the indices before them, number the valid points collected, and
  -- those that follow.
  record Numbers (id start : ℕ) (current : List (TrackPoint F)) (prev : TrackPoint F)
      (rest : List (TrackPoint F)) (ss : List (SegmentInfo F)) : Type 0 where
    before : (i old : ℕ) → i < start → number_at i old ss ≡ old
    here :
        (i old : ℕ)
        → 1 ≤ length (valid_points current)
        → start ≤ i
        → i < start + length current
        → number_at i old ss ≡ id
    later : AreRight id prev rest (start + length current) ss

  kept-number_at :
      (id start : ℕ) (current : List (TrackPoint F)) (s : SegmentInfo F) (ss : List (SegmentInfo F))
      (i old : ℕ)
      → Describes current id start s
      → 1 ≤ length (valid_points current)
      → start ≤ i
      → i < start + length current
      → ((old : ℕ) → number_at i old ss ≡ old)
      → number_at i old (kept s ss) ≡ id
  kept-number_at id start current s ss i old d v lo hi same =
      ground (arith, d.counts, d.named, d.starts, d.ends, same s.id, same old)

  kept-before :
      (id start : ℕ) (current : List (TrackPoint F)) (s : SegmentInfo F) (ss : List (SegmentInfo F))
      (i old : ℕ)
      → Describes current id start s
      → i < start
      → ((old : ℕ) → number_at i old ss ≡ old)
      → number_at i old (kept s ss) ≡ old
  kept-before id start current s ss i old d lt same =
      ground (arith, d.counts, d.named, d.starts, d.ends, same s.id, same old)

  one_valid : (p : TrackPoint F) → p.filtered ≡ false → 1 ≤ length (valid_points (p ∷ []))
  one_valid p e = ground arith

  valid-append :
      (current : List (TrackPoint F)) (p : TrackPoint F)
      → length (valid_points (current ++ (p ∷ [])))
        ≡ length (valid_points current) + length (valid_points (p ∷ []))
  valid-append current p =
      ap length (keep_if-append (λ q. not q.filtered) current (p ∷ []))
      ∙ length-append (valid_points current) (valid_points (p ∷ []))

  cut_from-Numbers :
      (id start : ℕ) (current : List (TrackPoint F)) (prev : TrackPoint F)
      (rest : List (TrackPoint F))
      → Numbers id start current prev rest (cut_from split make id start current prev rest)
  unfolding cut_from
  cut_from-Numbers id start current prev [] =
      let d = describes current id start in
      record {
        before = λ i old lt. kept-before id start current _ [] i old d lt (λ o. refl);
        here = λ i old v lo hi. kept-number_at id start current _ [] i old d v lo hi (λ o. refl);
        later = tt;
      }
  cut_from-Numbers id start current prev (curr ∷ rest) =
      let next = start + length current in
      elim (Bool-cases (split prev curr)) [
        | inl e ↦
            let d = describes current id start in
            let ss = cut_from split make (id + 1) next (curr ∷ []) curr rest in
            let r = cut_from-Numbers (id + 1) next (curr ∷ []) curr rest in
            let right : AreRight id prev (curr ∷ rest) next ss = rw e (
              λ valid old. r.here next old (one_valid curr valid) (omega arith) (omega arith),
              subst (λ i. AreRight (id + 1) curr rest i ss) (omega arith) r.later,
            ) in
            rw (e, cut_from)
              (record {
                before = λ i old lt.
                    kept-before id start current _ ss i old d lt (λ o. r.before i o (omega arith));
                here = λ i old v lo hi.
                    kept-number_at id start current _ ss i old d v lo hi (λ o. r.before i o hi);
                later = AreRight-kept id prev (curr ∷ rest) next _ ss right;
              })
        | inr e ↦
            let more = current ++ (curr ∷ []) in
            let ss = cut_from split make id start more curr rest in
            let r = cut_from-Numbers id start more curr rest in
            let longer : length more ≡ length current + 1 = length-append current (curr ∷ []) in
            rw (e, cut_from)
              (record {
                before = r.before;
                here = λ i old v lo hi.
                    r.here i old (omega (arith, valid-append current curr)) lo
                      (omega (arith, longer));
                later = rw e (
                  λ valid old.
                      r.here next old
                        (omega (arith, valid-append current curr, one_valid curr valid))
                        (omega arith) (omega (arith, longer)),
                  subst (λ i. AreRight id curr rest i ss) (omega (arith, longer)) r.later,
                );
              })
      ]

  is_number : (n m : ℕ) (b : Bool) → (b ≡ false → n ≡ m) → (b || n == m) ≡ true
  is_number n m true h = refl
  is_number n m false h = ground (arith, h refl)

  relabel-AreNumbered :
      (n : ℕ) (prev : TrackPoint F) (ps : List (TrackPoint F)) (i : ℕ) (ss : List (SegmentInfo F))
      → AreRight n prev ps i ss
      → AreNumbered split n prev ps (relabel ss i ps)
  relabel-AreNumbered n prev [] i ss h = tt
  relabel-AreNumbered n prev (p ∷ ps) i ss (here, later) =
      let n' = if split prev p then n + 1 else n in
      (
        refl,
        is_number _ n' p.filtered (λ v. here v p.segment_id),
        relabel-AreNumbered n' p ps (suc i) ss later,
      )

  segment_track-AreAllNumbered :
      ⦃fl : Float F⦄ (points : List (TrackPoint F))
      → 2 ≤ length points
      → AreAllNumbered split points (segment_track split make points).points
  unfolding segment_track
  segment_track-AreAllNumbered [] h = absurd (omega arith)
  segment_track-AreAllNumbered (p ∷ []) h = absurd (omega arith)
  segment_track-AreAllNumbered (p ∷ q ∷ rest) h =
      let ss = cut_from split make 1 0 (p ∷ []) p (q ∷ rest) in
      let r = cut_from-Numbers 1 0 (p ∷ []) p (q ∷ rest) in
      subst (AreAllNumbered split (p ∷ q ∷ rest)) (sym (mark_all-relabel ss (p ∷ q ∷ rest))) (
        refl,
        is_number _ 1 p.filtered
            (λ v. r.here 0 p.segment_id (one_valid p v) (omega arith) (omega arith)),
        relabel-AreNumbered 1 p (q ∷ rest) 1 ss r.later,
      )

module _ {F : Type 0} ⦃fl : Float F⦄ where
  time_gap_segment-Describes :
      (current : List (TrackPoint F)) (id start : ℕ)
      → Describes current id start (time_gap_segment current id start)
  unfolding time_gap_segment
  time_gap_segment-Describes current id start = ground arith

  full_segment-Describes :
      (current : List (TrackPoint F)) (id start : ℕ)
      → Describes current id start (full_segment current id start)
  unfolding full_segment
  full_segment-Describes current id start = ground arith

  -- On a track of at least two points both segmentation filters leave all points in order, with
  -- nothing of them changed but the segment, and every point that is not marked as filtered gets as
  -- its segment one more than the number of splits before it: for one of them the gaps in time, also
  -- at filtered points, for the other the gaps and jumps between points that are not filtered.
  pub segmentations-number :
      (gap_minutes : ℕ) (track : TrackData F)
      → 2 ≤ length track.points
      → AreAllNumbered
          (is_gap (gap_or_default gap_minutes))
          track.points
          (filter_time_gaps gap_minutes track).points
        × AreAllNumbered should_split track.points (filter_segments track).points
  unfolding filter_time_gaps filter_segments
  segmentations-number gap_minutes track h = (
    segment_track-AreAllNumbered (is_gap (gap_or_default gap_minutes)) time_gap_segment
        time_gap_segment-Describes track.points h,
    segment_track-AreAllNumbered should_split full_segment full_segment-Describes track.points h,
  )
