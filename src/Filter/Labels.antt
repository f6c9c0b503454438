-- ===== src/Filter/Labels.antt =====
-- The numbers of the segments of internal/filter/segmentation_filter.go, as they stand at the points, and
-- what a segment says of its points.
use flybeeper_com_map_fanet.Prelude.{
  ℕ, suc, ◌+◌, ◌-◌, ◌≤◌, ◌≡◌, refl, ap, ◌∙◌, Bool, true, ◌&&◌, ◌||◌, List, [], ◌∷◌, length, leb,
  ◌==◌, if◌then◌else◌,
}
use flybeeper_com_map_fanet.Filter.Points.{TrackPoint, SegmentInfo}
use flybeeper_com_map_fanet.Filter.Segments.{valid_points, mark_from, mark_all}

module _ {F : Type 0} where
  -- What is left of a point but for its segment, and the number of splits up to it, where it is valid.
  abbrev pub AreNumbered :
      (TrackPoint F → TrackPoint F → Bool)
      → ℕ
      → TrackPoint F
      → List (TrackPoint F)
      → List (TrackPoint F)
      → Type 0
  AreNumbered split n prev [] [] = Unit
  AreNumbered split n prev [] (q ∷ qs) = ⊥
  AreNumbered split n prev (p ∷ ps) [] = ⊥
  AreNumbered split n prev (p ∷ ps) (q ∷ qs) =
      let n' = if split prev p then n + 1 else n in
      (record p { segment_id = q.segment_id } ≡ q)
      × ((p.filtered || q.segment_id == n') ≡ true)
      × AreNumbered split n' p ps qs

  -- From the first point on, whose segment is 1.
  abbrev pub AreAllNumbered :
      (TrackPoint F → TrackPoint F → Bool) → List (TrackPoint F) → List (TrackPoint F) → Type 0
  AreAllNumbered split [] [] = Unit
  AreAllNumbered split [] (q ∷ qs) = ⊥
  AreAllNumbered split (p ∷ ps) [] = ⊥
  AreAllNumbered split (p ∷ ps) (q ∷ qs) =
      (record p { segment_id = q.segment_id } ≡ q)
      × ((p.filtered || q.segment_id == 1) ≡ true)
      × AreNumbered split 1 p ps qs

  -- What a summary says of its points.
  pub record Describes (current : List (TrackPoint F)) (id start : ℕ) (s : SegmentInfo F)
      : Type 0 where
    pub counts : s.point_count ≡ length (valid_points current)
    pub named : 1 ≤ s.point_count → s.id ≡ id
    pub starts : 1 ≤ s.point_count → s.start_index ≡ start
    pub ends : 1 ≤ s.point_count → s.end_index ≡ start + length current - 1

  -- The number that an index ends with.
  abbrev pub number_at : ℕ → ℕ → List (SegmentInfo F) → ℕ
  number_at i old [] = old
  number_at i old (s ∷ ss) =
      number_at i (if leb s.start_index i && leb i s.end_index then s.id else old) ss

  abbrev pub relabel : List (SegmentInfo F) → ℕ → List (TrackPoint F) → List (TrackPoint F)
  relabel segments i [] = []
  relabel segments i (p ∷ ps) =
      (record p { segment_id = number_at i p.segment_id segments }) ∷ relabel segments (suc i) ps

  relabel-mark_from :
      (s : SegmentInfo F) (ss : List (SegmentInfo F)) (i : ℕ) (ps : List (TrackPoint F))
      → relabel ss i (mark_from s i ps) ≡ relabel (s ∷ ss) i ps
  unfolding mark_from
  relabel-mark_from s ss i [] = refl
  relabel-mark_from s ss i (p ∷ ps) =
      let p' = record p {
        segment_id =
            number_at i (if leb s.start_index i && leb i s.end_index then s.id else p.segment_id)
              ss;
      } in
      ap (◌∷◌ p') (relabel-mark_from s ss (suc i) ps)

  relabel-nil : (i : ℕ) (ps : List (TrackPoint F)) → ps ≡ relabel [] i ps
  relabel-nil i [] = refl
  relabel-nil i (p ∷ ps) = ap (◌∷◌ p) (relabel-nil (suc i) ps)

  pub mark_all-relabel :
      (ss : List (SegmentInfo F)) (ps : List (TrackPoint F)) → mark_all ss ps ≡ relabel ss 0 ps
  unfolding mark_all
  mark_all-relabel [] ps = relabel-nil 0 ps
  mark_all-relabel (s ∷ ss) ps =
      mark_all-relabel ss (mark_from s 0 ps) ∙ relabel-mark_from s ss 0 ps
