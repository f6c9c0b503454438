-- ===== src/Filter/Intervals.antt =====
-- `RemoveTimeBasedDuplicates` of internal/filter/duplicate_filter.go, and the times of the points that it
-- leaves.
use flybeeper_com_map_fanet.Prelude.{
  ℕ, ◌+◌, ◌≤◌, ◌≡◌, refl, sym, subst, ◌∙◌, List, [], ◌∷◌, leb, arith, Bool-cases, inl, inr, Float,
}
use flybeeper_com_map_fanet.Filter.Points.{TrackPoint}
use flybeeper_com_map_fanet.Filter.Duplicates.{
  touch, drop_close, remove_time_based_duplicates, IsWithin, done, keep, skip, touch-position,
}

module _ {F : Type 0} ⦃fl : Float F⦄ (m : ℕ) where
  abbrev IsLater : TrackPoint F → List (TrackPoint F) → Type 0
  IsLater p [] = Unit
  IsLater p (q ∷ qs) = p.timestamp + m ≤ q.timestamp

  -- Neighbours are the interval apart.
  abbrev pub AreSpaced : List (TrackPoint F) → Type 0
  AreSpaced [] = Unit
  AreSpaced (p ∷ ps) = IsLater p ps × AreSpaced ps

  record IsTimed (last : TrackPoint F) (rest r : List (TrackPoint F)) : Type 0 where
    head : TrackPoint F
    tail : List (TrackPoint F)
    starts : r ≡ head ∷ tail
    same_place : head.position ≡ last.position
    not_before : last.timestamp ≤ head.timestamp
    within : IsWithin tail rest
    spaced : AreSpaced r

  touch-le : (last cur : TrackPoint F) → last.timestamp ≤ (touch last cur).timestamp
  touch-le last cur = ground arith

  drop_close-IsTimed :
      (last : TrackPoint F) (rest : List (TrackPoint F))
      → IsTimed last rest (drop_close m last rest)
  unfolding drop_close
  drop_close-IsTimed last [] = record {
    head = last;
    tail = [];
    starts = refl;
    same_place = refl;
    not_before = omega arith;
    within = done;
    spaced = (tt, tt);
  }
  drop_close-IsTimed last (cur ∷ rest) =
      elim (Bool-cases (leb (last.timestamp + m) cur.timestamp)) [
        | inl e ↦
            let r = drop_close-IsTimed cur rest in
            rw (e, drop_close)
              (record {
                head = last;
                tail = drop_close m cur rest;
                starts = refl;
                same_place = refl;
                not_before = omega arith;
                within =
                    subst (λ x. IsWithin x (cur ∷ rest)) (sym r.starts)
                      (keep r.same_place r.within);
                spaced =
                    (subst (IsLater last) (sym r.starts) (ground (arith, r.not_before)), r.spaced);
              })
        | inr e ↦
            let r = drop_close-IsTimed (touch last cur) rest in
            rw (e, drop_close)
              (record {
                head = r.head;
                tail = r.tail;
                starts = r.starts;
                same_place = r.same_place ∙ touch-position last cur;
                not_before = omega (arith, touch-le last cur, r.not_before);
                within = skip r.within;
                spaced = r.spaced;
              })
      ]

  -- The points that `RemoveTimeBasedDuplicates` leaves are, in order and by their positions, among the
  -- given ones, and each is at least the interval after the one before it, although the times of the
  -- points left are moved to those of newer points dropped.
  pub remove_time_based_duplicates-spaces :
      (points : List (TrackPoint F))
      → let r = remove_time_based_duplicates m points in IsWithin r points × AreSpaced r
  unfolding remove_time_based_duplicates
  remove_time_based_duplicates-spaces [] = (done, tt)
  remove_time_based_duplicates-spaces (p ∷ rest) =
      let r = drop_close-IsTimed p rest in
      (subst (λ x. IsWithin x (p ∷ rest)) (sym r.starts) (keep r.same_place r.within), r.spaced)
