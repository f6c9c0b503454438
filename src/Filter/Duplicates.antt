-- ===== src/Filter/Duplicates.antt =====
-- `DuplicateFilter` of internal/filter/duplicate_filter.go: what it drops, and what it leaves. A copy of
-- a dropped point is marked and forgotten, so that the marks are not modelled; neither is the log.
use flybeeper_com_map_fanet.Prelude.{
  sym, subst, ◌∙◌, ℕ, ◌+◌, ◌-◌, ◌/◌, ◌≡◌, refl, Bool, true, false, ◌&&◌, ◌||◌, List, [], ◌∷◌, pos,
  ltb, leb, length, take, tally, arith, if◌then◌else◌, if_both, Bool-cases, inl, inr, Float,
}
use flybeeper_com_map_fanet.Models.Points.{GeoPoint, distance_to}
use flybeeper_com_map_fanet.Filter.Points.{TrackPoint, FilterResult, FilterConfig, no_stats}

module _ {F : Type 0} ⦃fl : Float F⦄ where
  open fl use {of_int, decimal, sub, mul, le, lt}

  -- `math.Abs`
  abbrev pub abs : F → F
  abs x = if lt x (of_int (pos 0)) then sub (of_int (pos 0)) x else x

  unfoldable pub are_coordinates_identical : GeoPoint F → GeoPoint F → Bool
  are_coordinates_identical p q =
      lt (abs (sub p.latitude q.latitude)) (decimal 1 6)
      && lt (abs (sub p.longitude q.longitude)) (decimal 1 6)

  -- The recent points come with the latest first.
  unfoldable pub is_point_in_cluster : TrackPoint F → List (TrackPoint F) → ℕ → F → Bool
  is_point_in_cluster point recent check_last radius_km =
      let n = if ltb (length recent) check_last then length recent else check_last in
      ltb (n / 2)
        (tally (λ r. le (distance_to r.position point.position) radius_km) (take n recent))

  -- `distanceMeters < MinDistanceMeters`
  abbrev pub is_near : FilterConfig F → TrackPoint F → TrackPoint F → Bool
  is_near c last cur =
      lt (mul (distance_to last.position cur.position) (of_int (pos 1000))) c.min_distance_meters

  -- The four tests against the last valid point and those before it.
  unfoldable pub is_duplicate :
      FilterConfig F → TrackPoint F → List (TrackPoint F) → TrackPoint F → Bool
  is_duplicate c last before cur =
      is_near c last cur
      || (ltb 0 c.min_time_interval && ltb cur.timestamp (last.timestamp + c.min_time_interval))
      || are_coordinates_identical last.position cur.position
      || is_point_in_cluster cur (last ∷ before) 5 (decimal 1 1)

  -- The last valid point takes the time of a newer duplicate.
  abbrev pub touch : TrackPoint F → TrackPoint F → TrackPoint F
  touch last cur =
      if ltb last.timestamp cur.timestamp then record last { timestamp = cur.timestamp } else last

  -- The loop of `Filter`: the valid points from the last one on, and the number of duplicates.
  unfoldable pub drop_duplicates :
      FilterConfig F
      → TrackPoint F
      → List (TrackPoint F)
      → List (TrackPoint F)
      → List (TrackPoint F) × ℕ
  drop_duplicates c last before [] = (last ∷ [], 0)
  drop_duplicates c last before (cur ∷ rest) = elim (is_duplicate c last before cur) [
    | true ↦
        let (points, dropped) = drop_duplicates c (touch last cur) before rest in
        (points, dropped + 1)
    | false ↦
        let (points, dropped) = drop_duplicates c cur (last ∷ before) rest in
        (last ∷ points, dropped)
  ]

  -- `Filter`
  unfoldable pub filter_duplicates : FilterConfig F → List (TrackPoint F) → FilterResult F
  filter_duplicates c [] = record {
    original_count = 0;
    filtered_count = 0;
    points = [];
    statistics = no_stats;
  }
  filter_duplicates c (p ∷ []) = record {
    original_count = 1;
    filtered_count = 0;
    points = p ∷ [];
    statistics = no_stats;
  }
  filter_duplicates c (p ∷ q ∷ rest) =
      let (points, dropped) = drop_duplicates c p [] (q ∷ rest) in
      record {
        original_count = length (p ∷ q ∷ rest);
        filtered_count = length (p ∷ q ∷ rest) - length points;
        points = points;
        statistics = record no_stats { duplicates = dropped };
      }

  -- `RemoveTimeBasedDuplicates`, from the last point of the result on.
  unfoldable pub drop_close : ℕ → TrackPoint F → List (TrackPoint F) → List (TrackPoint F)
  drop_close min_interval last [] = last ∷ []
  drop_close min_interval last (cur ∷ rest) =
      elim (leb (last.timestamp + min_interval) cur.timestamp) [
        | true ↦ last ∷ drop_close min_interval cur rest
        | false ↦ drop_close min_interval (touch last cur) rest
      ]

  unfoldable pub remove_time_based_duplicates : ℕ → List (TrackPoint F) → List (TrackPoint F)
  remove_time_based_duplicates min_interval [] = []
  remove_time_based_duplicates min_interval (p ∷ rest) = drop_close min_interval p rest

-- The points of the first list are, in order, among those of the second, by their positions.
pub data IsWithin {F : Type 0} : List (TrackPoint F) → List (TrackPoint F) → Type 0 where
  done : IsWithin [] []
  keep :
      {p q : TrackPoint F} {ps qs : List (TrackPoint F)}
      → p.position ≡ q.position
      → IsWithin ps qs
      → IsWithin (p ∷ ps) (q ∷ qs)
  skip : {q : TrackPoint F} {ps qs : List (TrackPoint F)} → IsWithin ps qs → IsWithin ps (q ∷ qs)

module _ {F : Type 0} ⦃fl : Float F⦄ where
  -- Two neighbours are neither too near nor at identical coordinates.
  abbrev IsApart : FilterConfig F → TrackPoint F → List (TrackPoint F) → Type 0
  IsApart c p [] = Unit
  IsApart c p (q ∷ qs) =
      (is_near c p q ≡ false) × (are_coordinates_identical p.position q.position ≡ false)

  abbrev pub AreApart : FilterConfig F → List (TrackPoint F) → Type 0
  AreApart c [] = Unit
  AreApart c (p ∷ ps) = IsApart c p ps × AreApart c ps

  -- What the loop makes of the last valid point and the points after it.
  record IsThinned (c : FilterConfig F) (last : TrackPoint F) (rest : List (TrackPoint F))
      (r : List (TrackPoint F) × ℕ) : Type 0 where
    head : TrackPoint F
    tail : List (TrackPoint F)
    starts : r.0 ≡ head ∷ tail
    same_place : head.position ≡ last.position
    counted : length r.0 + r.1 ≡ 1 + length rest
    within : IsWithin tail rest
    apart : AreApart c r.0

  pub touch-position : (last cur : TrackPoint F) → (touch last cur).position ≡ last.position
  touch-position last cur =
      if_both (λ (p : TrackPoint F). p.position ≡ last.position) (ltb last.timestamp cur.timestamp)
        refl refl

  is_duplicate-false :
      (c : FilterConfig F) (last : TrackPoint F) (before : List (TrackPoint F)) (cur : TrackPoint F)
      → is_duplicate c last before cur ≡ false
      → (is_near c last cur ≡ false)
        × (are_coordinates_identical last.position cur.position ≡ false)
  unfolding is_duplicate
  is_duplicate-false c last before cur e = ground arith

  IsApart-moved :
      (c : FilterConfig F) (p cur head : TrackPoint F) (tail points : List (TrackPoint F))
      → points ≡ head ∷ tail
      → head.position ≡ cur.position
      → (is_near c p cur ≡ false) × (are_coordinates_identical p.position cur.position ≡ false)
      → IsApart c p points
  IsApart-moved c p cur head tail points e same (near, identical) =
      subst (IsApart c p) (sym e) (rw same (near, identical))

  drop_duplicates-IsThinned :
      (c : FilterConfig F) (last : TrackPoint F) (before rest : List (TrackPoint F))
      → IsThinned c last rest (drop_duplicates c last before rest)
  unfolding drop_duplicates
  drop_duplicates-IsThinned c last before [] = record {
    head = last;
    tail = [];
    starts = refl;
    same_place = refl;
    counted = refl;
    within = done;
    apart = (tt, tt);
  }
  drop_duplicates-IsThinned c last before (cur ∷ rest) =
      elim (Bool-cases (is_duplicate c last before cur)) [
        | inl e ↦
            let r = drop_duplicates-IsThinned c (touch last cur) before rest in
            rw (e, drop_duplicates)
              (record {
                head = r.head;
                tail = r.tail;
                starts = r.starts;
                same_place = r.same_place ∙ touch-position last cur;
                counted = omega (arith, r.counted);
                within = skip r.within;
                apart = r.apart;
              })
        | inr e ↦
            let r = drop_duplicates-IsThinned c cur (last ∷ before) rest in
            rw (e, drop_duplicates)
              (record {
                head = last;
                tail = (drop_duplicates c cur (last ∷ before) rest).0;
                starts = refl;
                same_place = refl;
                counted = omega (arith, r.counted);
                within =
                    subst (λ x. IsWithin x (cur ∷ rest)) (sym r.starts)
                      (keep r.same_place r.within);
                apart = (
                  IsApart-moved c last cur r.head r.tail _ r.starts r.same_place
                      (is_duplicate-false c last before cur e),
                  r.apart,
                );
              })
      ]

  -- `Filter` accounts for every point: those left and those counted as duplicates are all, and the
  -- count of filtered points is that of the duplicates. The points left are, in order and by their
  -- positions, among the track's, and no two neighbours of them are nearer than the least distance
  -- or at identical coordinates.
  pub filter_duplicates-thins :
      (c : FilterConfig F) (track : List (TrackPoint F))
      → let r = filter_duplicates c track in
        (r.original_count ≡ length track)
        × (length r.points + r.statistics.duplicates ≡ length track)
        × (r.filtered_count ≡ r.statistics.duplicates)
        × IsWithin r.points track
        × AreApart c r.points
  unfolding filter_duplicates
  filter_duplicates-thins c [] = (refl, refl, refl, done, tt)
  filter_duplicates-thins c (p ∷ []) = (refl, refl, refl, keep refl done, (tt, tt))
  filter_duplicates-thins c (p ∷ q ∷ rest) =
      let r = drop_duplicates-IsThinned c p [] (q ∷ rest) in
      (
        refl,
        omega (arith, r.counted),
        omega (arith, r.counted),
        subst (λ x. IsWithin x (p ∷ q ∷ rest)) (sym r.starts) (keep r.same_place r.within),
        r.apart,
      )
