-- ===== src/Filter/Visits.antt =====
-- The order in which internal/filter/segmented_filter_chain.go visits the segments, which is that of a Go map.
use flybeeper_com_map_fanet.Prelude.{
  map, ℕ, suc, ◌≡◌, refl, sym, ap, ◌∙◌, false, List, [], ◌∷◌, length, tally, arith, ◌==◌, ==_iff,
  Bool-cases, inl, inr, String, Float, subst,
}
use mathlib.Core.List.{Permᴰ}
use flybeeper_com_map_fanet.Filter.Points.{TrackPoint, TrackData, FilterConfig, is_filtered}
use flybeeper_com_map_fanet.Filter.Segmented.{
  hidden, group_id, write_group, writes_of, Progress, filter_group, filter_groups, all_marked,
  filter_segmented,
}

module _ {F : Type 0} where
  -- Two different segments have no point in common.
  write_group-swap :
      (a b : ℕ) (f g : ℕ → TrackPoint F → TrackPoint F) (j k : ℕ) (ps rs : List (TrackPoint F))
      → (a == b) ≡ false
      → write_group a f j ps (write_group b g k ps rs)
        ≡ write_group b g k ps (write_group a f j ps rs)
  unfolding write_group
  write_group-swap a b f g j k [] rs e = refl
  write_group-swap a b f g j k (p ∷ ps) [] e = refl
  write_group-swap a b f g j k (p ∷ ps) (r ∷ rs) e = elim (Bool-cases (group_id p == a)) [
    | inl x ↦
        let y : (group_id p == b) ≡ false = ground arith in
        rw (x, y, write_group)
          (rw x (ap (◌∷◌ (f j r)) (write_group-swap a b f g (suc j) k ps rs e)))
    | inr x ↦ elim (Bool-cases (group_id p == b)) [
      | inl y ↦
          rw (x, y, write_group)
            (rw x (ap (◌∷◌ (g k r)) (write_group-swap a b f g j (suc k) ps rs e)))
      | inr y ↦ rw (x, y, write_group) (rw x (ap (◌∷◌ r) (write_group-swap a b f g j k ps rs e)))
    ]
  ]

  length-write_group :
      (id : ℕ) (write : ℕ → TrackPoint F → TrackPoint F) (k : ℕ) (ps rs : List (TrackPoint F))
      → length ps ≡ length rs
      → length (write_group id write k ps rs) ≡ length ps
  unfolding write_group
  length-write_group id write k [] rs e = sym e
  length-write_group id write k (p ∷ ps) [] e = absurd (omega arith)
  length-write_group id write k (p ∷ ps) (r ∷ rs) e = elim (Bool-cases (group_id p == id)) [
    | inl x ↦
        rw (x, write_group) (omega (arith, length-write_group id write (suc k) ps rs (omega arith)))
    | inr x ↦ rw (x, write_group) (omega (arith, length-write_group id write k ps rs (omega arith)))
  ]

module _ {F : Type 0} ⦃fl : Float F⦄ (sprintf : String → List F → String) (c : FilterConfig F)
    (track : TrackData F) where
  -- The points after some segments.
  abbrev visit : List ℕ → List (TrackPoint F) → List (TrackPoint F)
  visit [] rs = rs
  visit (id ∷ ids) rs = visit ids (write_group id (writes_of sprintf c track id) 0 track.points rs)

  filter_groups-visit :
      (order : List ℕ) (g : Progress F)
      → (filter_groups sprintf c track order g).points ≡ visit order g.points
  unfolding filter_groups filter_group
  filter_groups-visit [] g = refl
  filter_groups-visit (id ∷ ids) g = filter_groups-visit ids (filter_group sprintf c track id g)

  visit-swap :
      (a b : ℕ) (l : List ℕ) (rs : List (TrackPoint F))
      → visit (a ∷ b ∷ l) rs ≡ visit (b ∷ a ∷ l) rs
  visit-swap a b l rs = elim (Bool-cases (a == b)) [
    | inl e ↦
        let same : a ≡ b = (==_iff a b).0 e in
        subst (λ x. visit (a ∷ x ∷ l) rs ≡ visit (x ∷ a ∷ l) rs) same refl
    | inr e ↦ ap (visit l) (
        sym (
          write_group-swap a b (writes_of sprintf c track a) (writes_of sprintf c track b) 0 0
            track.points rs e))
  ]

  visit-Permᴰ :
      {order order' : List ℕ} (perm : Permᴰ order order') (rs : List (TrackPoint F))
      → visit order rs ≡ visit order' rs
  visit-Permᴰ Permᴰ.nil rs = refl
  visit-Permᴰ (Permᴰ.cons {a = a} {l₂ = l} e perm) rs =
      visit-Permᴰ perm _ ∙ ap (λ x. visit (x ∷ l) rs) e
  visit-Permᴰ (Permᴰ.swap {a = a} {b = b} {a' = a'} {l = l} e d) rs =
      visit-swap a b l rs ∙ ap (λ x. visit (x ∷ a ∷ l) rs) d ∙ ap (λ x. visit (a' ∷ x ∷ l) rs) e
  visit-Permᴰ (Permᴰ.trans p q) rs = visit-Permᴰ p rs ∙ visit-Permᴰ q rs

  length-visit :
      (order : List ℕ) (rs : List (TrackPoint F))
      → length track.points ≡ length rs
      → length (visit order rs) ≡ length track.points
  length-visit [] rs e = sym e
  length-visit (id ∷ ids) rs e =
      length-visit ids _
        (sym (length-write_group id (writes_of sprintf c track id) 0 track.points rs e))

module _ {F : Type 0} ⦃fl : Float F⦄ (sprintf : String → List F → String) (c : FilterConfig F) where
  length-hidden : (ps : List (TrackPoint F)) → length (map hidden ps) ≡ length ps
  length-hidden [] = refl
  length-hidden (p ∷ ps) = omega (arith, length-hidden ps)

  visited :
      (track : TrackData F) (order order' : List ℕ)
      → Permᴰ order order'
      → let g = filter_groups sprintf c track order (all_marked sprintf c track) in
        let g' = filter_groups sprintf c track order' (all_marked sprintf c track) in
        (g.points ≡ g'.points) × (length g.points ≡ length track.points)
  visited track order order' perm =
      let start = all_marked sprintf c track in
      let seen = filter_groups-visit sprintf c track order start in
      (
        seen
            ∙ visit-Permᴰ sprintf c track perm start.points
            ∙ sym (filter_groups-visit sprintf c track order' start),
        ap length seen
            ∙ length-visit sprintf c track order start.points (sym (length-hidden track.points)),
      )

  segmented_from :
      (track : TrackData F) (order order' : List ℕ) (points : List (TrackPoint F))
      → track.points ≡ points
      → Permᴰ order order'
      → let r = filter_segmented sprintf c track order in
        let r' = filter_segmented sprintf c track order' in
        (r.points ≡ r'.points)
        × (r.filtered_count ≡ r'.filtered_count)
        × (length r.points ≡ length points)
        × (r.filtered_count ≡ tally is_filtered r.points)
  unfolding filter_segmented
  segmented_from track order order' [] e perm = rw e (refl, refl, refl, refl)
  segmented_from track order order' (p ∷ ps) e perm =
      let (same, size) = visited (record track { points = p ∷ ps }) order order' perm in
      rw e (same, ap (tally is_filtered) same, size, refl)

  -- The segmented filter answers as many points as the track has, and counts the marked ones; and it
  -- gives the same points and the same count in whatever order the map of segments is visited.
  pub filter_segmented-order_free :
      (track : TrackData F) (order order' : List ℕ)
      → Permᴰ order order'
      → let r = filter_segmented sprintf c track order in
        let r' = filter_segmented sprintf c track order' in
        (r.points ≡ r'.points)
        × (r.filtered_count ≡ r'.filtered_count)
        × (length r.points ≡ length track.points)
        × (r.filtered_count ≡ tally is_filtered r.points)
  filter_segmented-order_free track order order' perm =
      segmented_from track order order' track.points refl perm
