-- ===== src/Filter/Medians.antt =====
-- The medians of internal/filter/outlier_filter.go, internal/filter/pre_cleanup_filter.go and
-- internal/filter/smart_teleportation_filter.go. `sort.Float64s` is an insertion sort, of numbers that are not NaN.
use flybeeper_com_map_fanet.Prelude.{
  ℤ, ℕ, ◌-◌, ◌/◌, ◌%◌, none, some, List, [], ◌∷◌, map, length, get_elem?, if◌then◌else◌, ◌==◌,
  Float,
}
use flybeeper_com_map_fanet.Models.Points.{GeoPoint}
use flybeeper_com_map_fanet.Filter.Points.{TrackPoint, number}
use flybeeper_com_map_fanet.Filter.Duplicates.{abs}

module _ {F : Type 0} ⦃fl : Float F⦄ where
  open fl use {add, sub, div, le}

  unfoldable pub sort_in : F → List F → List F
  sort_in x [] = x ∷ []
  sort_in x (y ∷ ys) = if le x y then x ∷ y ∷ ys else y ∷ sort_in x ys

  unfoldable pub float64s : List F → List F
  float64s [] = []
  float64s (x ∷ xs) = sort_in x (float64s xs)

  -- A read at an index that is in range.
  abbrev pub item : List F → ℕ → F
  item xs i = elim (get_elem? xs i) [ none ↦ number 0 | some x ↦ x ]

  -- The middle of a sorted list, or the mean of the two middle items.
  abbrev pub middle_item : List F → F
  middle_item sorted =
      let n = length sorted in
      if n % 2 == 0
      then div (add (item sorted (n / 2 - 1)) (item sorted (n / 2))) (number 2)
      else item sorted (n / 2)

  unfoldable pub calculate_median : List F → F
  calculate_median [] = number 0
  calculate_median (x ∷ xs) = middle_item (float64s (x ∷ xs))

  unfoldable pub calculate_mad : List F → F → F
  calculate_mad [] median = number 0
  calculate_mad (x ∷ xs) median = calculate_median (map (λ y. abs (sub y median)) (x ∷ xs))

  -- The medians of latitudes and longitudes; the altitude is 0.
  unfoldable pub median_position : List (TrackPoint F) → GeoPoint F
  median_position points = record {
    latitude = calculate_median (map (λ p. p.position.latitude) points);
    longitude = calculate_median (map (λ p. p.position.longitude) points);
    altitude = ℤ.pos 0;
  }
