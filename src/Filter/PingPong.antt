-- ===== src/Filter/PingPong.antt =====
-- `PingPongDetector` of internal/filter/smart_teleportation_filter.go. Its two slices, which stand side by side, are
-- one list of places with their counts.
use flybeeper_com_map_fanet.Prelude.{
  ℕ, ◌+◌, Bool, true, false, Option, none, some, List, [], ◌∷◌, ◌++◌, length, drop, ltb, leb,
  if◌then◌else◌, Float,
}
use flybeeper_com_map_fanet.Models.Points.{GeoPoint, distance_to}

module _ {F : Type 0} ⦃fl : Float F⦄ where
  open fl use {lt, decimal}

  -- Within 10 metres.
  abbrev pub is_same_place : GeoPoint F → GeoPoint F → Bool
  is_same_place place point = lt (distance_to place point) (decimal 1 2)

  -- The first place that the point is at counts once more; the answer says that it has enough.
  unfoldable pub count_again :
      ℕ → GeoPoint F → List (GeoPoint F × ℕ) → Option (List (GeoPoint F × ℕ) × Bool)
  count_again threshold point [] = none
  count_again threshold point ((place, n) ∷ rest) = elim (is_same_place place point) [
    | true ↦ some ((place, n + 1) ∷ rest, leb threshold (n + 1))
    | false ↦ elim (count_again threshold point rest) [
      | none ↦ none
      | some (rest', enough) ↦ some ((place, n) ∷ rest', enough)
    ]
  ]

  -- `AddPoint`
  unfoldable pub add_point : ℕ → GeoPoint F → List (GeoPoint F × ℕ) → List (GeoPoint F × ℕ) × Bool
  add_point threshold point places = elim (count_again threshold point places) [
    | some answer ↦ answer
    | none ↦
        let more = places ++ ((point, 1) ∷ []) in
        (if ltb 10 (length more) then drop 1 more else more, false)
  ]
