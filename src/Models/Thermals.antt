-- ===== src/Models/Thermals.antt =====
-- `Thermal` of internal/models/thermal.go but for the merging, the Redis hashes and the JSON names.
-- A read through a position that is nil is none.
use flybeeper_com_map_fanet.Prelude.{
  ℕ, ◌+◌, Bool, ◌||◌, ◌==◌, not, Option, none, some, [], ◌∷◌, ◌++◌, String, str_eq, ℤ, pos, negsuc,
  ltb, leb, if◌then◌else◌, Float,
}
use flybeeper_com_map_fanet.Models.Points.{GeoPoint}
use flybeeper_com_map_fanet.Models.Bounds.{point_faults}
use flybeeper_com_map_fanet.Models.Checks.{
  Checked, invalid, panic, id_required, reporter_required, altitude, quality, climb_rate,
  wind_speed, wind_direction, first_fault, int_ltb, int_outside,
}

pub record Thermal (F : Type 0) : Type 0 where
  pub id : String
  pub reported_by : String
  pub position : Option (GeoPoint F)
  pub quality : ℤ
  pub climb_rate : F
  pub pilot_count : ℤ
  pub wind_speed : ℕ
  pub wind_direction : ℕ
  pub timestamp : ℕ
  pub last_seen : Option ℕ

module _ {F : Type 0} where
  -- `GetLatitude` and `GetLongitude`, whose branch for nil reads through it as well.
  unfoldable pub get_latitude : Thermal F → Option F
  get_latitude t = elim t.position [ none ↦ none | some q ↦ some q.latitude ]

  unfoldable pub get_longitude : Thermal F → Option F
  get_longitude t = elim t.position [ none ↦ none | some q ↦ some q.longitude ]

  unfoldable pub get_timestamp : Thermal F → ℕ
  get_timestamp t = elim t.last_seen [ none ↦ t.timestamp | some at ↦ at ]

  unfoldable pub is_stale : ℕ → ℕ → Thermal F → Bool
  is_stale now max_age t = ltb (t.timestamp + max_age) now

-- `GetQualityDescription`
unfoldable pub get_quality_description : ℤ → String
get_quality_description (negsuc n) = "unknown"
get_quality_description (pos n) =
    if n == 0
    then "very weak"
    else if n == 1
    then "weak"
    else if n == 2
    then "moderate"
    else if n == 3
    then "good"
    else if n == 4
    then "strong"
    else if n == 5
    then "excellent"
    else "unknown"

module _ {F : Type 0} ⦃fl : Float F⦄ where
  open fl use {of_int, lt, le}

  -- `Validate`; the text of a coordinate's error has the prefix "center".
  unfoldable pub validate : Thermal F → Checked
  validate t =
      let no_id = str_eq t.id "" in
      let no_reporter = str_eq t.reported_by "" in
      elim t.position [
        | none ↦
            (if no_id
              then invalid id_required
              else if no_reporter
              then invalid reporter_required
              else panic)
        | some q ↦ first_fault (
            (no_id, id_required) ∷ (no_reporter, reporter_required) ∷ point_faults q
            ++ (int_outside (pos 0) (pos 10000) q.altitude, altitude)
              ∷ (int_ltb (pos 5) t.quality, quality)
              ∷ (
                lt t.climb_rate (of_int (negsuc 499)) || lt (of_int (pos 2000)) t.climb_rate,
                climb_rate,
              )
              ∷ (ltb 100 t.wind_speed, wind_speed)
              ∷ (leb 360 t.wind_direction, wind_direction)
              ∷ [])
      ]

  unfoldable pub is_strong : Thermal F → Bool
  is_strong t = not (int_ltb t.quality (pos 4)) || le (of_int (pos 300)) t.climb_rate
