-- ===== src/Models/Stations.antt =====
-- `Station` of internal/models/station.go but for the Redis hashes and the JSON names. The tests that a
-- `uint8` is below zero, which never hold, are left out.
use flybeeper_com_map_fanet.Prelude.{
  ℕ, ◌+◌, ◌*◌, ◌/◌, Bool, ◌&&◌, ◌||◌, not, Option, none, some, List, [], ◌∷◌, ◌++◌, String, str_eq,
  ℤ, pos, negsuc, ltb, leb, ◌==◌, get_elem?, if◌then◌else◌, Float,
}
use flybeeper_com_map_fanet.Models.Points.{GeoPoint}
use flybeeper_com_map_fanet.Models.Bounds.{point_faults}
use flybeeper_com_map_fanet.Models.Checks.{
  Reason, Checked, id_required, temperature, wind_speed, wind_direction, wind_gusts, humidity,
  pressure, battery, first_fault, int_ltb, int_outside,
}

pub record Station (F : Type 0) : Type 0 where
  pub id : String
  pub chip_id : String
  pub name : String
  pub position : Option (GeoPoint F)
  pub temperature : ℤ
  pub wind_speed : ℕ
  pub wind_direction : ℕ
  pub wind_gusts : ℕ
  pub humidity : ℕ
  pub pressure : ℕ
  pub battery : ℕ
  pub last_update : ℕ
  pub last_seen : Option ℕ

module _ {F : Type 0} where
  unfoldable pub get_id : Station F → String
  get_id s = if str_eq s.chip_id "" then s.id else s.chip_id

  unfoldable pub get_timestamp : Station F → ℕ
  get_timestamp s = elim s.last_seen [ none ↦ s.last_update | some t ↦ t ]

  unfoldable pub is_stale : ℕ → ℕ → Station F → Bool
  is_stale now max_age s = ltb (s.last_update + max_age) now

  unfoldable pub is_flyable : Station F → Bool
  is_flyable s = not (
      ltb 10 s.wind_speed
      || ltb 15 s.wind_gusts
      || (ltb 95 s.humidity && int_ltb (pos 0) s.temperature))

unfoldable pub get_wind_description : ℕ → String
get_wind_description speed =
    if speed == 0
    then "calm"
    else if leb speed 1
    then "light air"
    else if leb speed 3
    then "light breeze"
    else if leb speed 5
    then "gentle breeze"
    else if ltb speed 8
    then "moderate breeze"
    else if leb speed 10
    then "fresh breeze"
    else if leb speed 13
    then "strong breeze"
    else if ltb speed 17
    then "near gale"
    else if ltb speed 21
    then "gale"
    else if ltb speed 25
    then "strong gale"
    else if ltb speed 29
    then "storm"
    else if ltb speed 33
    then "violent storm"
    else "hurricane"

abbrev pub directions : List String
directions =
    "N" ∷ "NNE" ∷ "NE" ∷ "ENE" ∷ "E" ∷ "ESE" ∷ "SE" ∷ "SSE" ∷ "S" ∷ "SSW" ∷ "SW" ∷ "WSW" ∷ "W"
    ∷ "WNW" ∷ "NW" ∷ "NNW" ∷ []

-- `int((float64(s.WindDirection) + 11.25) / 22.5)`: the quotient of these numbers is at least 1/90
-- away from the next whole number, so that no rounding reaches it.
unfoldable pub direction_index : ℕ → ℕ
direction_index direction =
    let index = (4 * direction + 45) / 90 in if leb 16 index then 0 else index

-- `GetWindDirection`; none is a read out of range.
unfoldable pub get_wind_direction : ℕ → Option String
unfolding direction_index
get_wind_direction direction = get_elem? directions (direction_index direction)

module _ {F : Type 0} ⦃fl : Float F⦄ where
  open fl use {of_int}

  unfoldable pub get_latitude : Station F → F
  get_latitude s = elim s.position [ none ↦ of_int (pos 0) | some q ↦ q.latitude ]

  unfoldable pub get_longitude : Station F → F
  get_longitude s = elim s.position [ none ↦ of_int (pos 0) | some q ↦ q.longitude ]

  abbrev position_faults : Option (GeoPoint F) → List (Bool × Reason)
  position_faults none = []
  position_faults (some q) = point_faults q

  unfoldable pub validate : Station F → Checked
  validate s = first_fault (
      (str_eq s.id "" && str_eq s.chip_id "", id_required) ∷ position_faults s.position
      ++ (int_outside (negsuc 59) (pos 60) s.temperature, temperature)
        ∷ (ltb 100 s.wind_speed, wind_speed)
        ∷ (leb 360 s.wind_direction, wind_direction)
        ∷ (ltb 150 s.wind_gusts, wind_gusts)
        ∷ (ltb 100 s.humidity, humidity)
        ∷ (ltb 0 s.pressure && (ltb s.pressure 900 || ltb 1100 s.pressure), pressure)
        ∷ (ltb 100 s.battery, battery)
        ∷ [])

-- `WeatherHistory` and `GetWeatherTrend`, whose map has one entry for each of the three names, or none
-- for the pressure where one of the two is not known.
pub record WeatherHistory (F : Type 0) : Type 0 where
  pub timestamp : ℕ
  pub temperature : F
  pub wind_speed : F
  pub wind_heading : F
  pub humidity : ℕ
  pub pressure : F

pub record Trends : Type 0 where
  pub temperature_trend : String
  pub wind_trend : String
  pub pressure_trend : Option String

abbrev pub last_of {ℓ} : {A : Type ℓ} → A → List A → A
last_of x [] = x
last_of x (y ∷ ys) = last_of y ys

module _ {F : Type 0} ⦃fl : Float F⦄ where
  open fl use {of_int, sub, lt}

  abbrev trend : String → String → F → String
  trend up down diff =
      if lt (of_int (pos 2)) diff
      then up
      else if lt diff (of_int (negsuc 1))
      then down
      else "stable"

  unfoldable pub get_weather_trend : List (WeatherHistory F) → Trends
  get_weather_trend (first ∷ second ∷ rest) =
      let last = last_of second rest in
      record {
        temperature_trend = trend "rising" "falling" (sub last.temperature first.temperature);
        wind_trend = trend "increasing" "decreasing" (sub last.wind_speed first.wind_speed);
        pressure_trend =
            if lt (of_int (pos 0)) first.pressure && lt (of_int (pos 0)) last.pressure
            then some (trend "rising" "falling" (sub last.pressure first.pressure))
            else none;
      }
  get_weather_trend _ = record {
    temperature_trend = "stable";
    wind_trend = "stable";
    pressure_trend = some "stable";
  }
