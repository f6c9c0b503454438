-- ===== src/Models/Pilots.antt =====
-- `PilotType` and `Pilot` of internal/models/pilot.go. Times are nanoseconds, and a time that was never
-- set is none; `float32` shares the type of `float64`. The JSON names are left out.
use flybeeper_com_map_fanet.Prelude.{
  ℕ, ◌+◌, ◌*◌, ◌/◌, ◌%◌, ◌^◌, Bool, ◌&&◌, ◌||◌, Option, none, some, List, [], ◌∷◌, ◌++◌, String,
  str_eq, ℤ, pos, negsuc, ltb, ◌==◌, if◌then◌else◌, foldl, Float,
}
use flybeeper_com_map_fanet.Models.Points.{GeoPoint}
use flybeeper_com_map_fanet.Models.Aircraft.{
  paraglider, hangglider, balloon, glider, powered, helicopter, uav,
}
use flybeeper_com_map_fanet.Models.Bounds.{point_faults}
use flybeeper_com_map_fanet.Models.Checks.{
  Checked, invalid, panic, int_outside, id_required, altitude, speed, climb_rate, heading, battery,
  first_fault,
}

-- `PilotType.String`
unfoldable pub pilot_type_string : ℕ → String
pilot_type_string t =
    if t == paraglider
    then "paraglider"
    else if t == hangglider
    then "hangglider"
    else if t == balloon
    then "balloon"
    else if t == glider
    then "glider"
    else if t == powered
    then "powered"
    else if t == helicopter
    then "helicopter"
    else if t == uav
    then "uav"
    else "unknown"

-- `MarshalBinary`, and `UnmarshalBinary`, whose error is none.
unfoldable pub marshal_binary : ℕ → List ℕ
marshal_binary t = t ∷ []

unfoldable pub unmarshal_binary : List ℕ → Option ℕ
unmarshal_binary (b ∷ []) = some b
unmarshal_binary _ = none

pub record Pilot (F : Type 0) : Type 0 where
  pub device_id : String
  pub address : String
  pub name : String
  pub type : ℕ
  pub position : Option (GeoPoint F)
  pub speed : F
  pub climb_rate : ℤ
  pub heading : F
  pub last_update : ℕ
  pub last_seen : Option ℕ
  pub track_online : Bool
  pub battery : ℕ
  pub last_movement : Option ℕ
  pub tracking_distance : F
  pub visibility_status : String

module _ {F : Type 0} where
  unfoldable pub get_id : Pilot F → String
  get_id p = if str_eq p.address "" then p.device_id else p.address

  unfoldable pub get_timestamp : Pilot F → ℕ
  get_timestamp p = elim p.last_seen [ none ↦ p.last_update | some t ↦ t ]

  -- `time.Since(p.LastUpdate) > maxAge`
  unfoldable pub is_stale : ℕ → ℕ → Pilot F → Bool
  is_stale now max_age p = ltb (p.last_update + max_age) now

-- `GetColor`: the hash of the device id, of 32 bits, and the three bytes of the colour.
unfoldable pub color_hash : List ℕ → ℕ
color_hash runes = foldl (λ hash b. (hash * 31 + b) % 2 ^ 32) 0 runes

unfoldable pub color_bytes : List ℕ → ℕ × ℕ × ℕ
unfolding color_hash
color_bytes runes =
    let hash = color_hash runes in
    let r = hash % 256 in
    let g = hash / 2 ^ 8 % 256 in
    let b = hash / 2 ^ 16 % 256 in
    if ltb r 64 && ltb g 64 && ltb b 64 then (r + 64, g + 64, b + 64) else (r, g, b)

module _ {F : Type 0} ⦃fl : Float F⦄ where
  open fl use {of_int, div, lt, le}

  unfoldable pub get_latitude : Pilot F → F
  get_latitude p = elim p.position [ none ↦ of_int (pos 0) | some q ↦ q.latitude ]

  unfoldable pub get_longitude : Pilot F → F
  get_longitude p = elim p.position [ none ↦ of_int (pos 0) | some q ↦ q.longitude ]

  -- `Validate`, which reads the altitude of a position that it has found nil.
  unfoldable pub validate : Pilot F → Checked
  validate p =
      let no_id = str_eq p.device_id "" && str_eq p.address "" in
      elim p.position [
        | none ↦ if no_id then invalid id_required else panic
        | some q ↦
            let climb = div (of_int p.climb_rate) (of_int (pos 10)) in
            first_fault (
              (no_id, id_required) ∷ point_faults q
              ++ (int_outside (negsuc 999) (pos 15000) q.altitude, altitude)
                ∷ (lt (of_int (pos 400)) p.speed, speed)
                ∷ (lt climb (of_int (negsuc 29)) || lt (of_int (pos 30)) climb, climb_rate)
                ∷ (le (of_int (pos 360)) p.heading, heading)
                ∷ (ltb 100 p.battery, battery)
                ∷ [])
      ]
