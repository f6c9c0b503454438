-- ===== src/Models/Grounds.antt =====
-- `GroundType` and `GroundObject` of internal/models/ground.go, without the JSON names. `MarshalBinary`
-- and its inverse are those of Pilots, for the other type of byte.
use flybeeper_com_map_fanet.Prelude.{
  ℕ, ◌+◌, Bool, true, false, ◌&&◌, Option, none, some, List, [], ◌∷◌, String, str_eq, pos, ltb,
  ◌==◌, if◌then◌else◌, Float,
}
use flybeeper_com_map_fanet.Models.Points.{GeoPoint}
use flybeeper_com_map_fanet.Models.Bounds.{point_faults}
use flybeeper_com_map_fanet.Models.Checks.{Reason, Checked, id_required, first_fault}

pub data GroundType : Type 0 where
  other walking vehicle bike boot need_ride landed_well need_technical_support : GroundType
  need_medical_help distress_call distress_call_auto : GroundType

-- The constants' numbers; every other byte is `other` to the methods.
unfoldable pub ground_type_of : ℕ → GroundType
ground_type_of t =
    if t == 1
    then walking
    else if t == 2
    then vehicle
    else if t == 3
    then bike
    else if t == 4
    then boot
    else if t == 8
    then need_ride
    else if t == 9
    then landed_well
    else if t == 12
    then need_technical_support
    else if t == 13
    then need_medical_help
    else if t == 14
    then distress_call
    else if t == 15
    then distress_call_auto
    else other

unfoldable pub ground_type_string : GroundType → String
ground_type_string walking = "walking"
ground_type_string vehicle = "vehicle"
ground_type_string bike = "bike"
ground_type_string boot = "boot"
ground_type_string need_ride = "need_ride"
ground_type_string landed_well = "landed_well"
ground_type_string need_technical_support = "need_technical_support"
ground_type_string need_medical_help = "need_medical_help"
ground_type_string distress_call = "distress_call"
ground_type_string distress_call_auto = "distress_call_auto"
ground_type_string other = "other"

unfoldable pub is_emergency : GroundType → Bool
is_emergency need_technical_support = true
is_emergency need_medical_help = true
is_emergency distress_call = true
is_emergency distress_call_auto = true
is_emergency _ = false

-- `GetColor`
unfoldable pub ground_color : GroundType → String
ground_color walking = "#2E7D32"
ground_color vehicle = "#1976D2"
ground_color bike = "#FF9800"
ground_color boot = "#00BCD4"
ground_color need_ride = "#FFC107"
ground_color landed_well = "#4CAF50"
ground_color need_technical_support = "#FF5722"
ground_color need_medical_help = "#F44336"
ground_color distress_call = "#B71C1C"
ground_color distress_call_auto = "#B71C1C"
ground_color other = "#757575"

pub record GroundObject (F : Type 0) : Type 0 where
  pub device_id : String
  pub address : String
  pub name : String
  pub type : ℕ
  pub position : Option (GeoPoint F)
  pub track_online : Bool
  pub last_update : ℕ
  pub last_seen : Option ℕ

module _ {F : Type 0} where
  unfoldable pub get_id : GroundObject F → String
  get_id g = if str_eq g.address "" then g.device_id else g.address

  unfoldable pub get_timestamp : GroundObject F → ℕ
  get_timestamp g = elim g.last_seen [ none ↦ g.last_update | some t ↦ t ]

  unfoldable pub is_stale : ℕ → ℕ → GroundObject F → Bool
  is_stale now max_age g = ltb (g.last_update + max_age) now

module _ {F : Type 0} ⦃fl : Float F⦄ where
  open fl use {of_int}

  unfoldable pub get_latitude : GroundObject F → F
  get_latitude g = elim g.position [ none ↦ of_int (pos 0) | some q ↦ q.latitude ]

  unfoldable pub get_longitude : GroundObject F → F
  get_longitude g = elim g.position [ none ↦ of_int (pos 0) | some q ↦ q.longitude ]

  abbrev position_faults : Option (GeoPoint F) → List (Bool × Reason)
  position_faults none = []
  position_faults (some q) = point_faults q

  unfoldable pub validate : GroundObject F → Checked
  validate g =
      first_fault
        ((str_eq g.device_id "" && str_eq g.address "", id_required) ∷ position_faults g.position)
