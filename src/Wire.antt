-- ===== src/Wire.antt =====
-- The messages of ai-spec/api/fanet.proto that the service sends, with the fields of the Go types
-- generated from it. `float` and `double` share a type; a message held by a pointer is an option.
use flybeeper_com_map_fanet.Prelude.{ℕ, Bool, Option, String, ℤ}
use flybeeper_com_map_fanet.Models.Points.{GeoPoint}

pub record PbPilot (F : Type 0) : Type 0 where
  pub addr : ℕ
  pub name : String
  pub type : ℕ
  pub position : Option (GeoPoint F)
  pub altitude : ℤ
  pub speed : F
  pub climb : F
  pub course : F
  pub last_update : ℕ
  pub track_online : Bool
  pub battery : ℕ

pub record PbGroundObject (F : Type 0) : Type 0 where
  pub addr : ℕ
  pub name : String
  pub type : ℕ
  pub position : Option (GeoPoint F)
  pub track_online : Bool
  pub last_update : ℕ

pub record PbThermal (F : Type 0) : Type 0 where
  pub id : ℕ
  pub addr : ℕ
  pub position : Option (GeoPoint F)
  pub altitude : ℤ
  pub quality : ℕ
  pub climb : F
  pub wind_speed : F
  pub wind_heading : F
  pub timestamp : ℕ

pub record PbStation (F : Type 0) : Type 0 where
  pub addr : ℕ
  pub name : String
  pub position : Option (GeoPoint F)
  pub temperature : F
  pub wind_speed : F
  pub wind_heading : F
  pub wind_gusts : F
  pub humidity : ℕ
  pub pressure : F
  pub battery : ℕ
  pub last_update : ℕ

pub data UpdateType : Type 0 where
  pilot ground_object thermal station : UpdateType

pub data Action : Type 0 where
  add update remove : Action

-- What stands behind the `interface{}` that an update is handed over in.
pub data Content (F : Type 0) : Type 0 where
  pilot_data : PbPilot F → Content F
  thermal_data : PbThermal F → Content F
  station_data : PbStation F → Content F
  other_data : Content F
