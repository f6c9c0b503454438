-- ===== src/Mqtt/Messages.antt =====
-- The message types of internal/mqtt/parser.go. `F` is `float64`; the `float32` fields of
-- `WeatherData` share it.
use flybeeper_com_map_fanet.Prelude.{ℕ, Bool, List, Option, ℤ}

pub record AirTracking (F : Type 0) : Type 0 where
  pub latitude : F
  pub longitude : F
  pub altitude : ℤ
  pub speed : ℕ
  pub heading : ℕ
  pub climb_rate : ℤ
  pub turn_rate : ℤ
  pub aircraft_type : ℕ
  pub online_tracking : Bool

pub record WeatherData (F : Type 0) : Type 0 where
  pub temperature : F
  pub wind_speed : F
  pub wind_direction : ℕ
  pub wind_gusts : F
  pub humidity : ℕ
  pub pressure : F
  pub battery : ℕ

pub record ServiceData (F : Type 0) : Type 0 where
  pub service_header : ℕ
  pub latitude : F
  pub longitude : F
  pub weather : Option (WeatherData F)

pub record GroundTracking (F : Type 0) : Type 0 where
  pub latitude : F
  pub longitude : F
  pub altitude : ℤ
  pub speed : ℕ
  pub heading : ℕ

pub record ThermalData (F : Type 0) : Type 0 where
  pub latitude : F
  pub longitude : F
  pub altitude : ℤ
  pub climb_rate : ℤ
  pub strength : ℕ
  pub radius : ℕ

pub record HwInfo : Type 0 where
  pub manufacturer : ℕ
  pub device_type : ℕ

-- The values that the field `Data interface{}` takes; `none` is nil.
pub data Payload (F : Type 0) : Type 0 where
  none : Payload F
  air_tracking : AirTracking F → Payload F
  name : List ℕ → Payload F
  service : ServiceData F → Payload F
  ground_tracking : GroundTracking F → Payload F
  hw_info : HwInfo → Payload F
  thermal : ThermalData F → Payload F
  new_hw_info : HwInfo → Payload F

pub record Message (F : Type 0) : Type 0 where
  pub type : ℕ
  pub device_id : List ℕ
  pub chip_id : List ℕ
  pub packet_type : List ℕ
  pub timestamp : ℕ
  pub rssi : ℤ
  pub snr : ℤ
  pub raw_payload : List ℕ
  pub payload : Payload F
