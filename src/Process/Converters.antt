-- ===== src/Process/Converters.antt =====
-- The converters of cmd/fanet-api/main.go. The parser's texts are bytes, of which `text` makes a Go
-- string; `thermal_id` is `fmt.Sprintf("%s_%d", ...)`. How a floating-point number becomes a small
-- integer outside its range is left to the platform by the language, so that these conversions are
-- arguments too.
use flybeeper_com_map_fanet.Prelude.{
  ℕ, ◌/◌, ◌^◌, Option, none, some, List, String, ℤ, pos, to_unsigned, Float,
}
use flybeeper_com_map_fanet.Mqtt.Messages.{
  Message, Payload, WeatherData, air_tracking, name, service, thermal,
}
use flybeeper_com_map_fanet.Models.Pilots.{Pilot}
use flybeeper_com_map_fanet.Models.Thermals.{Thermal}
use flybeeper_com_map_fanet.Models.Stations.{Station}
use flybeeper_com_map_fanet.Models.Protos.{unix, flat}
use flybeeper_com_map_fanet.Wire.{PbPilot, PbThermal, PbStation}

pub record Platform (F : Type 0) : Type 0 where
  pub text : List ℕ → String
  pub thermal_id : String → ℕ → String
  pub to_int8 : F → ℤ
  pub to_uint8 : F → ℕ
  pub to_uint16 : F → ℕ

pub record NameUpdate : Type 0 where
  pub device_id : String
  pub new_name : String

module _ {F : Type 0} ⦃fl : Float F⦄ (os : Platform F) where
  open fl use {of_int, div}

  -- The assertion of the type of `msg.Data`; none is the nil pointer.
  unfoldable pub pilot_from : Message F → Payload F → Option (Pilot F)
  pilot_from msg (air_tracking air) = some (record {
    device_id = os.text msg.device_id;
    address = "";
    name = "";
    type = air.aircraft_type;
    position =
        some
          (record { latitude = air.latitude; longitude = air.longitude; altitude = air.altitude });
    speed = of_int (pos air.speed);
    climb_rate = air.climb_rate;
    heading = of_int (pos air.heading);
    last_update = msg.timestamp;
    last_seen = none;
    track_online = air.online_tracking;
    battery = 100;
    last_movement = none;
    tracking_distance = of_int (pos 0);
    visibility_status = "";
  })
  pilot_from msg _ = none

  unfoldable pub convert_fanet_to_pilot : Message F → Option (Pilot F)
  unfolding pilot_from
  convert_fanet_to_pilot msg = pilot_from msg msg.payload

  unfoldable pub convert_fanet_to_thermal : Message F → Option (Thermal F)
  convert_fanet_to_thermal msg = elim msg.payload [
    | thermal th ↦ some (record {
      id = os.thermal_id (os.text msg.device_id) (unix msg.timestamp);
      reported_by = os.text msg.device_id;
      position =
          some
            (record { latitude = th.latitude; longitude = th.longitude; altitude = th.altitude });
      quality = pos (th.strength / 20);
      climb_rate = of_int th.climb_rate;
      pilot_count = pos 0;
      wind_speed = 0;
      wind_direction = 0;
      timestamp = msg.timestamp;
      last_seen = none;
    })
    | _ ↦ none
  ]

  -- The weather written to a station, if the service message has it.
  abbrev with_weather : Option (WeatherData F) → Station F → Station F
  with_weather none s = s
  with_weather (some w) s = record s {
    temperature = os.to_int8 w.temperature;
    wind_speed = os.to_uint8 w.wind_speed;
    wind_direction = w.wind_direction;
    wind_gusts = os.to_uint8 w.wind_gusts;
    humidity = w.humidity;
    pressure = os.to_uint16 w.pressure;
    battery = w.battery;
  }

  unfoldable pub convert_fanet_to_station : Message F → Option (Station F)
  convert_fanet_to_station msg = elim msg.payload [
    | service sv ↦ some (
        with_weather sv.weather (record {
          id = os.text msg.device_id;
          chip_id = "";
          name = "";
          position =
              some (record { latitude = sv.latitude; longitude = sv.longitude; altitude = pos 0 });
          temperature = pos 0;
          wind_speed = 0;
          wind_direction = 0;
          wind_gusts = 0;
          humidity = 0;
          pressure = 0;
          battery = 0;
          last_update = msg.timestamp;
          last_seen = none;
        }))
    | _ ↦ none
  ]

  unfoldable pub convert_fanet_to_name_update : Message F → Option NameUpdate
  convert_fanet_to_name_update msg = elim msg.payload [
    | name bytes ↦ some (record { device_id = os.text msg.device_id; new_name = os.text bytes })
    | _ ↦ none
  ]

-- To protobuf. A read through a nil position is none.
module _ {F : Type 0} ⦃fl : Float F⦄ where
  open fl use {of_int, div}

  unfoldable pub convert_pilot_to_protobuf : Pilot F → Option (PbPilot F)
  convert_pilot_to_protobuf p = elim p.position [
    | none ↦ none
    | some q ↦ some (record {
      addr = 0;
      name = p.name;
      type = p.type;
      position = some q;
      altitude = pos 0;
      speed = p.speed;
      climb = div (of_int p.climb_rate) (of_int (pos 10));
      course = p.heading;
      last_update = unix p.last_update;
      track_online = p.track_online;
      battery = p.battery;
    })
  ]

  unfoldable pub convert_thermal_to_protobuf : Thermal F → Option (PbThermal F)
  convert_thermal_to_protobuf t = elim t.position [
    | none ↦ none
    | some q ↦ some (record {
      id = 0;
      addr = 0;
      position = some q;
      altitude = pos 0;
      quality = to_unsigned (2 ^ 31) t.quality;
      climb = t.climb_rate;
      wind_speed = of_int (pos t.wind_speed);
      wind_heading = of_int (pos t.wind_direction);
      timestamp = unix t.timestamp;
    })
  ]

  unfoldable pub convert_station_to_protobuf : Station F → Option (PbStation F)
  convert_station_to_protobuf s = elim s.position [
    | none ↦ none
    | some q ↦ some (record {
      addr = 0;
      name = s.name;
      position = some (flat q);
      temperature = of_int s.temperature;
      wind_speed = of_int (pos s.wind_speed);
      wind_heading = of_int (pos s.wind_direction);
      wind_gusts = of_int (pos s.wind_gusts);
      humidity = s.humidity;
      pressure = of_int (pos s.pressure);
      battery = s.battery;
      last_update = unix s.last_update;
    })
  ]
