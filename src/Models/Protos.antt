-- ===== src/Models/Protos.antt =====
-- The methods `ToProto` of internal/models. A read through a nil pointer is none.
use flybeeper_com_map_fanet.Prelude.{ℕ, ◌/◌, ◌^◌, Option, none, some, pos, to_unsigned, Float}
use flybeeper_com_map_fanet.Models.Points.{GeoPoint}
use flybeeper_com_map_fanet.Models.Pilots.{Pilot}
use flybeeper_com_map_fanet.Models.Thermals.{Thermal}
use flybeeper_com_map_fanet.Models.Stations.{Station}
use flybeeper_com_map_fanet.Models.Grounds.{GroundObject}
use flybeeper_com_map_fanet.Wire.{PbPilot, PbThermal, PbStation, PbGroundObject}

-- `Time.Unix`, of nanoseconds.
abbrev pub unix : ℕ → ℕ
unix t = t / 1_000_000_000

module _ {F : Type 0} where
  -- A position without its altitude.
  abbrev pub flat : GeoPoint F → GeoPoint F
  flat q = record q { altitude = pos 0 }

module _ {F : Type 0} ⦃fl : Float F⦄ where
  open fl use {of_int, div}

  abbrev float : ℕ → F
  float n = of_int (pos n)

  unfoldable pub pilot_to_proto : Pilot F → PbPilot F
  pilot_to_proto p = record {
    addr = 0;
    name = p.name;
    type = p.type;
    position = p.position;
    altitude = pos 0;
    speed = p.speed;
    climb = div (of_int p.climb_rate) (float 10);
    course = p.heading;
    last_update = unix p.last_update;
    track_online = p.track_online;
    battery = p.battery;
  }

  unfoldable pub thermal_to_proto : Thermal F → Option (PbThermal F)
  thermal_to_proto t = elim t.position [
    | none ↦ none
    | some q ↦ some (record {
      id = 0;
      addr = 0;
      position = some q;
      altitude = pos 0;
      quality = to_unsigned (2 ^ 31) t.quality;
      climb = t.climb_rate;
      wind_speed = float t.wind_speed;
      wind_heading = float t.wind_direction;
      timestamp = unix t.timestamp;
    })
  ]

  unfoldable pub station_to_proto : Station F → PbStation F
  station_to_proto s = record {
    addr = 0;
    name = s.name;
    position = elim s.position [ none ↦ none | some q ↦ some (flat q) ];
    temperature = of_int s.temperature;
    wind_speed = float s.wind_speed;
    wind_heading = float s.wind_direction;
    wind_gusts = float s.wind_gusts;
    humidity = s.humidity;
    pressure = float s.pressure;
    battery = s.battery;
    last_update = unix s.last_update;
  }

  unfoldable pub ground_to_proto : GroundObject F → PbGroundObject F
  ground_to_proto g = record {
    addr = 0;
    name = g.name;
    type = g.type;
    position = elim g.position [ none ↦ none | some q ↦ some (flat q) ];
    track_online = g.track_online;
    last_update = unix g.last_update;
  }
