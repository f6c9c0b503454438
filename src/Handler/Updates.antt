-- ===== src/Handler/Updates.antt =====
-- `UpdatePacket` of internal/handler/broadcast.go with what is read of it, and `BroadcastUpdate` of
-- internal/handler/websocket.go. `print` is `fmt.Sprintf("%d", ...)`.
use flybeeper_com_map_fanet.Prelude.{
  ℕ, ◌*◌, ◌^◌, false, Option, none, some, String, pos, to_signed, Float,
}
use flybeeper_com_map_fanet.Models.Points.{GeoPoint}
use flybeeper_com_map_fanet.Models.Pilots.{Pilot}
use flybeeper_com_map_fanet.Models.Thermals.{Thermal}
use flybeeper_com_map_fanet.Models.Stations.{Station}
use flybeeper_com_map_fanet.Models.Protos.{pilot_to_proto, thermal_to_proto, station_to_proto}
use flybeeper_com_map_fanet.Wire.{
  PbPilot, PbThermal, PbStation, UpdateType, Content, pilot, ground_object, thermal, station,
  pilot_data, thermal_data, station_data, other_data, Action,
}

pub record UpdatePacket (F : Type 0) : Type 0 where
  pub type : UpdateType
  pub pilot_model : Option (Pilot F)
  pub thermal_model : Option (Thermal F)
  pub station_model : Option (Station F)
  pub timestamp : ℕ

-- `time.Unix(t, 0)`, in nanoseconds.
abbrev pub from_unix : ℕ → ℕ
from_unix t = t * 1_000_000_000

module _ {F : Type 0} ⦃fl : Float F⦄ (print : ℕ → String) where
  open fl use {of_int}

  abbrev packet_pilot : PbPilot F → Option (GeoPoint F) → Option (Pilot F)
  packet_pilot v none = none
  packet_pilot v (some q) = some (record {
    device_id = "";
    address = v.name;
    name = v.name;
    type = 0;
    position = some (record q { altitude = v.altitude });
    speed = v.speed;
    climb_rate = pos 0;
    heading = v.course;
    last_update = from_unix v.last_update;
    last_seen = none;
    track_online = false;
    battery = 0;
    last_movement = none;
    tracking_distance = of_int (pos 0);
    visibility_status = "";
  })

  abbrev packet_thermal : PbThermal F → Option (GeoPoint F) → Option (Thermal F)
  packet_thermal v none = none
  packet_thermal v (some q) = some (record {
    id = print v.id;
    reported_by = "";
    position = some (record q { altitude = v.altitude });
    quality = to_signed (2 ^ 31) v.quality;
    climb_rate = v.climb;
    pilot_count = pos 0;
    wind_speed = 0;
    wind_direction = 0;
    timestamp = from_unix v.timestamp;
    last_seen = none;
  })

  abbrev packet_station : PbStation F → Option (GeoPoint F) → Option (Station F)
  packet_station v none = none
  packet_station v (some q) = some (record {
    id = print v.addr;
    chip_id = "";
    name = v.name;
    position = some (record q { altitude = pos 0 });
    temperature = pos 0;
    wind_speed = 0;
    wind_direction = 0;
    wind_gusts = 0;
    humidity = 0;
    pressure = 0;
    battery = 0;
    last_update = from_unix v.last_update;
    last_seen = none;
  })

  -- The packet that `BroadcastUpdate` hands to the hub, or none for other data.
  unfoldable pub broadcast_update : UpdateType → Action → Content F → ℕ → Option (UpdatePacket F)
  broadcast_update type action (pilot_data v) now = some (record {
    type = type;
    pilot_model = packet_pilot v v.position;
    thermal_model = none;
    station_model = none;
    timestamp = now;
  })
  broadcast_update type action (thermal_data v) now = some (record {
    type = type;
    pilot_model = none;
    thermal_model = packet_thermal v v.position;
    station_model = none;
    timestamp = now;
  })
  broadcast_update type action (station_data v) now = some (record {
    type = type;
    pilot_model = none;
    thermal_model = none;
    station_model = packet_station v v.position;
    timestamp = now;
  })
  broadcast_update type action other_data now = none

module _ {F : Type 0} ⦃fl : Float F⦄ where
  open fl use {of_int}

  abbrev place : Option (GeoPoint F) → F × F
  place none = (of_int (pos 0), of_int (pos 0))
  place (some q) = (q.latitude, q.longitude)

  -- `lat` and `lon` of an update, which are zero where it has no position.
  unfoldable pub coordinates : UpdatePacket F → F × F
  coordinates u = elim u.type [
    | pilot ↦ place (elim u.pilot_model [ none ↦ none | some p ↦ p.position ])
    | thermal ↦ place (elim u.thermal_model [ none ↦ none | some t ↦ t.position ])
    | station ↦ place (elim u.station_model [ none ↦ none | some s ↦ s.position ])
    | ground_object ↦ place none
  ]

  -- The object's id and its message, where the packet has the object of its type; the outer none is the
  -- panic of `ToProto` for a thermal without position.
  unfoldable pub object_of : UpdatePacket F → Option (Option (String × Content F))
  object_of u = elim u.type [
    | pilot ↦ elim u.pilot_model [
      | none ↦ some none
      | some p ↦ some (some (p.address, pilot_data (pilot_to_proto p)))
    ]
    | thermal ↦ elim u.thermal_model [
      | none ↦ some none
      | some t ↦ elim (thermal_to_proto t) [
        | none ↦ none
        | some v ↦ some (some (t.id, thermal_data v))
      ]
    ]
    | station ↦ elim u.station_model [
      | none ↦ some none
      | some s ↦ some (some (s.chip_id, station_data (station_to_proto s)))
    ]
    | ground_object ↦ some none
  ]
