-- ===== src/Mqtt/Parser/Packets.antt =====
-- The methods of internal/mqtt/parser.go for the packet types, each with the reads of its slice,
-- which panic out of range. Debug logging is left out.
use flybeeper_com_map_fanet.Prelude.{
  ℕ, ◌+◌, leb, List, pos, ltb, ◌==◌, if◌then◌else◌, length, take, Float,
}
use flybeeper_com_map_fanet.Mqtt.Bytes.{
  Outcome, ok, err, ◌>>=◌, at, le16, le24, name_empty, air_too_short, ground_too_short,
  thermal_too_short, hw_info_too_short, new_hw_info_too_short,
}
use flybeeper_com_map_fanet.Mqtt.Messages.{AirTracking, GroundTracking, ThermalData, HwInfo}
use flybeeper_com_map_fanet.Mqtt.Parser.Fields.{
  int16, air_altitude, air_type, air_online, air_speed, air_climb, air_heading, ground_speed,
  ground_heading, trim_right, latitude_of, longitude_of,
}

-- `int32(data[i]) | int32(data[i+1])<<8 | int32(data[i+2])<<16`
abbrev pub raw24 : List ℕ → ℕ → Outcome ℕ
raw24 bytes i = do b0 ← at bytes i; b1 ← at bytes (i + 1); b2 ← at bytes (i + 2); ok (le24 b0 b1 b2)

-- `binary.LittleEndian.Uint16(data[i:i+2])`
abbrev pub raw16 : List ℕ → ℕ → Outcome ℕ
raw16 bytes i = do b0 ← at bytes i; b1 ← at bytes (i + 1); ok (le16 b0 b1)

-- A name of more than 64 bytes is cut, and its trailing null bytes are dropped.
unfoldable pub parse_name : List ℕ → Outcome (List ℕ)
parse_name bytes =
    if length bytes == 0
    then err name_empty
    else ok (trim_right (if ltb 64 (length bytes) then take 64 bytes else bytes))

unfoldable pub parse_hw_info : List ℕ → Outcome HwInfo
parse_hw_info bytes = if ltb (length bytes) 1 then err (hw_info_too_short (length bytes)) else (do
  device ← at bytes 0
  maker ← (if leb 2 (length bytes) then at bytes 1 else ok 0)
  ok (record { manufacturer = maker; device_type = device }))

unfoldable pub parse_new_hw_info : List ℕ → Outcome HwInfo
parse_new_hw_info bytes =
    if ltb (length bytes) 2 then err (new_hw_info_too_short (length bytes)) else (do
      maker ← at bytes 0
      device ← at bytes 1
      ok (record { manufacturer = maker; device_type = device }))

module _ {F : Type 0} ⦃fl : Float F⦄ where
  open fl use {of_int, decimal, div, mul, add}

  unfoldable pub parse_air_tracking : List ℕ → Outcome (AirTracking F)
  parse_air_tracking bytes =
      if ltb (length bytes) 11 then err (air_too_short (length bytes)) else (do
        lat_raw ← raw24 bytes 0
        lon_raw ← raw24 bytes 3
        alt_status ← raw16 bytes 6
        speed_raw ← at bytes 8
        climb_raw ← at bytes 9
        heading_raw ← at bytes 10
        ok (record {
          latitude = latitude_of lat_raw;
          longitude = longitude_of lon_raw;
          altitude = air_altitude alt_status;
          speed = air_speed speed_raw;
          heading = air_heading heading_raw;
          climb_rate = air_climb climb_raw;
          turn_rate = pos 0;
          aircraft_type = air_type alt_status;
          online_tracking = air_online alt_status;
        }))

  unfoldable pub parse_ground_tracking : List ℕ → Outcome (GroundTracking F)
  parse_ground_tracking bytes =
      if ltb (length bytes) 10 then err (ground_too_short (length bytes)) else (do
        lat_raw ← raw24 bytes 0
        lon_raw ← raw24 bytes 3
        alt_raw ← raw16 bytes 6
        speed_heading ← raw16 bytes 8
        ok (record {
          latitude = latitude_of lat_raw;
          longitude = longitude_of lon_raw;
          altitude = int16 alt_raw;
          speed = ground_speed speed_heading;
          heading = ground_heading speed_heading;
        }))

  -- The climb rate is read only if the packet holds it; the fields that the packet does not hold
  -- keep Go's zero values.
  unfoldable pub parse_thermal : List ℕ → Outcome (ThermalData F)
  parse_thermal bytes =
      if ltb (length bytes) 13 then err (thermal_too_short (length bytes)) else (do
        lat_raw ← raw24 bytes 0
        lon_raw ← raw24 bytes 3
        alt_raw ← raw16 bytes 6
        quality ← at bytes 8
        climb_raw ← (if leb 11 (length bytes) then raw16 bytes 9 else ok 0)
        ok (record {
          latitude = latitude_of lat_raw;
          longitude = longitude_of lon_raw;
          altitude = pos alt_raw;
          climb_rate = int16 climb_raw;
          strength = quality;
          radius = 0;
        }))
