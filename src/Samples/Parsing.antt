-- ===== src/Samples/Parsing.antt =====
-- A packet of a paraglider over the Alps, as a base station wraps it.
use flybeeper_com_map_fanet.Samples.Numbers.{whole}
use flybeeper_com_map_fanet.Prelude.{
  take, drop, ℕ, ◌≡◌, ◌≤◌, ◌<◌, ◌+◌, refl, true, false, List, [], ◌∷◌, arith, pos, negsuc, ℤ,
  length, ◌⊎◌, ◌↔◌, bytes_eq,
}
use flybeeper_com_map_fanet.Mqtt.Bytes.{ok}
use flybeeper_com_map_fanet.Mqtt.Messages.{AirTracking, Message, Payload}
use flybeeper_com_map_fanet.Mqtt.Parser.Fields.{
  sign24, air_altitude, air_type, air_online, air_speed, air_climb, air_heading, latitude_of,
  longitude_of, int16, wind_direction, battery_level,
}
use flybeeper_com_map_fanet.Mqtt.Parser.Packets.{parse_air_tracking}
use flybeeper_com_map_fanet.Mqtt.Parser.Envelope.{
  Topic, parse, parse_wrapped, parse_packet, payload_of, split_step, split_topic, topic_of_parts,
  hex_digit, device_id_of,
}
use flybeeper_com_map_fanet.Mqtt.Parser.Topics.{IsTopic, topic_iff}
use flybeeper_com_map_fanet.Mqtt.Parser.RoundTrip.{
  Fix, Fits, encode_air, parse_air_tracking-encode_air,
}
use flybeeper_com_map_fanet.Mqtt.Parser.Addresses.{parse-tells_apart}
use flybeeper_com_map_fanet.Mqtt.Parser.Ranges.{
  IsInRange, parse_air_tracking-IsInRange, wind_direction-wraps, battery_level-wraps,
}

-- 46.5 N, 10.0 E, 2400 m, 36 km/h, sinking with 1.2 m/s, to the east.
abbrev alps : Fix
alps = record {
  lat = pos 4334080;
  lon = pos 466030;
  altitude = 600;
  altitude_scaled = true;
  kind = 1;
  online = true;
  speed = 72;
  speed_scaled = false;
  climb = negsuc 11;
  climb_scaled = false;
  heading = 64;
}

alps-Fits : Fits alps
alps-Fits = record {
  lat_lt = omega arith;
  lat_ge = omega arith;
  lon_lt = omega arith;
  lon_ge = omega arith;
  altitude_lt = omega arith;
  kind_lt = omega arith;
  speed_lt = omega arith;
  climb_lt = omega arith;
  climb_ge = omega arith;
  heading_lt = omega arith;
}

abbrev decoded : AirTracking ℤ
decoded = record {
  latitude = pos 46;
  longitude = pos 10;
  altitude = pos 2400;
  speed = 36;
  heading = 90;
  climb_rate = negsuc 11;
  turn_rate = pos 0;
  aircraft_type = 1;
  online_tracking = true;
}

parse_air_tracking-encode_air_example : parse_air_tracking (encode_air alps) ≡ ok decoded
unfolding encode_air parse_air_tracking sign24 air_altitude air_type air_online air_speed air_climb
    air_heading latitude_of longitude_of
parse_air_tracking-encode_air_example = parse_air_tracking-encode_air ⦃fl = whole⦄ alps alps-Fits

parse_air_tracking-IsInRange_example : IsInRange decoded × (11 ≤ length (encode_air alps))
unfolding encode_air parse_air_tracking sign24 air_altitude air_type air_online air_speed air_climb
    air_heading latitude_of longitude_of
parse_air_tracking-IsInRange_example =
    parse_air_tracking-IsInRange (encode_air alps) (omega arith)
      (parse_air_tracking-encode_air ⦃fl = whole⦄ alps alps-Fits)

abbrev topic : List ℕ
topic = b'f' ∷ b'b' ∷ b'/' ∷ b'b' ∷ b'/' ∷ b'8' ∷ b'A' ∷ b'/' ∷ b'f' ∷ b'/' ∷ b'1' ∷ []

-- Eight bytes of the station and a packet of the header alone.
abbrev payload : List ℕ
payload = 0 ∷ 1 ∷ 2 ∷ 3 ∷ 206 ∷ 255 ∷ 7 ∷ 0 ∷ 1 ∷ 33 ∷ 67 ∷ 101 ∷ []

abbrev chip_8A : Topic
chip_8A = record { chip_id = b'8' ∷ b'A' ∷ []; packet_type = b'1' ∷ [] }

topic_iff_example : (topic_of_parts (split_topic topic) ≡ ok chip_8A) ↔ IsTopic chip_8A topic
topic_iff_example = topic_iff topic chip_8A

wind_direction-wraps_example : wind_direction 200 + 256 ≡ 281
unfolding wind_direction
wind_direction-wraps_example = wind_direction-wraps 200 (omega arith)

battery_level-wraps_example :
    (battery_level 15 ≤ 16)
    × (((15 ≤ 2) × (battery_level 15 ≡ 100)) ⊎ ((3 ≤ 15) × (battery_level 15 < 100)))
battery_level-wraps_example = battery_level-wraps 15

-- The answer of `Parse` for the packet of the header alone.
abbrev bare : Message ℤ
bare = record {
  type = 1;
  device_id = b'6' ∷ b'5' ∷ b'4' ∷ b'3' ∷ b'2' ∷ b'1' ∷ [];
  chip_id = b'8' ∷ b'A' ∷ [];
  packet_type = b'1' ∷ [];
  timestamp = 50_462_976_000_000_000;
  rssi = negsuc 49;
  snr = pos 7;
  raw_payload = 1 ∷ 33 ∷ 67 ∷ 101 ∷ [];
  payload = Payload.none;
}

parse-bare : parse {F = ℤ} topic payload ≡ ok bare
unfolding parse parse_wrapped parse_packet payload_of split_step split_topic topic_of_parts
    hex_digit device_id_of int16 bytes_eq
parse-bare = refl

-- The same packet, a second later.
abbrev payload_later : List ℕ
payload_later = 1 ∷ 1 ∷ 2 ∷ 3 ∷ 206 ∷ 255 ∷ 7 ∷ 0 ∷ 1 ∷ 33 ∷ 67 ∷ 101 ∷ []

parse_later :
    parse {F = ℤ} topic payload_later ≡ ok (record bare { timestamp = 50_462_977_000_000_000 })
unfolding parse parse_wrapped parse_packet payload_of split_step split_topic topic_of_parts
    hex_digit device_id_of int16 bytes_eq
parse_later = refl

parse-tells_apart_example : take 3 (drop 9 payload) ≡ take 3 (drop 9 payload_later)
parse-tells_apart_example =
    parse-tells_apart topic topic payload payload_later (omega arith) (omega arith) parse-bare
      parse_later refl
