-- ===== src/Mqtt/Parser/RoundTrip.antt =====
-- The bit layout of an air tracking packet (ai-spec/mqtt/message-format.md) as an encoder, against
-- `parseAirTracking` of internal/mqtt/parser.go.
use flybeeper_com_map_fanet.Prelude.{
  ℕ, ◌+◌, ◌*◌, ◌/◌, ◌%◌, ◌≤◌, ◌<◌, ◌≡◌, ap, Bool, List, [], ◌∷◌, arith, ℤ, pos, negsuc, pos_part,
  neg_part, to_signed, to_unsigned, to_signed-to_unsigned, scale, if◌then◌else◌, Float,
}
use flybeeper_com_map_fanet.Mqtt.Bytes.{ok}
use flybeeper_com_map_fanet.Mqtt.Parser.Fields.{
  has_bit, sign24, air_altitude, air_type, air_online, air_speed, air_climb, air_heading,
  latitude_of, longitude_of,
}
use flybeeper_com_map_fanet.Mqtt.Parser.Packets.{parse_air_tracking}

-- The contents of a packet: raw coordinates, and the steps of each quantity with its scale bit.
pub record Fix : Type 0 where
  pub lat : ℤ
  pub lon : ℤ
  pub altitude : ℕ
  pub altitude_scaled : Bool
  pub kind : ℕ
  pub online : Bool
  pub speed : ℕ
  pub speed_scaled : Bool
  pub climb : ℤ
  pub climb_scaled : Bool
  pub heading : ℕ

pub record Fits (f : Fix) : Type 0 where
  pub lat_lt : pos_part f.lat < 8388608
  pub lat_ge : neg_part f.lat ≤ 8388608
  pub lon_lt : pos_part f.lon < 8388608
  pub lon_ge : neg_part f.lon ≤ 8388608
  pub altitude_lt : f.altitude < 2048
  pub kind_lt : f.kind < 8
  pub speed_lt : f.speed < 128
  pub climb_lt : pos_part f.climb < 64
  pub climb_ge : neg_part f.climb ≤ 64
  pub heading_lt : f.heading < 256

abbrev pub flag : Bool → ℕ → ℕ
flag b mask = if b then mask else 0

abbrev pub alt_status : Fix → ℕ
alt_status f = f.altitude + flag f.altitude_scaled 2048 + f.kind * 4096 + flag f.online 32768

unfoldable pub encode_air : Fix → List ℕ
encode_air f =
    let lat = to_unsigned 8388608 f.lat in
    let lon = to_unsigned 8388608 f.lon in
    let status = alt_status f in
    let speed = f.speed + flag f.speed_scaled 128 in
    let climb = to_unsigned 64 f.climb + flag f.climb_scaled 128 in
    lat % 256
    ∷ lat / 256 % 256
    ∷ lat / 65536
    ∷ lon % 256
    ∷ lon / 256 % 256
    ∷ lon / 65536
    ∷ status % 256
    ∷ status / 256
    ∷ speed
    ∷ climb
    ∷ f.heading
    ∷ []

bytes24 : (n : ℕ) → n % 256 + n / 256 % 256 * 256 + n / 65536 * 65536 ≡ n
bytes24 n = omega arith

bytes16 : (n : ℕ) → n % 256 + n / 256 * 256 ≡ n
bytes16 n = omega arith

climb_bits :
    (z : ℤ) (b : Bool)
    → pos_part z < 64
    → neg_part z ≤ 64
    → (to_signed 64 ((to_unsigned 64 z + flag b 128) % 128) ≡ z)
      × (has_bit (to_unsigned 64 z + flag b 128) 128 ≡ b)
climb_bits (pos n) b h k = ground arith
climb_bits (negsuc n) b h k = ground arith

module _ (f : Fix) (fits : Fits f) where
  air_altitude-alt_status :
      air_altitude (alt_status f) ≡ pos (if f.altitude_scaled then f.altitude * 4 else f.altitude)
  unfolding air_altitude
  air_altitude-alt_status = ground arith

  air_type-alt_status : air_type (alt_status f) ≡ f.kind
  unfolding air_type
  air_type-alt_status = ground arith

  air_online-alt_status : air_online (alt_status f) ≡ f.online
  unfolding air_online
  air_online-alt_status = ground arith

  air_speed-encode :
      air_speed (f.speed + flag f.speed_scaled 128)
      ≡ (if f.speed_scaled then f.speed * 5 / 2 else f.speed / 2)
  unfolding air_speed
  air_speed-encode = ground arith

  air_climb-encode :
      air_climb (to_unsigned 64 f.climb + flag f.climb_scaled 128)
      ≡ (if f.climb_scaled then scale f.climb 5 else f.climb)
  unfolding air_climb
  air_climb-encode =
      let (value, bit) = climb_bits f.climb f.climb_scaled fits.climb_lt fits.climb_ge in
      rw (value, bit)

module _ {F : Type 0} ⦃fl : Float F⦄ (z : ℤ) (lt : pos_part z < 8388608)
    (ge : neg_part z ≤ 8388608) where
  latitude_of-to_unsigned :
      latitude_of (to_unsigned 8388608 z) ≡ fl.div (fl.of_int z) (fl.decimal 9320604 2)
  unfolding latitude_of sign24
  latitude_of-to_unsigned =
      ap (λ x. fl.div (fl.of_int x) (fl.decimal 9320604 2)) (to_signed-to_unsigned 8388608 z lt ge)

  longitude_of-to_unsigned :
      longitude_of (to_unsigned 8388608 z) ≡ fl.div (fl.of_int z) (fl.decimal 4660302 2)
  unfolding longitude_of sign24
  longitude_of-to_unsigned =
      ap (λ x. fl.div (fl.of_int x) (fl.decimal 4660302 2)) (to_signed-to_unsigned 8388608 z lt ge)

-- A packet that is laid out as Type 1 of ai-spec/mqtt/message-format.md says (ai-spec/mqtt/topics.md
-- has another layout, which is not meant here) is decoded to its contents: the coordinates are the raw ones over 93206.04 and 46603.02, and each scaled quantity counts four times (the
-- altitude) or five times (speed, climb). The speed is in half km/h steps, the heading in 256ths of
-- a turn, both rounded down.
pub parse_air_tracking-encode_air :
    {F : Type 0} ⦃fl : Float F⦄ (f : Fix)
    → Fits f
    → parse_air_tracking {F = F} (encode_air f)
      ≡ ok (record {
        latitude = fl.div (fl.of_int f.lat) (fl.decimal 9320604 2);
        longitude = fl.div (fl.of_int f.lon) (fl.decimal 4660302 2);
        altitude = pos (if f.altitude_scaled then f.altitude * 4 else f.altitude);
        speed = if f.speed_scaled then f.speed * 5 / 2 else f.speed / 2;
        heading = f.heading * 360 / 256;
        climb_rate = if f.climb_scaled then scale f.climb 5 else f.climb;
        turn_rate = pos 0;
        aircraft_type = f.kind;
        online_tracking = f.online;
      })
unfolding parse_air_tracking encode_air air_heading
parse_air_tracking-encode_air f fits = rw (
  bytes24 (to_unsigned 8388608 f.lat),
  bytes24 (to_unsigned 8388608 f.lon),
  bytes16 (alt_status f),
  latitude_of-to_unsigned f.lat fits.lat_lt fits.lat_ge,
  longitude_of-to_unsigned f.lon fits.lon_lt fits.lon_ge,
  air_altitude-alt_status f fits,
  air_type-alt_status f fits,
  air_online-alt_status f fits,
  air_speed-encode f fits,
  air_climb-encode f fits,
)
