-- ===== src/Mqtt/Parser/Ranges.antt =====
-- The ranges of the decoded fields, the reduction of two products of the weather fields to a
-- narrow type, and the text of a device's address (internal/mqtt/parser.go).
use flybeeper_com_map_fanet.Prelude.{
  leb, Bool-cases, ◌⊎◌, inl, inr, ℕ, zero, suc, ◌+◌, ◌-◌, ◌*◌, ◌/◌, ◌%◌, ◌≤◌, ◌<◌, ◌≡◌, ap, ◌∙◌,
  sym, List, [], ◌∷◌, arith, ltb, pos, pos_part, neg_part, length, if◌then◌else◌, Float,
}
use flybeeper_com_map_fanet.Mqtt.Bytes.{ok, at, IsBytes}
use flybeeper_com_map_fanet.Mqtt.Messages.{AirTracking}
use flybeeper_com_map_fanet.Mqtt.Parser.Fields.{
  air_altitude, air_type, air_speed, air_climb, air_heading, wind_direction, battery_level,
}
use flybeeper_com_map_fanet.Mqtt.Parser.Packets.{parse_air_tracking}
use flybeeper_com_map_fanet.Mqtt.Parser.Envelope.{device_id_of, hex_digit}

-- The compass course of a raw wind direction, in 256ths of a turn.
abbrev course : ℕ → ℕ
course raw = raw * 360 / 256

-- `wind_direction` is the course for the raw values below 183. From there on the 16-bit product
-- wraps, and the answer is 256 degrees too small.
pub wind_direction-wraps :
    (raw : ℕ) → raw < 256 → wind_direction raw + (if ltb raw 183 then 0 else 256) ≡ course raw
unfolding wind_direction
wind_direction-wraps raw h = ground arith

-- The level of a battery in percent, in fifteenths.
abbrev percent : ℕ → ℕ
percent steps = steps * 100 / 15

-- The battery's level is 100/15 percent for each step only for the values 0, 1 and 2; for every
-- other value the 8-bit product wraps, and the answer is less than the true level. No battery is
-- ever reported above 16 percent.
pub battery_level-wraps :
    (raw : ℕ)
    → (battery_level raw ≤ 16)
      × (((raw % 16 ≤ 2) × (battery_level raw ≡ percent (raw % 16)))
          ⊎ ((3 ≤ raw % 16) × (battery_level raw < percent (raw % 16))))
unfolding battery_level
battery_level-wraps raw = (
  omega arith,
  elim (Bool-cases (leb (raw % 16) 2)) [
    | inl small ↦ inl (ground arith, ground arith)
    | inr large ↦ inr (ground arith, ground arith)
  ],
)

air_heading-lt : (raw : ℕ) → raw < 256 → air_heading raw < 360
unfolding air_heading
air_heading-lt raw h = omega arith

air_speed-le : (raw : ℕ) → air_speed raw ≤ 317
unfolding air_speed
air_speed-le raw = ground arith

air_altitude-le : (n : ℕ) → (pos_part (air_altitude n) ≤ 8188) × (neg_part (air_altitude n) ≡ 0)
unfolding air_altitude
air_altitude-le n = ground arith

air_climb-le : (raw : ℕ) → (pos_part (air_climb raw) ≤ 315) × (neg_part (air_climb raw) ≤ 320)
unfolding air_climb
air_climb-le raw = ground arith

-- The value of a digit of `%X`.
hex_value : ℕ → ℕ
hex_value c = if ltb c b'A' then c - b'0' else c - b'A' + 10

hex_value-hex_digit : (d : ℕ) → d < 16 → hex_value (hex_digit d) ≡ d
unfolding hex_value hex_digit
hex_value-hex_digit d h = ground arith

-- The number that a list of digits stands for, after `a`.
abbrev read_hex : ℕ → List ℕ → ℕ
read_hex a [] = a
read_hex a (c ∷ cs) = read_hex (a * 16 + hex_value c) cs

-- A 24-bit address is read back from the six digits of its identifier.
read_hex-device_id_of : (a : ℕ) → a < 16777216 → read_hex 0 (device_id_of a) ≡ a
unfolding device_id_of
read_hex-device_id_of a h = omega (
  arith,
  hex_value-hex_digit (a / 1048576),
  hex_value-hex_digit (a / 65536 % 16),
  hex_value-hex_digit (a / 4096 % 16),
  hex_value-hex_digit (a / 256 % 16),
  hex_value-hex_digit (a / 16 % 16),
  hex_value-hex_digit (a % 16),
)

-- Two 24-bit addresses with one identifier are the same address.
pub device_id_of-injective :
    (a b : ℕ) → a < 16777216 → b < 16777216 → device_id_of a ≡ device_id_of b → a ≡ b
device_id_of-injective a b ha hb e =
    sym (read_hex-device_id_of a ha) ∙ ap (read_hex 0) e ∙ read_hex-device_id_of b hb

at-lt : (bytes : List ℕ) (i : ℕ) {b : ℕ} → IsBytes bytes → at bytes i ≡ ok b → b < 256
at-lt [] i h e = absurd (cc)
at-lt (x ∷ xs) zero h e = ground arith
at-lt (x ∷ xs) (suc i) h e = at-lt xs i h.1 e

-- What every decoded air tracking packet satisfies, in the units of `AirTrackingData`.
pub record IsInRange {F : Type 0} (a : AirTracking F) : Type 0 where
  pub altitude_nonneg : neg_part a.altitude ≡ 0
  pub altitude_le : pos_part a.altitude ≤ 8188
  pub speed_le : a.speed ≤ 317
  pub heading_lt : a.heading < 360
  pub climb_le : pos_part a.climb_rate ≤ 315
  pub climb_ge : neg_part a.climb_rate ≤ 320
  pub type_lt : a.aircraft_type < 8
  pub turn_rate_zero : a.turn_rate ≡ pos 0

air_type-lt : (n : ℕ) → air_type n < 8
unfolding air_type
air_type-lt n = omega arith

-- Every air tracking packet of bytes that is decoded has an altitude from 0 to 8188 m, a speed up
-- to 317 km/h, a heading below 360 degrees, a climb rate from -320 to 315 (in 0.1 m/s), an aircraft
-- type below 8, and the turn rate 0, which is never
-- read; a packet of fewer than 11 bytes is not decoded.
pub parse_air_tracking-IsInRange :
    {F : Type 0} ⦃fl : Float F⦄ (bytes : List ℕ) {a : AirTracking F}
    → IsBytes bytes
    → parse_air_tracking bytes ≡ ok a
    → IsInRange a × (11 ≤ length bytes)
unfolding parse_air_tracking
parse_air_tracking-IsInRange (b0 ∷ b1 ∷ b2 ∷ b3 ∷ b4 ∷ b5 ∷ b6 ∷ b7 ∷ b8 ∷ b9 ∷ b10 ∷ rest) {a} h
      e =
    ground (
      arith,
      air_altitude-le (b6 + b7 * 256),
      air_type-lt (b6 + b7 * 256),
      air_speed-le b8,
      air_climb-le b9,
      air_heading-lt b10,
    )
parse_air_tracking-IsInRange _ h e = absurd (cc)
