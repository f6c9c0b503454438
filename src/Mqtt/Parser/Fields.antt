-- ===== src/Mqtt/Parser/Fields.antt =====
-- The fields of a packet from its raw bytes, as internal/mqtt/parser.go computes them. A mask of
-- low bits is a remainder, a shift a quotient. The `float32` products of the speed and the heading
-- are exact (their values need at most 17 bits), so that their conversions to `uint16` are floors.
use flybeeper_com_map_fanet.Prelude.{
  ℕ, zero, ◌*◌, ◌/◌, ◌%◌, Bool, List, [], ◌∷◌, ℤ, pos, to_signed, scale, ◌==◌, if◌then◌else◌, Float,
}

-- `x & (1 << k) != 0`, for a mask of one bit.
abbrev pub has_bit : ℕ → ℕ → Bool
has_bit x mask = (x / mask) % 2 == 1

-- The sign extension of a 24-bit value.
unfoldable pub sign24 : ℕ → ℤ
sign24 raw = to_signed 8388608 raw

-- `int8`, `int16` conversions of unsigned bytes.
unfoldable pub int8 : ℕ → ℤ
int8 b = to_signed 128 b

unfoldable pub int16 : ℕ → ℤ
int16 n = to_signed 32768 n

-- Bits 10-0 of `alt_status`, times 4 if bit 11 is set.
unfoldable pub air_altitude : ℕ → ℤ
air_altitude alt_status =
    let alt_raw = alt_status % 2048 in
    pos (if has_bit alt_status 2048 then alt_raw * 4 else alt_raw)

unfoldable pub air_type : ℕ → ℕ
air_type alt_status = (alt_status / 4096) % 8

unfoldable pub air_online : ℕ → Bool
air_online alt_status = has_bit alt_status 32768

-- Units of 0.5 km/h, times 5 if bit 7 is set.
unfoldable pub air_speed : ℕ → ℕ
air_speed raw =
    let speed_val = raw % 128 in if has_bit raw 128 then speed_val * 5 / 2 else speed_val / 2

-- A signed 7-bit value, times 5 if bit 7 is set.
unfoldable pub air_climb : ℕ → ℤ
air_climb raw =
    let climb_val = to_signed 64 (raw % 128) in
    if has_bit raw 128 then scale climb_val 5 else climb_val

unfoldable pub air_heading : ℕ → ℕ
air_heading raw = raw * 360 / 256

-- `uint16(windDir) * 360 / 256`: the product is reduced to 16 bits before the division.
unfoldable pub wind_direction : ℕ → ℕ
wind_direction raw = (raw * 360) % 65536 / 256

-- `uint8(batteryRaw) * 100 / 15`: the product is reduced to 8 bits before the division.
unfoldable pub battery_level : ℕ → ℕ
battery_level raw = ((raw % 16) * 100) % 256 / 15

unfoldable pub ground_speed : ℕ → ℕ
ground_speed speed_heading = (speed_heading / 64) % 1024

unfoldable pub ground_heading : ℕ → ℕ
ground_heading speed_heading = (speed_heading % 64) * 6

cons_unless_null : ℕ → List ℕ → List ℕ
cons_unless_null zero [] = []
cons_unless_null c cs = c ∷ cs

-- `strings.TrimRight(name, "\x00")`
unfoldable pub trim_right : List ℕ → List ℕ
unfolding cons_unless_null
trim_right [] = []
trim_right (c ∷ cs) = cons_unless_null c (trim_right cs)

module _ {F : Type 0} ⦃fl : Float F⦄ where
  open fl use {of_int, decimal, div}

  unfoldable pub latitude_of : ℕ → F
  latitude_of raw = div (of_int (sign24 raw)) (decimal 9320604 2)

  unfoldable pub longitude_of : ℕ → F
  longitude_of raw = div (of_int (sign24 raw)) (decimal 4660302 2)
