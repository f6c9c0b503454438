-- ===== src/Mqtt/Parser/Service.antt =====
-- `parseService` of internal/mqtt/parser.go: a service header whose bits say which fields follow. The
-- variables `offset`, `weather` and `hasWeatherData` are threaded through one step for each flag.
use flybeeper_com_map_fanet.Prelude.{
  ℕ, ◌+◌, ◌/◌, Bool, true, false, ◌&&◌, none, some, List, pos, ltb, if◌then◌else◌, length, Float,
}
use flybeeper_com_map_fanet.Mqtt.Bytes.{Outcome, ok, err, ◌>>=◌, at, service_too_short}
use flybeeper_com_map_fanet.Mqtt.Messages.{WeatherData, ServiceData}
use flybeeper_com_map_fanet.Mqtt.Parser.Fields.{
  has_bit, int8, wind_direction, battery_level, latitude_of, longitude_of,
}
use flybeeper_com_map_fanet.Mqtt.Parser.Packets.{raw16, raw24}

pub record Scan (F : Type 0) : Type 0 where
  pub offset : ℕ
  pub weather : WeatherData F
  pub found : Bool

module _ {F : Type 0} ⦃fl : Float F⦄ where
  open fl use {of_int, decimal, div, mul, add}

  -- `&WeatherData{}` with `offset := 7`
  abbrev pub start : Scan F
  start = record {
    offset = 7;
    weather = record {
      temperature = of_int (pos 0);
      wind_speed = of_int (pos 0);
      wind_direction = 0;
      wind_gusts = of_int (pos 0);
      humidity = 0;
      pressure = of_int (pos 0);
      battery = 0;
    };
    found = false;
  }

  unfoldable pub scan_temperature : ℕ → List ℕ → Scan F → Outcome (Scan F)
  scan_temperature header bytes s =
      if has_bit header 64 && ltb s.offset (length bytes)
      then (do
        b ← at bytes s.offset
        ok (record s {
          offset = s.offset + 1;
          weather = record s.weather { temperature = div (of_int (int8 b)) (decimal 20 1) };
          found = true;
        }))
      else ok s

  unfoldable pub scan_wind : ℕ → List ℕ → Scan F → Outcome (Scan F)
  scan_wind header bytes s =
      if has_bit header 32 && ltb (s.offset + 2) (length bytes)
      then (do
        dir ← at bytes s.offset
        speed ← at bytes (s.offset + 1)
        gusts ← at bytes (s.offset + 2)
        ok (record s {
          offset = s.offset + 3;
          weather = record s.weather {
            wind_direction = wind_direction dir;
            wind_speed = mul (of_int (pos speed)) (decimal 2 1);
            wind_gusts = mul (of_int (pos gusts)) (decimal 2 1);
          };
          found = true;
        }))
      else ok s

  unfoldable pub scan_humidity : ℕ → List ℕ → Scan F → Outcome (Scan F)
  scan_humidity header bytes s =
      if has_bit header 16 && ltb s.offset (length bytes)
      then (do
        b ← at bytes s.offset
        ok (record s {
          offset = s.offset + 1;
          weather = record s.weather { humidity = b / 4 };
          found = true;
        }))
      else ok s

  unfoldable pub scan_pressure : ℕ → List ℕ → Scan F → Outcome (Scan F)
  scan_pressure header bytes s =
      if has_bit header 8 && ltb (s.offset + 1) (length bytes)
      then (do
        p ← raw16 bytes s.offset
        ok (record s {
          offset = s.offset + 2;
          weather = record s.weather {
            pressure = add (div (of_int (pos p)) (decimal 100 1)) (decimal 4300 1);
          };
          found = true;
        }))
      else ok s

  unfoldable pub scan_battery : ℕ → List ℕ → Scan F → Outcome (Scan F)
  scan_battery header bytes s =
      if has_bit header 2 && ltb s.offset (length bytes)
      then (do
        b ← at bytes s.offset
        ok (record s {
          offset = s.offset + 1;
          weather = record s.weather { battery = battery_level b };
          found = true;
        }))
      else ok s

  -- The five optional fields, in the order of the code.
  unfoldable pub scan_weather : ℕ → List ℕ → Outcome (Scan F)
  scan_weather header bytes = do
    s1 ← scan_temperature header bytes start
    s2 ← scan_wind header bytes s1
    s3 ← scan_humidity header bytes s2
    s4 ← scan_pressure header bytes s3
    scan_battery header bytes s4

  unfoldable pub parse_service : List ℕ → Outcome (ServiceData F)
  parse_service bytes = if ltb (length bytes) 7 then err (service_too_short (length bytes)) else (do
    header ← at bytes 0
    lat_raw ← raw24 bytes 1
    lon_raw ← raw24 bytes 4
    s ← scan_weather header bytes
    ok (record {
      service_header = header;
      latitude = latitude_of lat_raw;
      longitude = longitude_of lon_raw;
      weather = if s.found then some s.weather else none;
    }))
