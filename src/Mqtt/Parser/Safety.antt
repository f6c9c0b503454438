-- ===== src/Mqtt/Parser/Safety.antt =====
-- The reads that the methods of internal/mqtt/parser.go make of their slices, and their bounds.
use flybeeper_com_map_fanet.Prelude.{
  ℕ, zero, suc, ◌+◌, ◌≤◌, ◌<◌, ◌≡◌, ◌≢◌, refl, inl, inr, List, [], ◌∷◌, arith, ltb, length, drop,
  Float, Bool-cases, if_both, ◌%◌, ◌==◌,
}
use flybeeper_com_map_fanet.Mqtt.Bytes.{Outcome, ok, err, panic, ◌>>=◌, at, le16, le24}
use flybeeper_com_map_fanet.Mqtt.Messages.{Payload}
use flybeeper_com_map_fanet.Mqtt.Parser.Packets.{
  raw16, raw24, parse_name, parse_hw_info, parse_new_hw_info, parse_air_tracking,
  parse_ground_tracking, parse_thermal,
}
use flybeeper_com_map_fanet.Mqtt.Parser.Service.{
  Scan, scan_temperature, scan_wind, scan_humidity, scan_pressure, scan_battery, scan_weather,
  parse_service,
}
use flybeeper_com_map_fanet.Mqtt.Parser.Envelope.{
  Topic, parse_payload, parse_packet, payload_of, message_of, keep_parsed,
}

pub at-ok : (bytes : List ℕ) (i : ℕ) → i < length bytes → (b : ℕ) × (at bytes i ≡ ok b)
at-ok [] i h = absurd (omega arith)
at-ok (x ∷ xs) zero h = (x, refl)
at-ok (x ∷ xs) (suc i) h = at-ok xs i (omega arith)

pub raw16-ok : (bytes : List ℕ) (i : ℕ) → i + 1 < length bytes → (n : ℕ) × (raw16 bytes i ≡ ok n)
raw16-ok bytes i h =
    let (b0, e0) = at-ok bytes i (omega arith) in
    let (b1, e1) = at-ok bytes (i + 1) h in (le16 b0 b1, ground arith)

pub raw24-ok : (bytes : List ℕ) (i : ℕ) → i + 2 < length bytes → (n : ℕ) × (raw24 bytes i ≡ ok n)
raw24-ok bytes i h =
    let (b0, e0) = at-ok bytes i (omega arith) in
    let (b1, e1) = at-ok bytes (i + 1) (omega arith) in
    let (b2, e2) = at-ok bytes (i + 2) h in (le24 b0 b1 b2, ground arith)

-- A sequence panics nowhere if its first part does not, nor what follows any value of it.
pub >>=-ne-panic {ℓ κ} :
    {A : Type ℓ} {B : Type κ} (m : Outcome A) (f : A → Outcome B)
    → m ≢ panic
    → ((a : A) → f a ≢ panic)
    → (m >>= f) ≢ panic
>>=-ne-panic (ok a) f h k = k a
>>=-ne-panic (err e) f h k = λ p. cc
>>=-ne-panic panic f h k = absurd (h refl)

parse_hw_info-ne-panic : (bytes : List ℕ) → parse_hw_info bytes ≢ panic
unfolding parse_hw_info
parse_hw_info-ne-panic bytes = ground (arith, at-ok bytes 0, at-ok bytes 1)

parse_new_hw_info-ne-panic : (bytes : List ℕ) → parse_new_hw_info bytes ≢ panic
unfolding parse_new_hw_info
parse_new_hw_info-ne-panic bytes = ground (arith, at-ok bytes 0, at-ok bytes 1)

parse_name-ne-panic : (bytes : List ℕ) → parse_name bytes ≢ panic
unfolding parse_name
parse_name-ne-panic bytes = ground arith

module _ {F : Type 0} ⦃fl : Float F⦄ where
  -- Whatever its length, no packet makes the method for its type read out of range.
  parse_air_tracking-ne-panic : (bytes : List ℕ) → parse_air_tracking {F = F} bytes ≢ panic
  unfolding parse_air_tracking
  parse_air_tracking-ne-panic bytes = ground (
    arith,
    raw24-ok bytes 0,
    raw24-ok bytes 3,
    raw16-ok bytes 6,
    at-ok bytes 8,
    at-ok bytes 9,
    at-ok bytes 10,
  )

  parse_ground_tracking-ne-panic : (bytes : List ℕ) → parse_ground_tracking {F = F} bytes ≢ panic
  unfolding parse_ground_tracking
  parse_ground_tracking-ne-panic bytes =
      ground (arith, raw24-ok bytes 0, raw24-ok bytes 3, raw16-ok bytes 6, raw16-ok bytes 8)

  parse_thermal-ne-panic : (bytes : List ℕ) → parse_thermal {F = F} bytes ≢ panic
  unfolding parse_thermal
  parse_thermal-ne-panic bytes =
      ground (
        arith,
        raw24-ok bytes 0,
        raw24-ok bytes 3,
        raw16-ok bytes 6,
        at-ok bytes 8,
        raw16-ok bytes 9,
      )

  module _ (header : ℕ) (bytes : List ℕ) where
    scan_temperature-ne-panic : (s : Scan F) → scan_temperature header bytes s ≢ panic
    unfolding scan_temperature
    scan_temperature-ne-panic s = ground (arith, at-ok bytes s.offset)

    scan_wind-ne-panic : (s : Scan F) → scan_wind header bytes s ≢ panic
    unfolding scan_wind
    scan_wind-ne-panic s =
        ground (arith, at-ok bytes s.offset, at-ok bytes (s.offset + 1), at-ok bytes (s.offset + 2))

    scan_humidity-ne-panic : (s : Scan F) → scan_humidity header bytes s ≢ panic
    unfolding scan_humidity
    scan_humidity-ne-panic s = ground (arith, at-ok bytes s.offset)

    scan_pressure-ne-panic : (s : Scan F) → scan_pressure header bytes s ≢ panic
    unfolding scan_pressure
    scan_pressure-ne-panic s = ground (arith, raw16-ok bytes s.offset)

    scan_battery-ne-panic : (s : Scan F) → scan_battery header bytes s ≢ panic
    unfolding scan_battery
    scan_battery-ne-panic s = ground (arith, at-ok bytes s.offset)

    scan_weather-ne-panic : scan_weather {F = F} header bytes ≢ panic
    unfolding scan_weather
    scan_weather-ne-panic = >>=-ne-panic _ _ (scan_temperature-ne-panic _) (λ s1.
        >>=-ne-panic _ _ (scan_wind-ne-panic s1) (λ s2.
          >>=-ne-panic _ _ (scan_humidity-ne-panic s2)
            (λ s3. >>=-ne-panic _ _ (scan_pressure-ne-panic s3) scan_battery-ne-panic)))

  parse_service-ne-panic : (bytes : List ℕ) → parse_service {F = F} bytes ≢ panic
  unfolding parse_service
  parse_service-ne-panic bytes = elim (Bool-cases (ltb (length bytes) 7)) [
    | inl short ↦ ground arith
    | inr long ↦
        let (header, _) = at-ok bytes 0 (ground arith) in
        ground (
          arith,
          at-ok bytes 0,
          raw24-ok bytes 1,
          raw24-ok bytes 4,
          scan_weather-ne-panic header bytes,
        )
  ]

  keep_parsed-ok {ℓ} :
      {A : Type ℓ} (f : A → Payload F) (o : Outcome A)
      → o ≢ panic
      → (p : Payload F) × (keep_parsed f o ≡ ok p)
  keep_parsed-ok f (ok a) h = (f a, refl)
  keep_parsed-ok f (err e) h = (Payload.none, refl)
  keep_parsed-ok f panic h = absurd (h refl)

  -- An error of a packet's method is not passed on.
  pub parse_payload-ok :
      (type : ℕ) (bytes : List ℕ) → (p : Payload F) × (parse_payload type bytes ≡ ok p)
  unfolding parse_payload
  parse_payload-ok type bytes =
      let P = λ (o : Outcome (Payload F)). (p : Payload F) × (o ≡ ok p) in
      if_both P (type == 1)
        (keep_parsed-ok Payload.air_tracking _ (parse_air_tracking-ne-panic bytes))
        (if_both P (type == 2) (keep_parsed-ok Payload.name _ (parse_name-ne-panic bytes)) (
          if_both P (type == 4) (keep_parsed-ok Payload.service _ (parse_service-ne-panic bytes)) (
            if_both P (type == 7)
              (keep_parsed-ok Payload.ground_tracking _ (parse_ground_tracking-ne-panic bytes))
              (if_both P (type == 8)
                (keep_parsed-ok Payload.hw_info _ (parse_hw_info-ne-panic bytes))
                (if_both P (type == 9)
                  (keep_parsed-ok Payload.thermal _ (parse_thermal-ne-panic bytes))
                  (if_both P (type == 10)
                    (keep_parsed-ok Payload.new_hw_info _ (parse_new_hw_info-ne-panic bytes))
                    (Payload.none, refl)))))))

  pub payload_of-ok : (type : ℕ) (fanet : List ℕ) → (p : Payload F) × (payload_of type fanet ≡ ok p)
  unfolding payload_of
  payload_of-ok type fanet =
      let P = λ (o : Outcome (Payload F)). (p : Payload F) × (o ≡ ok p) in
      if_both P (ltb 4 (length fanet)) (parse_payload-ok type (drop 4 fanet)) (Payload.none, refl)

  pub parse_packet-ok :
      (topic : Topic) (timestamp rssi snr : ℕ) (fanet : List ℕ)
      → 4 ≤ length fanet
      → (header addr : ℕ) × (p : Payload F) × (payload_of (header % 64) fanet ≡ ok p)
        × (at fanet 0 ≡ ok header)
        × (raw24 fanet 1 ≡ ok addr)
        × (parse_packet topic timestamp rssi snr fanet
            ≡ ok (message_of topic timestamp rssi snr fanet header addr p))
  unfolding parse_packet
  parse_packet-ok topic timestamp rssi snr fanet h =
      let (header, eh) = at-ok fanet 0 (omega arith) in
      let (addr, ea) = raw24-ok fanet 1 (omega arith) in
      let (p, ep) = payload_of-ok (header % 64) fanet in (header, addr, p, ep, eh, ea, ground arith)
