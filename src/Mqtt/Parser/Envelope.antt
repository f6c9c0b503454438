-- ===== src/Mqtt/Parser/Envelope.antt =====
-- `Parse` of internal/mqtt/parser.go: the topic, the base station's wrapper, and the dispatch on the
-- packet type. An error of a packet's method is logged and leaves the payload nil.
use flybeeper_com_map_fanet.Prelude.{
  ℕ, ◌+◌, ◌-◌, ◌*◌, ◌/◌, ◌%◌, ◌&&◌, List, [], ◌∷◌, ltb, ◌==◌, if◌then◌else◌, length, drop, bytes_eq,
  Float,
}
use flybeeper_com_map_fanet.Mqtt.Bytes.{
  Outcome, ok, err, panic, ◌>>=◌, at, le32, invalid_topic, payload_too_short, packet_too_short,
}
use flybeeper_com_map_fanet.Mqtt.Messages.{Message, Payload}
use flybeeper_com_map_fanet.Mqtt.Parser.Fields.{int16}
use flybeeper_com_map_fanet.Mqtt.Parser.Packets.{
  raw16, raw24, parse_name, parse_hw_info, parse_new_hw_info, parse_air_tracking,
  parse_ground_tracking, parse_thermal,
}
use flybeeper_com_map_fanet.Mqtt.Parser.Service.{parse_service}

-- Adds a byte to the first part, or opens a part at a slash.
unfoldable pub split_step : ℕ → List (List ℕ) → List (List ℕ)
split_step c [] = (c ∷ []) ∷ []
split_step c (part ∷ parts) = if c == b'/' then [] ∷ part ∷ parts else (c ∷ part) ∷ parts

-- `strings.Split(topic, "/")`
unfoldable pub split_topic : List ℕ → List (List ℕ)
unfolding split_step
split_topic [] = [] ∷ []
split_topic (c ∷ cs) = split_step c (split_topic cs)

pub record Topic : Type 0 where
  pub chip_id : List ℕ
  pub packet_type : List ℕ

-- The test of the parts `fb/b/{chip_id}/f/{packet_type}`.
unfoldable pub topic_of_parts : List (List ℕ) → Outcome Topic
topic_of_parts (p0 ∷ p1 ∷ p2 ∷ p3 ∷ p4 ∷ []) =
    if bytes_eq p0 (b'f' ∷ b'b' ∷ []) && bytes_eq p1 (b'b' ∷ []) && bytes_eq p3 (b'f' ∷ [])
    then ok (record { chip_id = p2; packet_type = p4 })
    else err invalid_topic
topic_of_parts _ = err invalid_topic

-- A digit of `%X`.
unfoldable pub hex_digit : ℕ → ℕ
hex_digit d = if ltb d 10 then b'0' + d else b'A' + (d - 10)

-- `fmt.Sprintf("%06X", deviceAddr)`
unfoldable pub device_id_of : ℕ → List ℕ
device_id_of a =
    hex_digit (a / 1048576)
    ∷ hex_digit (a / 65536 % 16)
    ∷ hex_digit (a / 4096 % 16)
    ∷ hex_digit (a / 256 % 16)
    ∷ hex_digit (a / 16 % 16)
    ∷ hex_digit (a % 16)
    ∷ []

module _ {F : Type 0} ⦃fl : Float F⦄ where
  -- `if parsed, err := …; err == nil { msg.Data = parsed }`
  abbrev pub keep_parsed {ℓ} : {A : Type ℓ} → (A → Payload F) → Outcome A → Outcome (Payload F)
  keep_parsed f (ok a) = ok (f a)
  keep_parsed f (err e) = ok Payload.none
  keep_parsed f panic = panic

  -- The switch on the message type, for a packet with more than a header.
  unfoldable pub parse_payload : ℕ → List ℕ → Outcome (Payload F)
  parse_payload type bytes =
      if type == 1
      then keep_parsed Payload.air_tracking (parse_air_tracking bytes)
      else if type == 2
      then keep_parsed Payload.name (parse_name bytes)
      else if type == 4
      then keep_parsed Payload.service (parse_service bytes)
      else if type == 7
      then keep_parsed Payload.ground_tracking (parse_ground_tracking bytes)
      else if type == 8
      then keep_parsed Payload.hw_info (parse_hw_info bytes)
      else if type == 9
      then keep_parsed Payload.thermal (parse_thermal bytes)
      else if type == 10
      then keep_parsed Payload.new_hw_info (parse_new_hw_info bytes)
      else ok Payload.none

  -- The message that `Parse` builds, its time in nanoseconds: `time.Unix(timestamp, 0)`.
  abbrev pub message_of : Topic → ℕ → ℕ → ℕ → List ℕ → ℕ → ℕ → Payload F → Message F
  message_of topic timestamp rssi snr fanet header addr parsed = record {
    type = header % 64;
    device_id = device_id_of addr;
    chip_id = topic.chip_id;
    packet_type = topic.packet_type;
    timestamp = timestamp * 1_000_000_000;
    rssi = int16 rssi;
    snr = int16 snr;
    raw_payload = fanet;
    payload = parsed;
  }

  -- The payload of a packet that is longer than its header and address.
  unfoldable pub payload_of : ℕ → List ℕ → Outcome (Payload F)
  payload_of type fanet =
      if ltb 4 (length fanet) then parse_payload type (drop 4 fanet) else ok Payload.none

  -- The packet's header and address, and its payload.
  unfoldable pub parse_packet : Topic → ℕ → ℕ → ℕ → List ℕ → Outcome (Message F)
  parse_packet topic timestamp rssi snr fanet =
      if ltb (length fanet) 4 then err (packet_too_short (length fanet)) else (do
        header ← at fanet 0
        addr ← raw24 fanet 1
        parsed ← payload_of (header % 64) fanet
        ok (message_of topic timestamp rssi snr fanet header addr parsed))

  -- The base station's wrapper, after the topic and the length of the payload are checked.
  unfoldable pub parse_wrapped : Topic → List ℕ → Outcome (Message F)
  parse_wrapped topic payload = do
    t0 ← at payload 0
    t1 ← at payload 1
    t2 ← at payload 2
    t3 ← at payload 3
    rssi ← raw16 payload 4
    snr ← raw16 payload 6
    parse_packet topic (le32 t0 t1 t2 t3) rssi snr (drop 8 payload)

  unfoldable pub parse : List ℕ → List ℕ → Outcome (Message F)
  parse topic payload = do
    t ← topic_of_parts (split_topic topic)
    (if ltb (length payload) 12
        then err (payload_too_short (length payload))
        else parse_wrapped t payload)
