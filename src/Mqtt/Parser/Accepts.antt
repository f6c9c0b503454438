-- ===== src/Mqtt/Parser/Accepts.antt =====
-- Which topics and payloads `Parse` of internal/mqtt/parser.go accepts, and what it answers.
use flybeeper_com_map_fanet.Prelude.{
  false, ℕ, ◌+◌, ◌-◌, ◌*◌, ◌%◌, ℤ, pos, negsuc, if◌then◌else◌, ◌≤◌, ◌<◌, ◌≡◌, refl, ◌⊎◌, inl, inr,
  List, [], ◌∷◌, arith, ltb, length, Float, Bool-cases, if_both, bytes_eq, ◌&&◌,
}
use flybeeper_com_map_fanet.Mqtt.Bytes.{Outcome, ok, err, le32, invalid_topic, payload_too_short}
use flybeeper_com_map_fanet.Mqtt.Messages.{Message}
use flybeeper_com_map_fanet.Mqtt.Parser.Fields.{int16}
use flybeeper_com_map_fanet.Mqtt.Parser.Envelope.{
  Topic, topic_of_parts, split_topic, parse, parse_wrapped, parse_packet, message_of, payload_of,
  device_id_of,
}
use flybeeper_com_map_fanet.Mqtt.Parser.Safety.{payload_of-ok}
use flybeeper_com_map_fanet.Mqtt.Parser.Topics.{IsTopic, topic_iff}

-- The number of a 16-bit word in two's complement.
abbrev pub twos_complement : ℕ → ℤ
twos_complement n = if ltb n 32_768 then pos n else negsuc (65_535 - n)

topic_of_parts-cases :
    (parts : List (List ℕ))
    → (topic_of_parts parts ≡ err invalid_topic) ⊎ ((t : Topic) × (topic_of_parts parts ≡ ok t))
unfolding topic_of_parts
topic_of_parts-cases (p0 ∷ p1 ∷ p2 ∷ p3 ∷ p4 ∷ []) =
    if_both (λ (o : Outcome Topic). (o ≡ err invalid_topic) ⊎ ((t : Topic) × (o ≡ ok t)))
      (bytes_eq p0 (b'f' ∷ b'b' ∷ []) && bytes_eq p1 (b'b' ∷ []) && bytes_eq p3 (b'f' ∷ []))
      (inr (_, refl)) (inl refl)
topic_of_parts-cases _ = inl refl

module _ {F : Type 0} ⦃fl : Float F⦄ where
  -- A message that holds what the topic, the wrapper's eight bytes and the packet's four say.
  abbrev pub Reads : Topic → List ℕ → Message F → Type 0
  Reads t (t0 ∷ t1 ∷ t2 ∷ t3 ∷ r0 ∷ r1 ∷ s0 ∷ s1 ∷ header ∷ a0 ∷ a1 ∷ a2 ∷ rest) m =
      (m.chip_id ≡ t.chip_id)
      × (m.packet_type ≡ t.packet_type)
      × (m.timestamp ≡ (t0 + t1 * 256 + t2 * 65_536 + t3 * 16_777_216) * 1_000_000_000)
      × (m.rssi ≡ twos_complement (r0 + r1 * 256))
      × (m.snr ≡ twos_complement (s0 + s1 * 256))
      × (m.raw_payload ≡ header ∷ a0 ∷ a1 ∷ a2 ∷ rest)
      × (m.type ≡ header % 64)
      × (m.device_id ≡ device_id_of (a0 + a1 * 256 + a2 * 65_536))
      × (payload_of (header % 64) (header ∷ a0 ∷ a1 ∷ a2 ∷ rest) ≡ ok m.payload)
  Reads t _ m = ⊥

  parse_wrapped-ok :
      (t : Topic) (payload : List ℕ)
      → 12 ≤ length payload
      → (m : Message F) × (parse_wrapped t payload ≡ ok m) × Reads t payload m
  unfolding parse_wrapped parse_packet int16
  parse_wrapped-ok t (t0 ∷ t1 ∷ t2 ∷ t3 ∷ r0 ∷ r1 ∷ s0 ∷ s1 ∷ header ∷ a0 ∷ a1 ∷ a2 ∷ rest) h =
      let fanet = header ∷ a0 ∷ a1 ∷ a2 ∷ rest in
      let long : ltb (length fanet) 4 ≡ false = ground arith in
      let (p, ep) = payload_of-ok (header % 64) fanet in
      (
        message_of t (le32 t0 t1 t2 t3) (r0 + r1 * 256) (s0 + s1 * 256) fanet header
            (a0 + a1 * 256 + a2 * 65_536) p,
        rw (long, ep) refl,
        (refl, refl, refl, refl, refl, refl, refl, refl, ep),
      )
  parse_wrapped-ok t _ h = absurd (omega arith)

  pub parse_outcomes :
      (topic payload : List ℕ)
      → ((parse {F = F} topic payload ≡ err invalid_topic) × ((t : Topic) → ¬ IsTopic t topic))
        ⊎ ((t : Topic) × IsTopic t topic
            × (((length payload < 12)
                  × (parse {F = F} topic payload ≡ err (payload_too_short (length payload))))
                ⊎ ((12 ≤ length payload)
                    × ((m : Message F) × (parse topic payload ≡ ok m) × Reads t payload m))))
  unfolding parse
  parse_outcomes topic payload = elim (topic_of_parts-cases (split_topic topic)) [
    | inl bad ↦ inl (rw bad, λ t h. cc (bad, (topic_iff topic t).1 h))
    | inr (t, good) ↦ inr (
      t,
      (topic_iff topic t).0 good,
      elim (Bool-cases (ltb (length payload) 12)) [
        | inl short ↦ inl (ground arith, ground arith)
        | inr long ↦
            let (m, em, r) = parse_wrapped-ok t payload (ground arith) in
            inr (ground arith, (m, ground arith, r))
      ],
    )
  ]
