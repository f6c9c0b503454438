-- ===== src/Mqtt/Parser/Addresses.antt =====
-- The bytes of a packet that `Parse` of internal/mqtt/parser.go makes a device's identifier of.
use flybeeper_com_map_fanet.Prelude.{
  ℕ, ◌+◌, ◌*◌, ◌<◌, ◌≡◌, refl, subst, sym, ◌∙◌, inl, inr, List, [], ◌∷◌, arith, take, drop, Float,
}
use flybeeper_com_map_fanet.Mqtt.Bytes.{ok, IsBytes}
use flybeeper_com_map_fanet.Mqtt.Messages.{Message}
use flybeeper_com_map_fanet.Mqtt.Parser.Envelope.{device_id_of, parse, Topic}
use flybeeper_com_map_fanet.Mqtt.Parser.Accepts.{Reads, parse_outcomes}
use flybeeper_com_map_fanet.Mqtt.Parser.Ranges.{device_id_of-injective}

-- The three bytes of the address, and the identifier that they make.
abbrev HasAddress : List ℕ → List ℕ → Type 0
HasAddress payload device_id =
    (a0 a1 a2 : ℕ) × (take 3 (drop 9 payload) ≡ a0 ∷ a1 ∷ a2 ∷ [])
    × (device_id ≡ device_id_of (a0 + a1 * 256 + a2 * 65_536))
    × (a0 < 256)
    × (a1 < 256)
    × (a2 < 256)

module _ {F : Type 0} ⦃fl : Float F⦄ where
  Reads-HasAddress :
      (t : Topic) (payload : List ℕ) (m : Message F)
      → IsBytes payload
      → Reads t payload m
      → HasAddress payload m.device_id
  Reads-HasAddress t (t0 ∷ t1 ∷ t2 ∷ t3 ∷ r0 ∷ r1 ∷ s0 ∷ s1 ∷ header ∷ a0 ∷ a1 ∷ a2 ∷ rest) m h
        (chip, type, time, rssi, snr, raw, six, id, content) =
      (a0, a1, a2, refl, id, omega arith, omega arith, omega arith)
  Reads-HasAddress t _ m h r = absurd r

  parse-HasAddress :
      (topic payload : List ℕ) (m : Message F)
      → IsBytes payload
      → parse topic payload ≡ ok m
      → HasAddress payload m.device_id
  parse-HasAddress topic payload m h e = elim (parse_outcomes {F = F} topic payload) [
    | inl bad ↦ absurd (cc (e, bad.0))
    | inr (t, formed, inl short) ↦ absurd (cc (e, short.1))
    | inr (t, formed, inr (long, (m', e', r))) ↦
        let same : m' ≡ m = ground (arith, e, e') in
        Reads-HasAddress t payload m h (subst (Reads t payload) same r)
  ]

  -- Two payloads of bytes, on any topics, that `Parse` accepts with one device identifier have the same
  -- three address bytes 9 to 11: devices of different addresses are never taken for one.
  pub parse-tells_apart :
      (topic topic' payload payload' : List ℕ) {m m' : Message F}
      → IsBytes payload
      → IsBytes payload'
      → parse topic payload ≡ ok m
      → parse topic' payload' ≡ ok m'
      → m.device_id ≡ m'.device_id
      → take 3 (drop 9 payload) ≡ take 3 (drop 9 payload')
  parse-tells_apart topic topic' payload payload' {m} {m'} h h' e e' same =
      let (a0, a1, a2, bytes, id, l0, l1, l2) = parse-HasAddress topic payload m h e in
      let (b0, b1, b2, bytes', id', k0, k1, k2) = parse-HasAddress topic' payload' m' h' e' in
      let sum : a0 + a1 * 256 + a2 * 65_536 ≡ b0 + b1 * 256 + b2 * 65_536 =
        device_id_of-injective _ _ (omega arith) (omega arith) (sym id ∙ same ∙ id') in
      let e0 : a0 ≡ b0 = omega arith in
      let e1 : a1 ≡ b1 = omega arith in
      let e2 : a2 ≡ b2 = omega arith in cc (bytes, bytes', e0, e1, e2)
