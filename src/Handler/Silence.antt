-- ===== src/Handler/Silence.antt =====
-- What the messages of the hub can carry, for updates that come through `BroadcastUpdate` of
-- internal/handler/websocket.go.
use flybeeper_com_map_fanet.Prelude.{
  ℕ, ◌≡◌, refl, Bool, true, false, ◌||◌, not, Option, Option-cases, none, some, List, [], ◌∷◌,
  String, arith, str_eq, insert, All, Dict, Bool-cases, inl, inr, Float,
}
use flybeeper_com_map_fanet.Handler.Updates.{UpdatePacket, broadcast_update, object_of}
use flybeeper_com_map_fanet.Handler.Sending.{Update, Codec, collect, is_taken}
use flybeeper_com_map_fanet.Models.Protos.{thermal_to_proto, pilot_to_proto}
use flybeeper_com_map_fanet.Wire.{
  update, UpdateType, Action, Content, pilot_data, thermal_data, station_data, other_data,
}

-- A pilot with a name or a thermal.
abbrev pub is_audible : {F : Type 0} → Content F → Bool
is_audible (pilot_data v) = not (str_eq v.name "")
is_audible (thermal_data v) = true
is_audible (station_data v) = false
is_audible other_data = false

-- What the hub makes of a packet can be sent only if it is audible.
abbrev pub is_quiet : {F : Type 0} → Option (Option (String × Content F)) → Bool
is_quiet none = false
is_quiet (some none) = true
is_quiet (some (some (id, content))) = str_eq id "" || is_audible content

module _ {F : Type 0} ⦃fl : Float F⦄ (print : ℕ → String) where
  abbrev pub quiet_packet : Option (UpdatePacket F) → Bool
  quiet_packet none = true
  quiet_packet (some u) = is_quiet (object_of u)

  pub broadcast_update-IsQuiet :
      (t : UpdateType) (a : Action) (content : Content F) (now : ℕ)
      → quiet_packet (broadcast_update print t a content now) ≡ true
  unfolding broadcast_update object_of thermal_to_proto pilot_to_proto
  broadcast_update-IsQuiet t a content now = ground arith

module _ {F : Type 0} ⦃fl : Float F⦄ where
  abbrev pub IsQuiet : UpdatePacket F → Type 0
  IsQuiet u = is_quiet (object_of u) ≡ true

-- An update about a pilot with a name or a thermal, sent as a change of it.
abbrev pub IsAudible : {F : Type 0} → Update F → Type 0
IsAudible up = (is_audible up.content ≡ true) × (up.action ≡ update)

module _ {F : Type 0} ⦃fl : Float F⦄ (codec : Codec F) where
  taken-audible :
      (seen : Dict Bool) (id : String) (content : Content F)
      → is_quiet (some (some (id, content))) ≡ true
      → is_taken codec seen id content ≡ true
      → is_audible content ≡ true
  unfolding is_taken
  taken-audible seen id content quiet taken = ground arith

  pub collect-IsQuiet :
      (seen : Dict Bool) (us : List (UpdatePacket F))
      → All IsQuiet us
      → (batch : List (Update F)) × (collect codec seen us ≡ some batch) × All IsAudible batch
  unfolding collect
  collect-IsQuiet seen [] h = ([], refl, tt)
  collect-IsQuiet seen (u ∷ us) (q, h) = elim (Option-cases (object_of u)) [
    | inl e ↦ absurd (ground arith)
    | inr (none, e) ↦
        let (batch, same, loud) = collect-IsQuiet seen us h in
        (batch, rw (collect, e, same) refl, loud)
    | inr (some (id, content), e) ↦ elim (Bool-cases (is_taken codec seen id content)) [
      | inl t ↦
          let (batch, same, loud) = collect-IsQuiet (insert id true seen) us h in
          (
            record { type = u.type; action = update; content = content } ∷ batch,
            rw (collect, e, t, same) refl,
            ((taken-audible seen id content (rw e at q) t, refl), loud),
          )
      | inr t ↦
          let (batch, same, loud) = collect-IsQuiet seen us h in
          (batch, rw (collect, e, t, same) refl, loud)
    ]
  ]

-- A call of `BroadcastUpdate`, and the packets that such calls hand to the hub.
pub record Offer (F : Type 0) : Type 0 where
  pub type : UpdateType
  pub action : Action
  pub content : Content F
  pub time : ℕ

module _ {F : Type 0} ⦃fl : Float F⦄ (print : ℕ → String) where
  abbrev pub prepend : Option (UpdatePacket F) → List (UpdatePacket F) → List (UpdatePacket F)
  prepend none us = us
  prepend (some u) us = u ∷ us

  abbrev pub packets_of : List (Offer F) → List (UpdatePacket F)
  packets_of [] = []
  packets_of (o ∷ os) =
      prepend (broadcast_update print o.type o.action o.content o.time) (packets_of os)

  prepend-IsQuiet :
      (o : Option (UpdatePacket F)) (us : List (UpdatePacket F))
      → quiet_packet print o ≡ true
      → All IsQuiet us
      → All IsQuiet (prepend o us)
  prepend-IsQuiet none us q h = h
  prepend-IsQuiet (some u) us q h = (q, h)

  packets_of-IsQuiet : (offers : List (Offer F)) → All IsQuiet (packets_of offers)
  packets_of-IsQuiet [] = tt
  packets_of-IsQuiet (o ∷ os) =
      prepend-IsQuiet (broadcast_update print o.type o.action o.content o.time) (packets_of os)
        (broadcast_update-IsQuiet print o.type o.action o.content o.time) (packets_of-IsQuiet os)

  -- For whatever calls of BroadcastUpdate, marshaller and ids seen before: making up the message of
  -- their packets does not panic, and every update in it is a thermal or a pilot with a name and has
  -- the action "update": no message has a station, a pilot without a name, or a removal.
  pub collect-audible :
      (codec : Codec F) (seen : Dict Bool) (offers : List (Offer F))
      → (batch : List (Update F)) × (collect codec seen (packets_of offers) ≡ some batch)
        × All (λ u. (is_audible u.content ≡ true) × (u.action ≡ update)) batch
  collect-audible codec seen offers =
      collect-IsQuiet codec seen (packets_of offers) (packets_of-IsQuiet offers)
