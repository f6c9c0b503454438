-- ===== src/Handler/Sending.antt =====
-- `broadcastToGroup` and `processBatch` of internal/handler/broadcast.go. `proto.Marshal` is an
-- argument, as the messages that it accepts; the numbers and times that only stamp a message are left
-- out. A client's channel `send`, of 256 messages, is a list, the next message first. A map is walked
-- in the order of its first writes.
use flybeeper_com_map_fanet.Prelude.{
  ℕ, suc, ◌+◌, Bool, true, false, ◌&&◌, ◌||◌, not, Option, none, some, List, [], ◌∷◌, ◌++◌, String,
  str_eq, ltb, ◌==◌, length, lookup, insert, found, if◌then◌else◌, Dict, Float,
}
use flybeeper_com_map_fanet.Models.Points.{distance_km}
use flybeeper_com_map_fanet.Geo.Geohash.{encode}
use flybeeper_com_map_fanet.Handler.Groups.{Group, ClientInfo, Rooms}
use flybeeper_com_map_fanet.Handler.Updates.{UpdatePacket, coordinates, object_of}
use flybeeper_com_map_fanet.Wire.{UpdateType, Action, update, Content}

pub record Update (F : Type 0) : Type 0 where
  pub type : UpdateType
  pub action : Action
  pub content : Content F

-- What the marshaller accepts, and the text of a geohash.
pub record Codec (F : Type 0) : Type 0 where
  pub marshals : Content F → Bool
  pub marshals_batch : List (Update F) → Bool
  pub text : List ℕ → String

abbrev pub send_capacity : ℕ
send_capacity = 256

-- A channel that was never written is empty.
abbrev pub messages_of : {M : Type 0} → Option (List M) → List M
messages_of none = []
messages_of (some ms) = ms

-- The `select` that sends or gives up, and whether it sent.
unfoldable pub try_send : {M : Type 0} → String → M → Dict (List M) → Dict (List M) × Bool
try_send client m sends =
    let queue = messages_of (lookup client sends) in
    if ltb (length queue) send_capacity
    then (insert client (queue ++ m ∷ []) sends, true)
    else (sends, false)

module _ {F : Type 0} ⦃fl : Float F⦄ (codec : Codec F) where
  -- One update: skipped if it has no id, one that was seen, or one that cannot be marshalled.
  unfoldable pub is_taken : Dict Bool → String → Content F → Bool
  is_taken seen id content =
      not (str_eq id "") && not (found (lookup id seen)) && codec.marshals content

  -- `updateBatch.Updates`, and none where `ToProto` panics.
  unfoldable pub collect : Dict Bool → List (UpdatePacket F) → Option (List (Update F))
  collect seen [] = some []
  collect seen (u ∷ us) = elim (object_of u) [
    | none ↦ none
    | some none ↦ collect seen us
    | some (some (id, content)) ↦ elim (is_taken seen id content) [
      | false ↦ collect seen us
      | true ↦ elim (collect (insert id true seen) us) [
        | none ↦ none
        | some rest ↦ some (record { type = u.type; action = update; content = content } ∷ rest)
      ]
    ]
  ]

module _ {F : Type 0} ⦃fl : Float F⦄ where
  -- Some update is within the client's radius.
  unfoldable pub in_radius : ClientInfo F → List (UpdatePacket F) → Bool
  in_radius info [] = false
  in_radius info (u ∷ us) =
      let (lat, lon) = coordinates u in
      fl.le (distance_km info.center_lat info.center_lon lat lon) info.radius_km
      || in_radius info us

  -- The client is registered, with a radius that has an update.
  unfoldable pub is_recipient : Dict (ClientInfo F) → List (UpdatePacket F) → String → Bool
  unfolding in_radius
  is_recipient clients us client = elim (lookup client clients) [
    | none ↦ false
    | some info ↦ in_radius info us
  ]

  -- The loop over the group's clients, with the count of recipients.
  unfoldable pub send_all :
      {M : Type 0}
      → Dict (ClientInfo F)
      → List (UpdatePacket F)
      → M
      → Dict Bool
      → Dict (List M)
      → Dict (List M) × ℕ
  unfolding is_recipient try_send
  send_all clients us m [] sends = (sends, 0)
  send_all clients us m ((client, v) ∷ rest) sends = elim (is_recipient clients us client) [
    | false ↦ send_all clients us m rest sends
    | true ↦
        let (sends', sent) = try_send client m sends in
        let (sends'', n) = send_all clients us m rest sends' in (sends'', if sent then suc n else n)
  ]

module _ {F : Type 0} ⦃fl : Float F⦄ (codec : Codec F) where
  -- The group, the channels and the count of recipients after the call; none is a panic.
  unfoldable pub broadcast_to_group :
      ℕ
      → Dict (ClientInfo F)
      → Group
      → List (UpdatePacket F)
      → Dict (List (List (Update F)))
      → Option (Group × Dict (List (List (Update F))) × ℕ)
  broadcast_to_group now clients group us sends =
      if length group.clients == 0 then some (group, sends, 0) else elim (collect codec [] us) [
        | none ↦ none
        | some batch ↦
            if codec.marshals_batch batch
            then (let (sends', n) = send_all clients us batch group.clients sends in
                some (record group { last_update = now }, sends', n))
            else some (group, sends, 0)
      ]

  unfoldable pub add_update :
      String → UpdatePacket F → Dict (List (UpdatePacket F)) → Dict (List (UpdatePacket F))
  add_update gh u d = insert gh (messages_of (lookup gh d) ++ u ∷ []) d

  -- The update under the geohash of one precision.
  unfoldable pub add_precision :
      UpdatePacket F → ℕ → Dict (List (UpdatePacket F)) → Dict (List (UpdatePacket F))
  unfolding add_update
  add_precision u precision d =
      let (lat, lon) = coordinates u in add_update (codec.text (encode lat lon precision)) u d

  -- `for precision := 3; precision <= 7; precision++`
  unfoldable pub add_precisions :
      UpdatePacket F → Dict (List (UpdatePacket F)) → Dict (List (UpdatePacket F))
  unfolding add_precision
  add_precisions u d =
      add_precision u 7
        (add_precision u 6 (add_precision u 5 (add_precision u 4 (add_precision u 3 d))))

  unfoldable pub updates_by_geohash :
      List (UpdatePacket F) → Dict (List (UpdatePacket F)) → Dict (List (UpdatePacket F))
  unfolding add_precisions
  updates_by_geohash [] d = d
  updates_by_geohash (u ∷ us) d = updates_by_geohash us (add_precisions u d)

  -- The loop over the geohashes, with `totalRecipients`.
  unfoldable pub broadcast_all :
      ℕ
      → Dict (ClientInfo F)
      → Dict (List (UpdatePacket F))
      → Dict Group
      → Dict (List (List (Update F)))
      → Option (Dict Group × Dict (List (List (Update F))) × ℕ)
  unfolding broadcast_to_group
  broadcast_all now clients [] groups sends = some (groups, sends, 0)
  broadcast_all now clients ((gh, us) ∷ rest) groups sends = elim (lookup gh groups) [
    | none ↦ broadcast_all now clients rest groups sends
    | some g ↦ elim (broadcast_to_group now clients g us sends) [
      | none ↦ none
      | some (g', sends', n) ↦ elim (broadcast_all now clients rest (insert gh g' groups) sends') [
        | none ↦ none
        | some (groups', sends'', m) ↦ some (groups', sends'', n + m)
      ]
    ]
  ]

  -- `processBatch` but for its metrics, with the recipients that they are told of.
  unfoldable pub process_batch :
      ℕ
      → List (UpdatePacket F)
      → Rooms F
      → Dict (List (List (Update F)))
      → Option (Rooms F × Dict (List (List (Update F))) × ℕ)
  unfolding updates_by_geohash broadcast_all
  process_batch now batch rooms sends =
      elim (broadcast_all now rooms.clients (updates_by_geohash batch []) rooms.groups sends) [
        | none ↦ none
        | some (groups', sends', n) ↦ some (record rooms { groups = groups' }, sends', n)
      ]
