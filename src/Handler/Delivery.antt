-- ===== src/Handler/Delivery.antt =====
-- What `broadcastToGroup` of internal/handler/broadcast.go puts into the channel of each client.
use flybeeper_com_map_fanet.Prelude.{
  false, sym, subst, Option-cases, ◌⊎◌, ℕ, ◌≤◌, ◌≡◌, refl, Bool, true, ◌&&◌, some, List, [], ◌∷◌,
  ◌++◌, String, arith, str_eq, eq_iff, ltb, ◌==◌, length, lookup, found, IsUnique, lookup-insert,
  if◌then◌else◌, Dict, Bool-cases, inl, inr, Float,
}
use flybeeper_com_map_fanet.Handler.Groups.{Group, ClientInfo}
use flybeeper_com_map_fanet.Handler.Agreement.{found-empty}
use flybeeper_com_map_fanet.Handler.Updates.{UpdatePacket, coordinates}
use flybeeper_com_map_fanet.Models.Points.{distance_km}
use flybeeper_com_map_fanet.Handler.Sending.{
  Update, Codec, messages_of, send_capacity, try_send, in_radius, is_recipient, send_all, collect,
  broadcast_to_group,
}

-- The channel of a client.
abbrev pub channel : {M : Type 0} → String → Dict (List M) → List M
channel client sends = messages_of (lookup client sends)

-- A channel after an offer of a message.
abbrev pub offered : {M : Type 0} → Bool → M → List M → List M
offered wanted m queue =
    if wanted && ltb (length queue) send_capacity then queue ++ m ∷ [] else queue

pub channel-try_send :
    {M : Type 0} (client c : String) (m : M) (sends : Dict (List M))
    → channel c (try_send client m sends).0 ≡ offered (str_eq client c) m (channel c sends)
unfolding try_send
channel-try_send client c m sends =
    ground (arith, lookup-insert client c (channel client sends ++ m ∷ []) sends, eq_iff client c)

module _ {F : Type 0} ⦃fl : Float F⦄ {M : Type 0} (clients : Dict (ClientInfo F))
    (us : List (UpdatePacket F)) (m : M) where
  -- Each client of the group that is a recipient is offered the message once, and no other.
  pub channel-send_all :
      (c : String) (members : Dict Bool) (sends : Dict (List M))
      → IsUnique members
      → channel c (send_all clients us m members sends).0
        ≡ offered (found (lookup c members) && is_recipient clients us c) m (channel c sends)
  unfolding send_all lookup
  channel-send_all c [] sends h = refl
  channel-send_all c ((x, v) ∷ rest) sends h = elim (Bool-cases (is_recipient clients us x)) [
    | inl e ↦
        rw (send_all, e)
          (ground (
            arith,
            channel-send_all c rest (try_send x m sends).0 h.1,
            channel-try_send x c m sends,
            eq_iff x c,
          ))
    | inr e ↦ rw (send_all, e) (ground (arith, channel-send_all c rest sends h.1, eq_iff x c))
  ]

  pub send_all-count :
      (members : Dict Bool) (sends : Dict (List M))
      → (send_all clients us m members sends).1 ≤ length members
  unfolding send_all
  send_all-count [] sends = omega arith
  send_all-count ((x, v) ∷ rest) sends = elim (Bool-cases (is_recipient clients us x)) [
    | inl e ↦ rw (send_all, e) (ground (arith, send_all-count rest (try_send x m sends).0))
    | inr e ↦ rw (send_all, e) (ground (arith, send_all-count rest sends))
  ]

module _ {F : Type 0} ⦃fl : Float F⦄ where
  -- One of the updates is at most the radius away from the client's centre.
  abbrev pub IsNear : ClientInfo F → List (UpdatePacket F) → Type 0
  IsNear info [] = ⊥
  IsNear info (u ∷ us) =
      (fl.le (distance_km info.center_lat info.center_lon (coordinates u).0 (coordinates u).1)
          info.radius_km
        ≡ true)
      ⊎ IsNear info us

  in_radius-IsNear :
      (info : ClientInfo F) (us : List (UpdatePacket F))
      → ((in_radius info us ≡ true) × IsNear info us)
        ⊎ ((in_radius info us ≡ false) × (IsNear info us → ⊥))
  unfolding in_radius
  in_radius-IsNear info [] = inr (refl, λ h. h)
  in_radius-IsNear info (u ∷ us) =
      let (lat, lon) = coordinates u in
      let near = fl.le (distance_km info.center_lat info.center_lon lat lon) info.radius_km in
      elim (Bool-cases near) [
        | inl e ↦ inl (rw e refl, inl e)
        | inr e ↦ elim (in_radius-IsNear info us) [
          | inl (within, h) ↦ inl (rw (e, within) refl, inr h)
          | inr (outside, h) ↦
              inr (rw (e, outside) refl, λ x. elim x [ inl y ↦ absurd cc | inr y ↦ h y ])
        ]
      ]

  -- A client of the group that is registered, with one of the updates in its radius.
  abbrev pub IsWanted : Dict Bool → Dict (ClientInfo F) → List (UpdatePacket F) → String → Type 0
  IsWanted members clients us c =
      (found (lookup c members) ≡ true)
      × ((info : ClientInfo F) × (lookup c clients ≡ some info) × IsNear info us)

  -- The code's test, for a member and for another.
  IsWanted-cases :
      (members : Dict Bool) (clients : Dict (ClientInfo F)) (us : List (UpdatePacket F))
      (c : String)
      → (((found (lookup c members) && is_recipient clients us c) ≡ true)
          × IsWanted members clients us c)
        ⊎ (((found (lookup c members) && is_recipient clients us c) ≡ false)
            × (IsWanted members clients us c → ⊥))
  unfolding is_recipient
  IsWanted-cases members clients us c = elim (Bool-cases (found (lookup c members))) [
    | inr e ↦ inr (rw e refl, λ h. absurd (cc (e, h.0)))
    | inl e ↦ elim (Option-cases (lookup c clients)) [
      | inl n ↦ inr (rw (e, is_recipient, n) refl, λ h. absurd (cc (n, h.1.1)))
      | inr (info, y) ↦ elim (in_radius-IsNear info us) [
        | inl (within, h) ↦ inl (rw (e, is_recipient, y) within, (e, (info, y, h)))
        | inr (outside, h) ↦ inr (
          rw (e, is_recipient, y) outside,
          λ x.
              let same : info ≡ x.1.0 = ground (arith, y, x.1.1) in
              h (subst (λ i. IsNear i us) (sym same) x.1.2),
        )
      ]
    ]
  ]

  -- What a channel holds after a message for the clients that are wanted.
  abbrev pub IsDelivered :
      {M : Type 0}
      → Dict Bool
      → Dict (ClientInfo F)
      → List (UpdatePacket F)
      → M
      → Dict (List M)
      → Dict (List M)
      → String
      → Type 0
  IsDelivered members clients us m before after c =
      (IsWanted members clients us c
        → channel c after ≡ (
            if ltb (length (channel c before)) 256
            then channel c before ++ m ∷ []
            else channel c before))
      × ((IsWanted members clients us c → ⊥) → channel c after ≡ channel c before)

  offered-IsDelivered :
      {M : Type 0} (members : Dict Bool) (clients : Dict (ClientInfo F))
      (us : List (UpdatePacket F)) (m : M) (before after : Dict (List M)) (c : String)
      → channel c after
        ≡ offered (found (lookup c members) && is_recipient clients us c) m (channel c before)
      → IsDelivered members clients us m before after c
  offered-IsDelivered members clients us m before after c e =
      elim (IsWanted-cases members clients us c) [
        | inl (wanted, h) ↦ (λ x. rw wanted at e, λ n. absurd (n h))
        | inr (other, h) ↦ (λ x. absurd (h x), λ n. rw other at e)
      ]

module _ {F : Type 0} ⦃fl : Float F⦄ (codec : Codec F) where
  -- For a group in which no client stands twice and updates that make up a message, which the
  -- marshaller takes: the call returns, and it counts no more recipients than the group has clients.
  -- The channel of each client that is in the group, is registered, and has one of the updates at most
  -- its radius away from its centre, has afterwards this one message behind what it had, unless it had
  -- 256 messages: then it stays. The channels of all other clients stay.
  pub broadcast_to_group-delivers :
      (now : ℕ) (clients : Dict (ClientInfo F)) (g : Group) (us : List (UpdatePacket F))
      (sends : Dict (List (List (Update F)))) (message : List (Update F))
      → IsUnique g.clients
      → collect codec [] us ≡ some message
      → codec.marshals_batch message ≡ true
      → (g' : Group) × (sends' : Dict (List (List (Update F)))) × (n : ℕ) × (broadcast_to_group
            codec now clients g us sends
          ≡ some (g', sends', n))
        × (n ≤ length g.clients)
        × (g'.clients ≡ g.clients)
        × ((c : String) → IsDelivered g.clients clients us message sends sends' c)
  unfolding broadcast_to_group
  broadcast_to_group-delivers now clients g us sends message unique collected marshalled =
      elim (Bool-cases (length g.clients == 0)) [
        | inl e ↦ (
          g,
          sends,
          0,
          rw e refl,
          omega arith,
          refl,
          λ c.
              offered-IsDelivered g.clients clients us message sends sends c
                (ground (arith, found-empty c g.clients)),
        )
        | inr e ↦ (
          record g { last_update = now },
          (send_all clients us message g.clients sends).0,
          (send_all clients us message g.clients sends).1,
          rw (e, collected, marshalled) refl,
          send_all-count clients us message g.clients sends,
          refl,
          λ c.
              offered-IsDelivered g.clients clients us message sends
                (send_all clients us message g.clients sends).0 c
                (channel-send_all clients us message c g.clients sends unique),
        )
      ]
