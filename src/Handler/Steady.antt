-- ===== src/Handler/Steady.antt =====
-- Sending leaves the rooms of internal/handler/broadcast.go as they are, and the channels within their
-- capacity.
use flybeeper_com_map_fanet.Prelude.{
  ℕ, ◌+◌, ◌≤◌, ◌≡◌, refl, ◌∙◌, Bool, Option, Option-cases, none, some, List, [], ◌∷◌, String, arith,
  str_eq, eq_iff, ◌==◌, length, length-append, lookup, insert, IsUnique, lookup-insert,
  insert-IsUnique, length-insert, All, All-append, Dict, Bool-cases, inl, inr, if_both, Float,
}
use flybeeper_com_map_fanet.Handler.Groups.{Group, ClientInfo, Rooms}
use flybeeper_com_map_fanet.Handler.Updates.{UpdatePacket, coordinates}
use flybeeper_com_map_fanet.Handler.Sending.{
  Update, Codec, messages_of, send_capacity, try_send, is_recipient, send_all, broadcast_to_group,
  add_update, add_precision, add_precisions, updates_by_geohash, broadcast_all, process_batch,
}
use flybeeper_com_map_fanet.Handler.Delivery.{channel, channel-try_send}
use flybeeper_com_map_fanet.Handler.Silence.{IsQuiet, collect-IsQuiet}
use flybeeper_com_map_fanet.Geo.Geohash.{encode}

-- Every channel is within its capacity.
abbrev pub AreBounded : {M : Type 0} → Dict (List M) → Type 0
AreBounded sends = (c : String) → length (channel c sends) ≤ send_capacity

try_send-AreBounded :
    {M : Type 0} (client : String) (m : M) (sends : Dict (List M))
    → AreBounded sends
    → AreBounded (try_send client m sends).0
try_send-AreBounded client m sends h c =
    ground (arith, channel-try_send client c m sends, h c, length-append (channel c sends) (m ∷ []))

-- The clients of two groups, or that there is none.
abbrev pub members : Option Group → Option (Dict Bool)
members none = none
members (some g) = some g.clients

-- The same groups with the same clients.
pub record AreAlike (old new : Dict Group) : Type 0 where
  pub same : (gh : String) → members (lookup gh new) ≡ members (lookup gh old)
  pub unique : IsUnique old → IsUnique new
  pub size : length new ≡ length old

AreAlike-insert :
    (gh : String) (g g' : Group) (groups : Dict Group)
    → lookup gh groups ≡ some g
    → g'.clients ≡ g.clients
    → AreAlike groups (insert gh g' groups)
AreAlike-insert gh g g' groups e alike = record {
  same = λ x. ground (arith, lookup-insert gh x g' groups, eq_iff gh x);
  unique = λ h. insert-IsUnique gh g' groups h;
  size = rw e at (length-insert gh g' groups) ∙ (omega arith);
}

AreAlike-trans : (a b c : Dict Group) → AreAlike a b → AreAlike b c → AreAlike a c
AreAlike-trans a b c h k = record {
  same = λ x. k.same x ∙ h.same x;
  unique = λ u. k.unique (h.unique u);
  size = k.size ∙ h.size;
}

module _ {F : Type 0} ⦃fl : Float F⦄ (codec : Codec F) where
  send_all-AreBounded :
      {M : Type 0} (clients : Dict (ClientInfo F)) (us : List (UpdatePacket F)) (m : M)
      (group : Dict Bool) (sends : Dict (List M))
      → AreBounded sends
      → AreBounded (send_all clients us m group sends).0
  unfolding send_all
  send_all-AreBounded clients us m [] sends h = h
  send_all-AreBounded clients us m ((x, v) ∷ rest) sends h =
      elim (Bool-cases (is_recipient clients us x)) [
        | inl e ↦
            rw (send_all, e)
              (send_all-AreBounded clients us m rest (try_send x m sends).0
                (try_send-AreBounded x m sends h))
        | inr e ↦ rw (send_all, e) (send_all-AreBounded clients us m rest sends h)
      ]

  broadcast_to_group-steady :
      (now : ℕ) (clients : Dict (ClientInfo F)) (g : Group) (us : List (UpdatePacket F))
      (sends : Dict (List (List (Update F))))
      → All IsQuiet us
      → AreBounded sends
      → (g' : Group) × (sends' : Dict (List (List (Update F)))) × (n : ℕ) × (broadcast_to_group
            codec now clients g us sends
          ≡ some (g', sends', n))
        × (g'.clients ≡ g.clients)
        × AreBounded sends'
  unfolding broadcast_to_group
  broadcast_to_group-steady now clients g us sends quiet h =
      elim (Bool-cases (length g.clients == 0)) [
        | inl e ↦ (g, sends, 0, rw e refl, refl, h)
        | inr e ↦
            let (batch, collected, audible) = collect-IsQuiet codec [] us quiet in
            elim (Bool-cases (codec.marshals_batch batch)) [
              | inl ok ↦ (
                record g { last_update = now },
                (send_all clients us batch g.clients sends).0,
                (send_all clients us batch g.clients sends).1,
                rw (e, collected, ok) refl,
                refl,
                send_all-AreBounded clients us batch g.clients sends h,
              )
              | inr bad ↦ (g, sends, 0, rw (e, collected, bad) refl, refl, h)
            ]
      ]

  broadcast_all-steady :
      (now : ℕ) (clients : Dict (ClientInfo F)) (by_hash : Dict (List (UpdatePacket F)))
      (groups : Dict Group) (sends : Dict (List (List (Update F))))
      → All (λ e. All IsQuiet e.1) by_hash
      → AreBounded sends
      → (groups' : Dict Group) × (sends' : Dict (List (List (Update F)))) × (n : ℕ) × (broadcast_all
            codec now clients by_hash groups sends
          ≡ some (groups', sends', n))
        × AreAlike groups groups'
        × AreBounded sends'
  unfolding broadcast_all
  broadcast_all-steady now clients [] groups sends quiet h =
      (groups, sends, 0, refl, record { same = λ x. refl; unique = λ u. u; size = refl }, h)
  broadcast_all-steady now clients ((gh, us) ∷ rest) groups sends (q, quiet) h =
      elim (Option-cases (lookup gh groups)) [
        | inl e ↦
            let (groups', sends', n, ran, alike, bounded) =
              broadcast_all-steady now clients rest groups sends quiet h in
            (groups', sends', n, rw (broadcast_all, e) ran, alike, bounded)
        | inr (g, e) ↦
            let (g', sends', n, sent, alike, bounded) =
              broadcast_to_group-steady now clients g us sends q h in
            let (groups'', sends'', k, ran, alikes, bounds) =
              broadcast_all-steady now clients rest (insert gh g' groups) sends' quiet bounded in
            (
              groups'',
              sends'',
              n + k,
              rw (broadcast_all, e, sent, ran) refl,
              AreAlike-trans groups (insert gh g' groups) groups''
                  (AreAlike-insert gh g g' groups e alike) alikes,
              bounds,
            )
      ]

module _ {F : Type 0} ⦃fl : Float F⦄ (codec : Codec F) where
  messages-IsQuiet :
      (gh : String) (d : Dict (List (UpdatePacket F)))
      → All (λ e. All IsQuiet e.1) d
      → All IsQuiet (messages_of (lookup gh d))
  unfolding lookup
  messages-IsQuiet gh [] h = tt
  messages-IsQuiet gh ((x, us) ∷ d) (q, h) = elim (Bool-cases (str_eq x gh)) [
    | inl e ↦ rw e q
    | inr e ↦ rw e (messages-IsQuiet gh d h)
  ]

  insert-IsQuiet :
      (gh : String) (us : List (UpdatePacket F)) (d : Dict (List (UpdatePacket F)))
      → All IsQuiet us
      → All (λ e. All IsQuiet e.1) d
      → All (λ e. All IsQuiet e.1) (insert gh us d)
  unfolding insert
  insert-IsQuiet gh us [] q h = (q, tt)
  insert-IsQuiet gh us ((x, old) ∷ d) q (o, h) =
      if_both (All (λ e. All IsQuiet e.1)) (str_eq x gh) (q, h) (o, insert-IsQuiet gh us d q h)

  add_update-IsQuiet :
      (gh : String) (u : UpdatePacket F) (d : Dict (List (UpdatePacket F)))
      → IsQuiet u
      → All (λ e. All IsQuiet e.1) d
      → All (λ e. All IsQuiet e.1) (add_update codec gh u d)
  unfolding add_update
  add_update-IsQuiet gh u d q h =
      insert-IsQuiet gh _ d
        (All-append IsQuiet (messages_of (lookup gh d)) (u ∷ []) (messages-IsQuiet gh d h) (q, tt))
        h

  add_precision-IsQuiet :
      (u : UpdatePacket F) (precision : ℕ) (d : Dict (List (UpdatePacket F)))
      → IsQuiet u
      → All (λ e. All IsQuiet e.1) d
      → All (λ e. All IsQuiet e.1) (add_precision codec u precision d)
  unfolding add_precision
  add_precision-IsQuiet u precision d q h =
      let (lat, lon) = coordinates u in
      add_update-IsQuiet (codec.text (encode lat lon precision)) u d q h

  updates_by_geohash-IsQuiet :
      (us : List (UpdatePacket F)) (d : Dict (List (UpdatePacket F)))
      → All IsQuiet us
      → All (λ e. All IsQuiet e.1) d
      → All (λ e. All IsQuiet e.1) (updates_by_geohash codec us d)
  unfolding updates_by_geohash add_precisions
  updates_by_geohash-IsQuiet [] d q h = h
  updates_by_geohash-IsQuiet (u ∷ us) d (q, qs) h = updates_by_geohash-IsQuiet us _ qs (
      add_precision-IsQuiet u 7 _ q (
        add_precision-IsQuiet u 6 _ q (
          add_precision-IsQuiet u 5 _ q
            (add_precision-IsQuiet u 4 _ q (add_precision-IsQuiet u 3 d q h)))))

  -- A batch of such packets is processed, and leaves the groups with their clients.
  pub process_batch-steady :
      (now : ℕ) (us : List (UpdatePacket F)) (rooms : Rooms F)
      (sends : Dict (List (List (Update F))))
      → All IsQuiet us
      → AreBounded sends
      → (groups : Dict Group) × (sends' : Dict (List (List (Update F)))) × (n : ℕ) × (process_batch
            codec now us rooms sends
          ≡ some (record rooms { groups = groups }, sends', n))
        × AreAlike rooms.groups groups
        × AreBounded sends'
  unfolding process_batch
  process_batch-steady now us rooms sends quiet h =
      let (groups, sends', n, ran, alike, bounded) =
        broadcast_all-steady codec now rooms.clients (updates_by_geohash codec us []) rooms.groups
          sends (updates_by_geohash-IsQuiet us [] quiet tt) h in
      (groups, sends', n, rw (process_batch, ran) refl, alike, bounded)
