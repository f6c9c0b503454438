-- ===== src/Handler/Consistency.antt =====
-- The steps of the hub of internal/handler/broadcast.go, and its runs.
use flybeeper_com_map_fanet.Prelude.{
  ℕ, ◌≤◌, ◌<◌, ◌≡◌, refl, sym, ap, ◌∙◌, true, Option, Option-cases, none, some, List, [], ◌∷◌, ◌++◌,
  String, arith, ltb, leb, length, length-append, lookup, lookup-insert, All, All-append,
  Bool-cases, inl, inr, Float,
}
use flybeeper_com_map_fanet.Handler.Groups.{Rooms, handle_register, handle_unregister, clean_groups}
use flybeeper_com_map_fanet.Handler.Updates.{UpdatePacket, broadcast_update}
use flybeeper_com_map_fanet.Handler.Sending.{Update, Codec, send_capacity}
use flybeeper_com_map_fanet.Handler.Hub.{
  BroadcastManager, Step, register, unregister, broadcast, take_update, tick, collect_metrics,
  read_message, step, run, is_new, are_fresh, new_broadcast_manager, flush_batch, after_batch,
  offer_update, take_from, read_from, update_capacity, batch_size, update_broadcast_metrics,
  with_counts,
}
use flybeeper_com_map_fanet.Handler.Delivery.{channel}
use flybeeper_com_map_fanet.Handler.Silence.{IsQuiet, quiet_packet, broadcast_update-IsQuiet}
use flybeeper_com_map_fanet.Handler.Steady.{process_batch-steady}
use flybeeper_com_map_fanet.Handler.Runs.{
  IsAgreed, handle_register-IsAgreed, handle_unregister-IsAgreed, clean_groups-IsAgreed,
  AreAlike-IsAgreed,
}

-- The rooms agree, the counts of the metrics are theirs, the batch has room for one more update, the
-- channels are within their capacities, and no waiting packet can make a message panic.
pub record IsConsistent {F : Type 0} ⦃fl : Float F⦄ (m : BroadcastManager F) : Type 0 where
  pub agreed : IsAgreed m.rooms
  pub clients_counted : m.metrics.clients_active ≡ length m.rooms.clients
  pub groups_counted : m.metrics.groups_active ≡ length m.rooms.groups
  pub batch_below : length m.batch < batch_size
  pub updates_within : length m.updates ≤ update_capacity
  pub sends_within : (c : String) → length (channel c m.sends) ≤ send_capacity
  pub batch_quiet : All IsQuiet m.batch
  pub updates_quiet : All IsQuiet m.updates

module _ {F : Type 0} ⦃fl : Float F⦄ where
  new_broadcast_manager-IsConsistent : IsConsistent {F = F} new_broadcast_manager
  unfolding new_broadcast_manager lookup
  new_broadcast_manager-IsConsistent = record {
    agreed = record { unique = tt; agree = λ c gh. refl; full = λ gh. refl };
    clients_counted = refl;
    groups_counted = refl;
    batch_below = omega arith;
    updates_within = omega arith;
    sends_within = λ c. omega arith;
    batch_quiet = tt;
    updates_quiet = tt;
  }

module _ {F : Type 0} ⦃fl : Float F⦄ (codec : Codec F) where
  -- A batch of any size is processed, and the state is consistent afterwards.
  flush_batch-IsConsistent :
      (now : ℕ) (ms : F) (m : BroadcastManager F) (us : List (UpdatePacket F))
      → IsConsistent m
      → All IsQuiet us
      → (m' : BroadcastManager F) × (flush_batch codec now ms (record m { batch = us }) ≡ some m')
        × IsConsistent m'
  unfolding flush_batch after_batch update_broadcast_metrics
  flush_batch-IsConsistent now ms m us h quiet =
      let (groups, sends, n, ran, alike, bounded) =
        process_batch-steady codec now us m.rooms m.sends quiet h.sends_within in
      (
        after_batch ms (record m.rooms { groups = groups }) sends n (record m { batch = us }),
        rw (flush_batch, ran) refl,
        record {
          agreed = AreAlike-IsAgreed m.rooms groups alike h.agreed;
          clients_counted = h.clients_counted;
          groups_counted = h.groups_counted ∙ sym alike.size;
          batch_below = omega arith;
          updates_within = h.updates_within;
          sends_within = bounded;
          batch_quiet = tt;
          updates_quiet = h.updates_quiet;
        },
      )

  take_from-IsConsistent :
      (now : ℕ) (ms : F) (us : List (UpdatePacket F)) (m : BroadcastManager F)
      → m.updates ≡ us
      → IsConsistent m
      → (m' : BroadcastManager F) × (take_from codec now ms us m ≡ some m') × IsConsistent m'
  unfolding take_from
  take_from-IsConsistent now ms [] m e h = (m, refl, h)
  take_from-IsConsistent now ms (u ∷ us) m e h =
      let taken = m.batch ++ u ∷ [] in
      let (q, qs) : IsQuiet u × All IsQuiet us = rw e at h.updates_quiet in
      let quiet = All-append IsQuiet m.batch (u ∷ []) h.batch_quiet (q, tt) in
      let within : length us ≤ update_capacity = omega (arith, h.updates_within, ap length e) in
      let left : IsConsistent (record m { updates = us }) = record {
        agreed = h.agreed;
        clients_counted = h.clients_counted;
        groups_counted = h.groups_counted;
        batch_below = h.batch_below;
        updates_within = within;
        sends_within = h.sends_within;
        batch_quiet = h.batch_quiet;
        updates_quiet = qs;
      } in
      elim (Bool-cases (leb batch_size (length taken))) [
        | inl full ↦
            rw full (flush_batch-IsConsistent now ms (record m { updates = us }) taken left quiet)
        | inr room ↦ rw room (
          record m { updates = us; batch = taken },
          refl,
          record {
            agreed = h.agreed;
            clients_counted = h.clients_counted;
            groups_counted = h.groups_counted;
            batch_below = ground arith;
            updates_within = within;
            sends_within = h.sends_within;
            batch_quiet = quiet;
            updates_quiet = qs;
          },
        )
      ]

module _ {F : Type 0} ⦃fl : Float F⦄ where
  offer_update-IsConsistent :
      (print : ℕ → String) (o : Option (UpdatePacket F)) (m : BroadcastManager F)
      → quiet_packet print o ≡ true
      → IsConsistent m
      → IsConsistent (offer_update o m)
  unfolding offer_update
  offer_update-IsConsistent print none m q h = h
  offer_update-IsConsistent print (some u) m q h =
      elim (Bool-cases (ltb (length m.updates) update_capacity)) [
        | inl room ↦ rw room (record {
          agreed = h.agreed;
          clients_counted = h.clients_counted;
          groups_counted = h.groups_counted;
          batch_below = h.batch_below;
          updates_within = ground (arith, length-append m.updates (u ∷ []));
          sends_within = h.sends_within;
          batch_quiet = h.batch_quiet;
          updates_quiet = All-append IsQuiet m.updates (u ∷ []) h.updates_quiet (q, tt);
        })
        | inr full ↦ rw full h
      ]

  read_from-IsConsistent :
      (client : String) (m : BroadcastManager F) (queue : List (List (Update F)))
      → channel client m.sends ≡ queue
      → IsConsistent m
      → IsConsistent (read_from client m queue)
  unfolding read_from
  read_from-IsConsistent client m [] e h = h
  read_from-IsConsistent client m (x ∷ rest) e h =
      let below : length (x ∷ rest) ≤ send_capacity = rw e at (h.sends_within client) in
      record {
        agreed = h.agreed;
        clients_counted = h.clients_counted;
        groups_counted = h.groups_counted;
        batch_below = h.batch_below;
        updates_within = h.updates_within;
        sends_within =
            λ c. ground (arith, lookup-insert client c rest m.sends, h.sends_within c, below);
        batch_quiet = h.batch_quiet;
        updates_quiet = h.updates_quiet;
      }

  with_counts-IsConsistent :
      (m : BroadcastManager F) (rooms : Rooms F)
      → IsConsistent m
      → IsAgreed rooms
      → IsConsistent (with_counts m rooms)
  with_counts-IsConsistent m rooms h agreed = record {
    agreed = agreed;
    clients_counted = refl;
    groups_counted = refl;
    batch_below = h.batch_below;
    updates_within = h.updates_within;
    sends_within = h.sends_within;
    batch_quiet = h.batch_quiet;
    updates_quiet = h.updates_quiet;
  }

module _ {F : Type 0} ⦃fl : Float F⦄ (codec : Codec F) (print : ℕ → String) where
  step-IsConsistent :
      (x : Step F) (m : BroadcastManager F)
      → is_new codec print x m ≡ true
      → IsConsistent m
      → (m' : BroadcastManager F) × (step codec print x m ≡ some m') × IsConsistent m'
  unfolding step is_new
  step-IsConsistent (register geohashes now reg) m fresh h = (
    _,
    refl,
    with_counts-IsConsistent m (handle_register geohashes now reg m.rooms) h
        (handle_register-IsAgreed geohashes now reg m.rooms (ground arith) h.agreed),
  )
  step-IsConsistent (unregister client) m fresh h =
      elim (Option-cases (lookup client m.rooms.clients)) [
        | inl e ↦ (m, rw (step, e) refl, h)
        | inr (info, e) ↦ (
          with_counts m (handle_unregister client m.rooms),
          rw (step, e) refl,
          with_counts-IsConsistent m (handle_unregister client m.rooms) h
              (handle_unregister-IsAgreed client m.rooms h.agreed),
        )
      ]
  step-IsConsistent (broadcast t a content now) m fresh h = (
    _,
    refl,
    offer_update-IsConsistent print (broadcast_update print t a content now) m
        (broadcast_update-IsQuiet print t a content now) h,
  )
  step-IsConsistent (take_update now ms) m fresh h =
      take_from-IsConsistent codec now ms m.updates m refl h
  step-IsConsistent (tick now ms) m fresh h = elim (Bool-cases (ltb 0 (length m.batch))) [
    | inl e ↦ rw (step, e) (flush_batch-IsConsistent codec now ms m m.batch h h.batch_quiet)
    | inr e ↦ rw (step, e) (m, refl, h)
  ]
  step-IsConsistent (collect_metrics now) m fresh h = (
    _,
    refl,
    with_counts-IsConsistent m (clean_groups now m.rooms) h
        (clean_groups-IsAgreed now m.rooms h.agreed),
  )
  step-IsConsistent (read_message client) m fresh h =
      (_, refl, read_from-IsConsistent client m (channel client m.sends) refl h)

  run-from :
      (steps : List (Step F)) (m : BroadcastManager F)
      → are_fresh codec print steps m ≡ true
      → IsConsistent m
      → (m' : BroadcastManager F) × (run codec print steps m ≡ some m') × IsConsistent m'
  unfolding run are_fresh
  run-from [] m fresh h = (m, refl, h)
  run-from (x ∷ xs) m fresh h =
      let (m1, stepped, h1) = step-IsConsistent x m (ground arith) h in
      let (m2, ran, h2) = run-from xs m1 (ground arith) h1 in (m2, rw (run, stepped) ran, h2)

  -- From a new hub, over any interleaving of registrations of clients that are not registered,
  -- departures, updates through BroadcastUpdate, batches, ticks, cleanings and reads by clients: nothing panics, and in the end
  -- every client stands exactly in the groups of the area it is registered with, no group is empty, the
  -- counts of the metrics are right, and batch and channels are within their capacities.
  pub run-IsConsistent :
      (steps : List (Step F))
      → are_fresh codec print steps new_broadcast_manager ≡ true
      → (m : BroadcastManager F) × (run codec print steps new_broadcast_manager ≡ some m)
        × IsConsistent m
  run-IsConsistent steps fresh =
      run-from steps new_broadcast_manager fresh new_broadcast_manager-IsConsistent
