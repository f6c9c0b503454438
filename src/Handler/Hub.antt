-- ===== src/Handler/Hub.antt =====
-- `BroadcastManager` of internal/handler/broadcast.go as a state with steps: each case of the `select`
-- of `run`, the cleaning of `metricsCollector`, the methods that the handlers call, and a client that
-- takes a message from its channel. A list of steps is any interleaving of the goroutines. What `Cover`
-- answers, the clock and the time that a batch took are arguments of the steps.
use flybeeper_com_map_fanet.Prelude.{
  ℕ, ◌+◌, Bool, true, ◌&&◌, not, Option, none, some, List, [], ◌∷◌, ◌++◌, String, leb, ltb, length,
  lookup, insert, if◌then◌else◌, Dict, Float, pos, found,
}
use flybeeper_com_map_fanet.Handler.Groups.{
  Rooms, Registration, handle_register, handle_unregister, clean_groups,
}
use flybeeper_com_map_fanet.Handler.Updates.{UpdatePacket, broadcast_update}
use flybeeper_com_map_fanet.Handler.Sending.{Update, Codec, process_batch, messages_of}
use flybeeper_com_map_fanet.Wire.{UpdateType, Action, Content}

pub record BroadcastMetrics (F : Type 0) : Type 0 where
  pub updates_received : ℕ
  pub updates_broadcast : ℕ
  pub clients_active : ℕ
  pub groups_active : ℕ
  pub avg_broadcast_time_ms : F
  pub avg_recipients_count : F

-- `updates` is the channel of that name, `batch` the slice that `run` fills, and `sends` the channels of
-- the clients.
pub record BroadcastManager (F : Type 0) : Type 0 where
  pub rooms : Rooms F
  pub updates : List (UpdatePacket F)
  pub batch : List (UpdatePacket F)
  pub sends : Dict (List (List (Update F)))
  pub metrics : BroadcastMetrics F

abbrev pub update_capacity : ℕ
update_capacity = 1000

abbrev pub batch_size : ℕ
batch_size = 50

pub data Step (F : Type 0) : Type 0 where
  register : List String → ℕ → Registration F → Step F
  unregister : String → Step F
  broadcast : UpdateType → Action → Content F → ℕ → Step F
  take_update : ℕ → F → Step F
  tick : ℕ → F → Step F
  collect_metrics : ℕ → Step F
  read_message : String → Step F

module _ {F : Type 0} ⦃fl : Float F⦄ where
  open fl use {of_int, decimal, add, mul, le}

  unfoldable pub new_broadcast_manager : BroadcastManager F
  new_broadcast_manager = record {
    rooms = record { groups = []; clients = [] };
    updates = [];
    batch = [];
    sends = [];
    metrics = record {
      updates_received = 0;
      updates_broadcast = 0;
      clients_active = 0;
      groups_active = 0;
      avg_broadcast_time_ms = of_int (pos 0);
      avg_recipients_count = of_int (pos 0);
    };
  }

  -- The moving average, which starts with the first value: `avg == 0` is two comparisons.
  unfoldable pub moving_average : F → F → F
  moving_average avg x =
      if le avg (of_int (pos 0)) && le (of_int (pos 0)) avg
      then x
      else add (mul avg (decimal 9 1)) (mul x (decimal 1 1))

  unfoldable pub update_broadcast_metrics : F → ℕ → BroadcastMetrics F → BroadcastMetrics F
  unfolding moving_average
  update_broadcast_metrics ms recipients x = record x {
    avg_broadcast_time_ms = moving_average x.avg_broadcast_time_ms ms;
    avg_recipients_count = moving_average x.avg_recipients_count (of_int (pos recipients));
  }

  -- The state after a batch.
  unfoldable pub after_batch :
      F → Rooms F → Dict (List (List (Update F))) → ℕ → BroadcastManager F → BroadcastManager F
  unfolding update_broadcast_metrics
  after_batch ms rooms sends n m = record m {
    rooms = rooms;
    sends = sends;
    batch = [];
    metrics =
        update_broadcast_metrics ms n
          (record m.metrics { updates_broadcast = m.metrics.updates_broadcast + length m.batch });
  }

  -- The two counts that are stored after a change of the rooms.
  abbrev pub with_counts : BroadcastManager F → Rooms F → BroadcastManager F
  with_counts m rooms = record m {
    rooms = rooms;
    metrics = record m.metrics {
      clients_active = length rooms.clients;
      groups_active = length rooms.groups;
    };
  }

module _ {F : Type 0} where
  -- `Broadcast`, which drops the update if the channel is full.
  unfoldable pub offer_update : Option (UpdatePacket F) → BroadcastManager F → BroadcastManager F
  offer_update none m = m
  offer_update (some u) m =
      if ltb (length m.updates) update_capacity
      then record m {
        updates = m.updates ++ u ∷ [];
        metrics = record m.metrics { updates_received = m.metrics.updates_received + 1 };
      }
      else m

  -- A client reads the next message of its channel.
  unfoldable pub read_from :
      String → BroadcastManager F → List (List (Update F)) → BroadcastManager F
  read_from client m [] = m
  read_from client m (x ∷ rest) = record m { sends = insert client rest m.sends }

module _ {F : Type 0} ⦃fl : Float F⦄ (codec : Codec F) where
  -- The batch is processed and emptied, with its metrics; none is a panic.
  unfoldable pub flush_batch : ℕ → F → BroadcastManager F → Option (BroadcastManager F)
  unfolding after_batch
  flush_batch now ms m = elim (process_batch codec now m.batch m.rooms m.sends) [
    | none ↦ none
    | some (rooms, sends, n) ↦ some (after_batch ms rooms sends n m)
  ]

  -- An update from the channel joins the batch; nothing happens while the channel is empty.
  unfoldable pub take_from :
      ℕ → F → List (UpdatePacket F) → BroadcastManager F → Option (BroadcastManager F)
  unfolding flush_batch
  take_from now ms [] m = some m
  take_from now ms (u ∷ us) m =
      let taken : BroadcastManager F = record m { updates = us; batch = m.batch ++ u ∷ [] } in
      if leb batch_size (length taken.batch) then flush_batch now ms taken else some taken

module _ {F : Type 0} ⦃fl : Float F⦄ (codec : Codec F) (print : ℕ → String) where
  unfoldable pub step : Step F → BroadcastManager F → Option (BroadcastManager F)
  unfolding offer_update take_from read_from flush_batch
  step (register geohashes now reg) m =
      some (with_counts m (handle_register geohashes now reg m.rooms))
  step (unregister client) m = elim (lookup client m.rooms.clients) [
    | none ↦ some m
    | some info ↦ some (with_counts m (handle_unregister client m.rooms))
  ]
  step (broadcast type action content now) m =
      some (offer_update (broadcast_update print type action content now) m)
  step (take_update now ms) m = take_from codec now ms m.updates m
  step (tick now ms) m = if ltb 0 (length m.batch) then flush_batch codec now ms m else some m
  step (collect_metrics now) m = some (with_counts m (clean_groups now m.rooms))
  step (read_message client) m = some (read_from client m (messages_of (lookup client m.sends)))

  unfoldable pub run : List (Step F) → BroadcastManager F → Option (BroadcastManager F)
  unfolding step
  run [] m = some m
  run (x ∷ xs) m = elim (step x m) [ none ↦ none | some m' ↦ run xs m' ]

  -- Each registration is of a client that is not registered.
  unfoldable pub is_new : Step F → BroadcastManager F → Bool
  is_new (register geohashes now reg) m = not (found (lookup reg.client m.rooms.clients))
  is_new _ m = true

  unfoldable pub are_fresh : List (Step F) → BroadcastManager F → Bool
  unfolding is_new step
  are_fresh [] m = true
  are_fresh (x ∷ xs) m = is_new x m && elim (step x m) [ none ↦ true | some m' ↦ are_fresh xs m' ]
