-- ===== src/Service/Batch/Writer.antt =====
-- `BatchWriter` of internal/service/batch_writer.go with its three lanes. The repository is what
-- `Attempts` say of its calls.
use flybeeper_com_map_fanet.Prelude.{ℕ, Bool, true, false, Option, none, some, length}
use flybeeper_com_map_fanet.Service.Batch.Retry.{Attempts}
use flybeeper_com_map_fanet.Service.Batch.Lane.{
  BatchConfig, Lane, Worker, saving, QueueResult, Wake, empty_lane, queue_item, send_nil,
  worker_round, end_flush,
}

pub record BatchWriter (P T S : Type 0) : Type 0 where
  pub config : BatchConfig
  pub pilots : Lane P
  pub thermals : Lane T
  pub stations : Lane S
  -- `LastBatchSize` of the metrics
  pub last_batch_size : ℕ
  -- The context is cancelled, and the channels are closed.
  pub done : Bool
  pub closed : Bool

-- The channel whose send times out.
pub data FlushResult : Type 0 where
  flushed pilots_timeout thermals_timeout stations_timeout : FlushResult

-- The size of the batch that a worker is saving.
abbrev pub batch_size_of : {A : Type 0} → Worker A → ℕ → ℕ
batch_size_of (saving batch leaving) n = length batch
batch_size_of w n = n

module _ {P T S : Type 0} where
  -- `NewBatchWriter` with the start of the workers.
  abbrev pub new_batch_writer : BatchConfig → BatchWriter P T S
  new_batch_writer c = record {
    config = c;
    pilots = empty_lane;
    thermals = empty_lane;
    stations = empty_lane;
    last_batch_size = 0;
    done = false;
    closed = false;
  }

  unfoldable pub queue_pilot : Bool → P → BatchWriter P T S → BatchWriter P T S × QueueResult
  queue_pilot choice p bw =
      let (lane, r) = queue_item bw.config bw.done bw.closed choice p bw.pilots in
      (record bw { pilots = lane }, r)

  unfoldable pub queue_thermal : Bool → T → BatchWriter P T S → BatchWriter P T S × QueueResult
  queue_thermal choice t bw =
      let (lane, r) = queue_item bw.config bw.done bw.closed choice t bw.thermals in
      (record bw { thermals = lane }, r)

  unfoldable pub queue_station : Bool → S → BatchWriter P T S → BatchWriter P T S × QueueResult
  queue_station choice s bw =
      let (lane, r) = queue_item bw.config bw.done bw.closed choice s bw.stations in
      (record bw { stations = lane }, r)

  unfoldable pub pilot_worker : Wake → BatchWriter P T S → Option (BatchWriter P T S)
  pilot_worker wake bw = elim (worker_round bw.config bw.done wake bw.pilots) [
    | none ↦ none
    | some lane ↦ some (record bw { pilots = lane })
  ]

  unfoldable pub thermal_worker : Wake → BatchWriter P T S → Option (BatchWriter P T S)
  thermal_worker wake bw = elim (worker_round bw.config bw.done wake bw.thermals) [
    | none ↦ none
    | some lane ↦ some (record bw { thermals = lane })
  ]

  unfoldable pub station_worker : Wake → BatchWriter P T S → Option (BatchWriter P T S)
  station_worker wake bw = elim (worker_round bw.config bw.done wake bw.stations) [
    | none ↦ none
    | some lane ↦ some (record bw { stations = lane })
  ]

  -- Only the flush of pilots writes `LastBatchSize`.
  unfoldable pub flush_pilots : Attempts → BatchWriter P T S → Option (BatchWriter P T S)
  flush_pilots env bw = elim (end_flush bw.config env bw.pilots) [
    | none ↦ none
    | some lane ↦ some (record bw {
      pilots = lane;
      last_batch_size = batch_size_of bw.pilots.worker bw.last_batch_size;
    })
  ]

  unfoldable pub flush_thermals : Attempts → BatchWriter P T S → Option (BatchWriter P T S)
  flush_thermals env bw = elim (end_flush bw.config env bw.thermals) [
    | none ↦ none
    | some lane ↦ some (record bw { thermals = lane })
  ]

  unfoldable pub flush_stations : Attempts → BatchWriter P T S → Option (BatchWriter P T S)
  flush_stations env bw = elim (end_flush bw.config env bw.stations) [
    | none ↦ none
    | some lane ↦ some (record bw { stations = lane })
  ]

  -- The three sends of `Flush`, with nothing between them.
  unfoldable pub flush : BatchWriter P T S → BatchWriter P T S × FlushResult
  flush bw = elim (send_nil bw.config bw.pilots) [
    | none ↦ (bw, pilots_timeout)
    | some p ↦
        let bw1 = record bw { pilots = p } in
        elim (send_nil bw.config bw.thermals) [
          | none ↦ (bw1, thermals_timeout)
          | some t ↦
              let bw2 = record bw1 { thermals = t } in
              elim (send_nil bw.config bw.stations) [
                | none ↦ (bw2, stations_timeout)
                | some s ↦ (record bw2 { stations = s }, flushed)
              ]
        ]
  ]

  -- `Stop` up to its wait for the workers, and after it.
  unfoldable pub cancel : BatchWriter P T S → BatchWriter P T S
  cancel bw = record bw { done = true }

  unfoldable pub close_channels : BatchWriter P T S → BatchWriter P T S
  close_channels bw = record bw { closed = true }

  -- `GetMetrics` reads the depths anew.
  unfoldable pub get_metrics : BatchWriter P T S → BatchWriter P T S
  get_metrics bw = record bw {
    pilots = record bw.pilots { queue_depth = length bw.pilots.channel };
    thermals = record bw.thermals { queue_depth = length bw.thermals.channel };
    stations = record bw.stations { queue_depth = length bw.stations.channel };
  }
