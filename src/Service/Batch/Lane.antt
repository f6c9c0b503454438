-- ===== src/Service/Batch/Lane.antt =====
-- One queue of internal/service/batch_writer.go with its worker: the source has the same code for
-- pilots, thermals and stations. A step is what happens between two waits: `flush…` waits for the
-- database inside `retryOperation`, so that it is two steps, and other goroutines go on between them.
-- An item is a pointer, and nil is what `Flush` sends. `done` says that the context is cancelled,
-- `closed` that the channels are closed; `choice` is the draw of a `select` with two cases ready. The
-- channel's buffer is positive. Durations, the logger and the Prometheus metrics are left out.
use flybeeper_com_map_fanet.Prelude.{
  ℕ, ◌+◌, Bool, true, false, ◌||◌, Option, none, some, List, [], ◌∷◌, ◌++◌, ltb, leb, length,
  if◌then◌else◌,
}
use flybeeper_com_map_fanet.Service.Batch.Retry.{
  Attempts, Retried, saved, exhausted, cancelled, retry_operation,
}

-- `BatchConfig`, without its durations and the count of workers, which only a log line reads.
pub record BatchConfig : Type 0 where
  pub batch_size : ℕ
  pub channel_buffer : ℕ
  pub max_retries : ℕ

abbrev pub default_batch_config : BatchConfig
default_batch_config = record { batch_size = 1000; channel_buffer = 10000; max_retries = 3 }

-- Where a worker stands: in its `select`, in `retryOperation` with a batch (and whether it returns
-- after it), or returned.
pub data Worker (A : Type 0) : Type 0 where
  waiting : Worker A
  saving : List (Option A) → Bool → Worker A
  returned : Worker A

-- The channel comes with the oldest item first. The last five fields are those of `BatchMetrics`.
pub record Lane (A : Type 0) : Type 0 where
  pub channel : List (Option A)
  pub buffer : List (Option A)
  pub worker : Worker A
  pub queued : ℕ
  pub batched : ℕ
  pub processed : ℕ
  pub errors : ℕ
  pub queue_depth : ℕ

pub data QueueResult : Type 0 where
  accepted shutting_down queue_full panics : QueueResult

pub data Wake : Type 0 where
  received ticked cancellation : Wake

-- A `select` with a send, `<-bw.ctx.Done()` and a default.
pub data Chosen : Type 0 where
  chosen_send chosen_done chosen_default : Chosen

unfoldable pub select : Bool → Bool → Bool → Chosen
select true true choice = if choice then chosen_send else chosen_done
select true false choice = chosen_send
select false true choice = chosen_done
select false false choice = chosen_default

module _ {A : Type 0} where
  abbrev pub empty_lane : Lane A
  empty_lane = record {
    channel = [];
    buffer = [];
    worker = waiting;
    queued = 0;
    batched = 0;
    processed = 0;
    errors = 0;
    queue_depth = 0;
  }

  unfoldable pub has_room : BatchConfig → Lane A → Bool
  has_room c lane = ltb (length lane.channel) c.channel_buffer

  -- The send to the channel, with the metrics of `Queue…`. A send to a closed channel panics.
  unfoldable pub send_item : Bool → A → Lane A → Lane A × QueueResult
  send_item true a lane = (lane, panics)
  send_item false a lane =
      let channel' = lane.channel ++ (some a ∷ []) in
      (
        record lane { channel = channel'; queued = lane.queued + 1; queue_depth = length channel' },
        accepted,
      )

  -- `QueuePilot`, `QueueThermal` and `QueueStation`
  unfoldable pub queue_item : BatchConfig → Bool → Bool → Bool → A → Lane A → Lane A × QueueResult
  queue_item c done closed choice a lane = elim (select (closed || has_room c lane) done choice) [
    | chosen_send ↦ send_item closed a lane
    | chosen_done ↦ (lane, shutting_down)
    | chosen_default ↦ (record lane { errors = lane.errors + 1 }, queue_full)
  ]

  -- The send of nil in `Flush`; `none` is its timeout.
  unfoldable pub send_nil : BatchConfig → Lane A → Option (Lane A)
  send_nil c lane =
      if has_room c lane then some (record lane { channel = lane.channel ++ (none ∷ []) }) else none

  -- `flush…` up to its first call of the repository.
  unfoldable pub begin_flush : Bool → Lane A → Lane A
  begin_flush leaving lane = elim lane.buffer [
    | [] ↦ record lane { worker = if leaving then returned else waiting }
    | x ∷ xs ↦ record lane { buffer = []; worker = saving (x ∷ xs) leaving }
  ]

  -- The cases of the worker's `select`: `none` for a case that is not ready.
  unfoldable pub receive_from : BatchConfig → List (Option A) → Lane A → Option (Lane A)
  receive_from c [] lane = none
  receive_from c (x ∷ rest) lane =
      let lane' = record lane { channel = rest; buffer = lane.buffer ++ (x ∷ []) } in
      some (if leb c.batch_size (length lane'.buffer) then begin_flush false lane' else lane')

  unfoldable pub worker_select : BatchConfig → Bool → Wake → Lane A → Option (Lane A)
  worker_select c done received lane = receive_from c lane.channel lane
  worker_select c done ticked lane = some (begin_flush false lane)
  worker_select c true cancellation lane = some (begin_flush true lane)
  worker_select c false cancellation lane = none

  -- One round of `pilotWorker`, `thermalWorker` and `stationWorker`, for a worker that waits.
  unfoldable pub round_of : Worker A → BatchConfig → Bool → Wake → Lane A → Option (Lane A)
  round_of waiting c done wake lane = worker_select c done wake lane
  round_of (saving batch leaving) c done wake lane = none
  round_of returned c done wake lane = none

  abbrev pub worker_round : BatchConfig → Bool → Wake → Lane A → Option (Lane A)
  worker_round c done wake lane = round_of lane.worker c done wake lane

  -- The metrics after `retryOperation`.
  unfoldable pub count_flush : Retried → List (Option A) → Lane A → Lane A
  count_flush (saved n) batch lane = record lane {
    batched = lane.batched + 1;
    processed = lane.processed + length batch;
  }
  count_flush (exhausted n) batch lane = record lane { errors = lane.errors + length batch }
  count_flush (cancelled n) batch lane = record lane { errors = lane.errors + length batch }

  -- `flush…` from the answer of `retryOperation` on, for a worker that saves a batch.
  unfoldable pub end_of : Worker A → Retried → Lane A → Option (Lane A)
  end_of waiting r lane = none
  end_of (saving batch leaving) r lane =
      some (record (count_flush r batch lane) { worker = if leaving then returned else waiting })
  end_of returned r lane = none

  abbrev pub end_flush : BatchConfig → Attempts → Lane A → Option (Lane A)
  end_flush c env lane = end_of lane.worker (retry_operation env c.max_retries) lane
