-- ===== src/Service/Batch/Calls.antt =====
-- Sequences of steps of one lane of internal/service/batch_writer.go, with a log of what enters and
-- leaves it: every interleaving of the queueing goroutines, `Flush`, the worker and `Stop`.
use flybeeper_com_map_fanet.Prelude.{Bool, Option, none, some, List, [], ◌∷◌, ◌++◌}
use flybeeper_com_map_fanet.Service.Batch.Retry.{
  Attempts, Retried, saved, exhausted, cancelled, retry_operation,
}
use flybeeper_com_map_fanet.Service.Batch.Lane.{
  BatchConfig, Lane, Worker, waiting, saving, returned, QueueResult, accepted, shutting_down,
  queue_full, panics, Wake, queue_item, send_nil, worker_round, end_flush,
}

-- The context may be cancelled and the channel closed from outside at any step.
pub data LaneCall (A : Type 0) : Type 0 where
  queue_call : Bool → Bool → Bool → A → LaneCall A
  nil_call : LaneCall A
  wake_call : Bool → Wake → LaneCall A
  answer_call : Attempts → LaneCall A

pub data Entry (A : Type 0) : Type 0 where
  entered : Option A → Entry A
  refused : Entry A
  written lost : List (Option A) → Entry A

module _ {A : Type 0} where
  abbrev pub log_queue : QueueResult → A → List (Entry A)
  log_queue accepted a = entered (some a) ∷ []
  log_queue shutting_down a = []
  log_queue queue_full a = refused ∷ []
  log_queue panics a = []

  abbrev pub log_answer : Retried → List (Option A) → List (Entry A)
  log_answer (saved n) batch = written batch ∷ []
  log_answer (exhausted n) batch = lost batch ∷ []
  log_answer (cancelled n) batch = lost batch ∷ []

  -- The batch that the worker holds.
  abbrev pub batch_of : Worker A → List (Option A)
  batch_of waiting = []
  batch_of (saving batch leaving) = batch
  batch_of returned = []

  abbrev pub logged : List (Entry A) → Option (Lane A) → Option (Lane A × List (Entry A))
  logged log none = none
  logged log (some lane) = some (lane, log)

  -- A step that is not ready is `none`.
  unfoldable pub step : BatchConfig → LaneCall A → Lane A → Option (Lane A × List (Entry A))
  step c (queue_call done closed choice a) lane =
      let (lane', r) = queue_item c done closed choice a lane in some (lane', log_queue r a)
  step c nil_call lane = logged (entered none ∷ []) (send_nil c lane)
  step c (wake_call done wake) lane = logged [] (worker_round c done wake lane)
  step c (answer_call env) lane =
      logged (log_answer (retry_operation env c.max_retries) (batch_of lane.worker))
        (end_flush c env lane)

  -- The steps that are not ready are passed over.
  unfoldable pub run : BatchConfig → List (LaneCall A) → Lane A → Lane A × List (Entry A)
  run c [] lane = (lane, [])
  run c (call ∷ calls) lane = elim (step c call lane) [
    | none ↦ run c calls lane
    | some (lane', log) ↦ let (last, rest) = run c calls lane' in (last, log ++ rest)
  ]

  -- The items that entered, and those that left in batches, in order.
  abbrev pub entered_items : List (Entry A) → List (Option A)
  entered_items [] = []
  entered_items (entered x ∷ log) = x ∷ entered_items log
  entered_items (refused ∷ log) = entered_items log
  entered_items (written batch ∷ log) = entered_items log
  entered_items (lost batch ∷ log) = entered_items log

  abbrev pub left_items : List (Entry A) → List (Option A)
  left_items [] = []
  left_items (entered x ∷ log) = left_items log
  left_items (refused ∷ log) = left_items log
  left_items (written batch ∷ log) = batch ++ left_items log
  left_items (lost batch ∷ log) = batch ++ left_items log

  -- The items in the lane, the oldest first.
  abbrev pub held : Lane A → List (Option A)
  held lane = batch_of lane.worker ++ (lane.buffer ++ lane.channel)
