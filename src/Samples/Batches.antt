-- ===== src/Samples/Batches.antt =====
-- A lane of the batch writer that fills a batch of two, loses a batch and stops.
use flybeeper_com_map_fanet.Prelude.{
  ap, ℕ, true, false, List, [], ◌∷◌, ◌++◌, none, some, ◌≡◌, refl, arith, ltb,
}
use flybeeper_com_map_fanet.Service.Batch.Retry.{
  retry_from, Attempts, saved, exhausted, cancelled, retry_operation, Means, retry_operation-Means,
}
use flybeeper_com_map_fanet.Service.Batch.Lane.{
  count_flush, end_of, begin_flush, receive_from, round_of, worker_select, send_nil, select,
  has_room, send_item, queue_item, BatchConfig, returned, received, cancellation, empty_lane,
}
use flybeeper_com_map_fanet.Service.Batch.Calls.{
  step, LaneCall, queue_call, nil_call, wake_call, answer_call, entered, refused, written, lost,
  run, entered_items, left_items, held,
}
use flybeeper_com_map_fanet.Service.Batch.Accounts.{
  Counts, IsBounded, empty_lane-IsBounded, run-accounts,
}
use flybeeper_com_map_fanet.Service.Batch.Lane.{send_nil}
use flybeeper_com_map_fanet.Service.Batch.Lane.{receive_from}
use flybeeper_com_map_fanet.Service.Batch.Lane.{count_flush}
use flybeeper_com_map_fanet.Service.Batch.Fifo.{run-fifo, run-abandons}

abbrev two_by_three : BatchConfig
two_by_three = record { batch_size = 2; channel_buffer = 3; max_retries = 1 }

-- The second call succeeds, no call does, and the context is cancelled before the second.
abbrev second_time : Attempts
second_time = record { succeeds = λ n. ltb 0 n; interrupted = λ n. false }

abbrev never : Attempts
never = record { succeeds = λ n. false; interrupted = λ n. false }

abbrev interrupted_once : Attempts
interrupted_once = record { succeeds = λ n. false; interrupted = λ n. true }

retries :
    (retry_operation second_time 3 ≡ saved 2)
    × (retry_operation never 3 ≡ exhausted 4)
    × (retry_operation interrupted_once 3 ≡ cancelled 1)
unfolding retry_operation retry_from
retries = (refl, refl, refl)

retry_operation-Means_example : Means second_time 0 4 (retry_operation second_time 3)
retry_operation-Means_example = retry_operation-Means second_time 3

-- The fourth item finds the channel full; the first batch is written at its second call, the second
-- one is lost; item 5 comes as `Stop` has cancelled the context, and stays in the channel.
abbrev busy_calls : List (LaneCall ℕ)
busy_calls =
    queue_call false false true 1
    ∷ queue_call false false true 2
    ∷ queue_call false false true 3
    ∷ queue_call false false true 4
    ∷ wake_call false received
    ∷ wake_call false received
    ∷ wake_call false received
    ∷ nil_call
    ∷ answer_call second_time
    ∷ wake_call false received
    ∷ wake_call true received
    ∷ answer_call never
    ∷ queue_call true false true 5
    ∷ wake_call true cancellation
    ∷ []

busy : run two_by_three busy_calls empty_lane ≡ (
  record {
    channel = some 5 ∷ [];
    buffer = [];
    worker = returned;
    queued = 4;
    batched = 1;
    processed = 2;
    errors = 3;
    queue_depth = 1;
  },
  entered (some 1)
      ∷ entered (some 2)
      ∷ entered (some 3)
      ∷ refused
      ∷ entered none
      ∷ written (some 1 ∷ some 2 ∷ [])
      ∷ lost (some 3 ∷ none ∷ [])
      ∷ entered (some 5)
      ∷ [],
)
unfolding run step queue_item send_item has_room select send_nil worker_select round_of receive_from
    begin_flush end_of count_flush retry_operation retry_from
busy = refl

run-fifo_example :
    let (lane', log) = run two_by_three busy_calls empty_lane in
    held (empty_lane {A = ℕ}) ++ entered_items log ≡ left_items log ++ held lane'
run-fifo_example = run-fifo two_by_three busy_calls empty_lane

run-accounts_example :
    let (lane', log) = run two_by_three busy_calls empty_lane in
    Counts empty_lane log lane' × IsBounded two_by_three lane'
run-accounts_example =
    run-accounts two_by_three busy_calls empty_lane (omega arith)
      (empty_lane-IsBounded two_by_three (omega arith))

busy_returns : (run two_by_three busy_calls empty_lane).0.worker ≡ returned
busy_returns = ap (λ r. r.0.worker) busy

run-abandons_example :
    let (lane', log) = run two_by_three busy_calls empty_lane in
    entered_items log ≡ left_items log ++ lane'.channel
run-abandons_example = run-abandons two_by_three busy_calls (omega arith) busy_returns
