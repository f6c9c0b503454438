-- ===== src/Service/Batch/Accounts.antt =====
-- The metrics of a lane of internal/service/batch_writer.go against its log, and the bounds of its
-- channel, buffer and batches.
use flybeeper_com_map_fanet.Prelude.{
  length-append, ℕ, ◌+◌, ◌≤◌, ◌<◌, ◌≡◌, refl, subst, ap, Bool, true, false, Option, none, some,
  List, [], ◌∷◌, ◌++◌, length, arith, Option-cases, inl, inr,
}
use flybeeper_com_map_fanet.Service.Batch.Retry.{
  Retried, saved, exhausted, cancelled, retry_operation,
}
use flybeeper_com_map_fanet.Service.Batch.Lane.{
  empty_lane, BatchConfig, Lane, Worker, waiting, saving, returned, Wake, received, ticked,
  cancellation, select, has_room, send_item, queue_item, send_nil, begin_flush, receive_from,
  worker_select, round_of, count_flush, end_of,
}
use flybeeper_com_map_fanet.Service.Batch.Calls.{
  LaneCall, queue_call, nil_call, wake_call, answer_call, Entry, entered, refused, written, lost,
  logged, log_queue, log_answer, batch_of, step, run,
}

module _ {A : Type 0} where
  -- What a log tells the counters.
  abbrev pub queued_in : List (Entry A) → ℕ
  queued_in [] = 0
  queued_in (entered none ∷ log) = queued_in log
  queued_in (entered (some a) ∷ log) = 1 + queued_in log
  queued_in (refused ∷ log) = queued_in log
  queued_in (written batch ∷ log) = queued_in log
  queued_in (lost batch ∷ log) = queued_in log

  abbrev pub batches_in : List (Entry A) → ℕ
  batches_in [] = 0
  batches_in (entered x ∷ log) = batches_in log
  batches_in (refused ∷ log) = batches_in log
  batches_in (written batch ∷ log) = 1 + batches_in log
  batches_in (lost batch ∷ log) = batches_in log

  abbrev pub written_in : List (Entry A) → ℕ
  written_in [] = 0
  written_in (entered x ∷ log) = written_in log
  written_in (refused ∷ log) = written_in log
  written_in (written batch ∷ log) = length batch + written_in log
  written_in (lost batch ∷ log) = written_in log

  -- Refused items and those of lost batches.
  abbrev pub failed_in : List (Entry A) → ℕ
  failed_in [] = 0
  failed_in (entered x ∷ log) = failed_in log
  failed_in (refused ∷ log) = 1 + failed_in log
  failed_in (written batch ∷ log) = failed_in log
  failed_in (lost batch ∷ log) = length batch + failed_in log

  pub record Counts (lane : Lane A) (log : List (Entry A)) (lane' : Lane A) : Type 0 where
    pub queued : lane'.queued ≡ lane.queued + queued_in log
    pub batched : lane'.batched ≡ lane.batched + batches_in log
    pub processed : lane'.processed ≡ lane.processed + written_in log
    pub errors : lane'.errors ≡ lane.errors + failed_in log

  -- A worker that does not wait has left an empty buffer.
  abbrev pub IsTidy : ℕ → Worker A → List (Option A) → Type 0
  IsTidy size waiting buffer = length buffer < size
  IsTidy size (saving batch leaving) buffer =
      (buffer ≡ []) × (1 ≤ length batch) × (length batch ≤ size)
  IsTidy size returned buffer = buffer ≡ []

  pub record IsBounded (c : BatchConfig) (lane : Lane A) : Type 0 where
    pub channel_le : length lane.channel ≤ c.channel_buffer
    pub tidy : IsTidy c.batch_size lane.worker lane.buffer

  -- One step counts, and keeps the bounds.
  abbrev Goes : BatchConfig → Lane A → Option (Lane A × List (Entry A)) → Type 0
  Goes c lane none = Unit
  Goes c lane (some (lane', log)) = Counts lane log lane' × IsBounded c lane'

  queue_item-Goes :
      (c : BatchConfig) (done closed choice : Bool) (a : A) (lane : Lane A)
      → IsBounded c lane
      → let (lane', r) = queue_item c done closed choice a lane in
        Goes c lane (some (lane', log_queue r a))
  unfolding queue_item send_item has_room select
  queue_item-Goes c done closed choice a lane h =
      ground (arith, length-append lane.channel (some a ∷ []))

  send_nil-Goes :
      (c : BatchConfig) (lane : Lane A)
      → IsBounded c lane
      → Goes c lane (logged (entered none ∷ []) (send_nil c lane))
  unfolding send_nil has_room
  send_nil-Goes c lane h = ground (arith, length-append lane.channel (none ∷ []))

  begin_flush-Goes :
      (c : BatchConfig) (leaving : Bool) (lane : Lane A)
      → 1 ≤ c.batch_size
      → length lane.channel ≤ c.channel_buffer
      → length lane.buffer ≤ c.batch_size
      → Goes c lane (some (begin_flush leaving lane, []))
  unfolding begin_flush
  begin_flush-Goes c leaving lane pos ch buf = ground arith

  receive_from-Goes :
      (c : BatchConfig) (ch : List (Option A)) (lane : Lane A)
      → 1 ≤ c.batch_size
      → length ch ≤ c.channel_buffer
      → lane.worker ≡ waiting
      → length lane.buffer < c.batch_size
      → Goes c lane (logged [] (receive_from c ch lane))
  unfolding receive_from begin_flush
  receive_from-Goes c [] lane pos le w lt = tt
  receive_from-Goes c (x ∷ rest) lane pos le w lt =
      ground (arith, length-append lane.buffer (x ∷ []))

  worker_select-Goes :
      (c : BatchConfig) (done : Bool) (wake : Wake) (lane : Lane A)
      → 1 ≤ c.batch_size
      → length lane.channel ≤ c.channel_buffer
      → lane.worker ≡ waiting
      → length lane.buffer < c.batch_size
      → Goes c lane (logged [] (worker_select c done wake lane))
  unfolding worker_select
  worker_select-Goes c done received lane pos le w lt =
      receive_from-Goes c lane.channel lane pos le w lt
  worker_select-Goes c done ticked lane pos le w lt =
      begin_flush-Goes c false lane pos le (omega arith)
  worker_select-Goes c true cancellation lane pos le w lt =
      begin_flush-Goes c true lane pos le (omega arith)
  worker_select-Goes c false cancellation lane pos le w lt = tt

  round_of-Goes :
      (w : Worker A) (c : BatchConfig) (done : Bool) (wake : Wake) (lane : Lane A)
      → 1 ≤ c.batch_size
      → lane.worker ≡ w
      → IsBounded c lane
      → Goes c lane (logged [] (round_of w c done wake lane))
  unfolding round_of
  round_of-Goes waiting c done wake lane pos e h =
      worker_select-Goes c done wake lane pos h.channel_le e
        (subst (λ w. IsTidy c.batch_size w lane.buffer) e h.tidy)
  round_of-Goes (saving batch leaving) c done wake lane pos e h = tt
  round_of-Goes returned c done wake lane pos e h = tt

  -- The flush of a batch counts it, and leaves an empty buffer.
  end_of-Goes :
      (w : Worker A) (c : BatchConfig) (r : Retried) (lane : Lane A)
      → 1 ≤ c.batch_size
      → lane.worker ≡ w
      → IsBounded c lane
      → Goes c lane (logged (log_answer r (batch_of w)) (end_of w r lane))
  unfolding end_of count_flush
  end_of-Goes waiting c r lane pos e h = tt
  end_of-Goes (saving batch leaving) c (saved n) lane pos e h =
      let tidy = subst (λ w. IsTidy c.batch_size w lane.buffer) e h.tidy in
      ground (arith, ap length tidy.0)
  end_of-Goes (saving batch leaving) c (exhausted n) lane pos e h =
      let tidy = subst (λ w. IsTidy c.batch_size w lane.buffer) e h.tidy in
      ground (arith, ap length tidy.0)
  end_of-Goes (saving batch leaving) c (cancelled n) lane pos e h =
      let tidy = subst (λ w. IsTidy c.batch_size w lane.buffer) e h.tidy in
      ground (arith, ap length tidy.0)
  end_of-Goes returned c r lane pos e h = tt

  step-Goes :
      (c : BatchConfig) (call : LaneCall A) (lane : Lane A)
      → 1 ≤ c.batch_size
      → IsBounded c lane
      → Goes c lane (step c call lane)
  unfolding step
  step-Goes c (queue_call done closed choice a) lane pos h =
      queue_item-Goes c done closed choice a lane h
  step-Goes c nil_call lane pos h = send_nil-Goes c lane h
  step-Goes c (wake_call done wake) lane pos h =
      round_of-Goes lane.worker c done wake lane pos refl h
  step-Goes c (answer_call env) lane pos h =
      end_of-Goes lane.worker c (retry_operation env c.max_retries) lane pos refl h

  sums-append :
      (xs ys : List (Entry A))
      → (queued_in (xs ++ ys) ≡ queued_in xs + queued_in ys)
        × (batches_in (xs ++ ys) ≡ batches_in xs + batches_in ys)
        × (written_in (xs ++ ys) ≡ written_in xs + written_in ys)
        × (failed_in (xs ++ ys) ≡ failed_in xs + failed_in ys)
  sums-append [] ys = omega arith
  sums-append (entered none ∷ xs) ys = omega (arith, sums-append xs ys)
  sums-append (entered (some a) ∷ xs) ys = omega (arith, sums-append xs ys)
  sums-append (refused ∷ xs) ys = omega (arith, sums-append xs ys)
  sums-append (written batch ∷ xs) ys = omega (arith, sums-append xs ys)
  sums-append (lost batch ∷ xs) ys = omega (arith, sums-append xs ys)

  Counts-append :
      (l : Lane A) (xs : List (Entry A)) (m : Lane A) (ys : List (Entry A)) (n : Lane A)
      → Counts l xs m
      → Counts m ys n
      → Counts l (xs ++ ys) n
  Counts-append l xs m ys n p q = ground (arith, sums-append xs ys)

  -- Over any sequence of steps of a lane whose buffer is below the positive batch size, the four
  -- counters are those of the log: each accepted item that is not nil is queued once, each written
  -- batch counts as one and with its items, and the errors are the items refused by a full queue
  -- and those of the batches that were given up. The channel stays within its buffer, a batch has
  -- from one to `BatchSize` items, and a worker that has returned leaves an empty buffer.
  pub run-accounts :
      (c : BatchConfig) (calls : List (LaneCall A)) (lane : Lane A)
      → 1 ≤ c.batch_size
      → IsBounded c lane
      → let (lane', log) = run c calls lane in Counts lane log lane' × IsBounded c lane'
  unfolding run
  run-accounts c [] lane pos h = (ground arith, h)
  run-accounts c (call ∷ calls) lane pos h = elim (Option-cases (step c call lane)) [
    | inl e ↦ rw (e, run) (run-accounts c calls lane pos h)
    | inr ((lane', log), e) ↦
        let (last, rest) = run c calls lane' in
        let (here, bounded) = subst (Goes c lane) e (step-Goes c call lane pos h) in
        let (later, ends) = run-accounts c calls lane' pos bounded in
        rw (e, run) (Counts-append lane log lane' rest last here later, ends)
  ]

  pub empty_lane-IsBounded : (c : BatchConfig) → 1 ≤ c.batch_size → IsBounded c (empty_lane {A = A})
  empty_lane-IsBounded c pos = record { channel_le = omega arith; tidy = omega arith }
