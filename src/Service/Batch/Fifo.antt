-- ===== src/Service/Batch/Fifo.antt =====
-- The order of the items of a lane of internal/service/batch_writer.go, from their queueing to the
-- batches.
use flybeeper_com_map_fanet.Prelude.{
  ◌≤◌, subst, ◌≡◌, refl, sym, ap, ◌∙◌, Bool, true, false, Option, none, some, List, [], ◌∷◌, ◌++◌,
  leb, length, arith, if_both, Option-cases, inl, inr,
}
use mathlib.Core.List.{append-nil, append_assoc}
use flybeeper_com_map_fanet.Service.Batch.Retry.{
  Retried, saved, exhausted, cancelled, retry_operation,
}
use flybeeper_com_map_fanet.Service.Batch.Accounts.{IsTidy, run-accounts, empty_lane-IsBounded}
use flybeeper_com_map_fanet.Service.Batch.Lane.{
  empty_lane, BatchConfig, Lane, Worker, waiting, saving, returned, Wake, received, ticked,
  cancellation, select, has_room, send_item, queue_item, send_nil, begin_flush, receive_from,
  worker_select, round_of, count_flush, end_of,
}
use flybeeper_com_map_fanet.Service.Batch.Calls.{
  LaneCall, queue_call, nil_call, wake_call, answer_call, Entry, entered, refused, written, lost,
  logged, log_queue, log_answer, batch_of, step, run, entered_items, left_items, held,
}

module _ {A : Type 0} where
  -- What one step does to the items of a lane.
  abbrev Moves : Lane A → Option (Lane A × List (Entry A)) → Type 0
  Moves lane none = Unit
  Moves lane (some (lane', log)) = held lane ++ entered_items log ≡ left_items log ++ held lane'

  begin_flush-held :
      (leaving : Bool) (lane : Lane A)
      → batch_of lane.worker ≡ []
      → held (begin_flush leaving lane) ≡ held lane
  unfolding begin_flush
  begin_flush-held leaving lane idle = ground arith

  held-append :
      (lane : Lane A) (x : Option A)
      → held lane ++ (x ∷ []) ≡ held (record lane { channel = lane.channel ++ (x ∷ []) })
  held-append lane x = rw (
    append_assoc (batch_of lane.worker) (lane.buffer ++ lane.channel) (x ∷ []),
    append_assoc lane.buffer lane.channel (x ∷ []),
  )

  queue_item-Moves :
      (c : BatchConfig) (done closed choice : Bool) (a : A) (lane : Lane A)
      → let (lane', r) = queue_item c done closed choice a lane in
        Moves lane (some (lane', log_queue r a))
  unfolding queue_item send_item has_room select
  queue_item-Moves c done closed choice a lane =
      ground (arith, held-append lane (some a), append-nil (held lane))

  send_nil-Moves : (c : BatchConfig) (lane : Lane A) → Moves lane (step c nil_call lane)
  unfolding step send_nil
  send_nil-Moves c lane = ground (arith, held-append lane none, append-nil (held lane))

  -- The oldest item of the channel goes to the end of the buffer.
  held-receive :
      (lane : Lane A) (x : Option A) (rest : List (Option A))
      → lane.channel ≡ x ∷ rest
      → held (record lane { channel = rest; buffer = lane.buffer ++ (x ∷ []) }) ≡ held lane
  held-receive lane x rest e =
      rw e (ap (◌++◌ (batch_of lane.worker)) (append_assoc lane.buffer (x ∷ []) rest))

  abbrev Keeps : Lane A → Option (Lane A) → Type 0
  Keeps lane none = Unit
  Keeps lane (some lane') = held lane ≡ held lane'

  receive_from-Keeps :
      (c : BatchConfig) (ch : List (Option A)) (lane : Lane A)
      → lane.channel ≡ ch
      → batch_of lane.worker ≡ []
      → Keeps lane (receive_from c ch lane)
  unfolding receive_from
  receive_from-Keeps c [] lane e idle = tt
  receive_from-Keeps c (x ∷ rest) lane e idle =
      let lane' : Lane A = record lane { channel = rest; buffer = lane.buffer ++ (x ∷ []) } in
      if_both (λ (l : Lane A). held lane ≡ held l) (leb c.batch_size (length lane'.buffer))
        {x = begin_flush false lane'} {y = lane'}
        (sym (begin_flush-held false lane' idle ∙ held-receive lane x rest e))
        (sym (held-receive lane x rest e))

  worker_select-Keeps :
      (c : BatchConfig) (done : Bool) (wake : Wake) (lane : Lane A)
      → batch_of lane.worker ≡ []
      → Keeps lane (worker_select c done wake lane)
  unfolding worker_select
  worker_select-Keeps c done received lane idle = receive_from-Keeps c lane.channel lane refl idle
  worker_select-Keeps c done ticked lane idle = sym (begin_flush-held false lane idle)
  worker_select-Keeps c true cancellation lane idle = sym (begin_flush-held true lane idle)
  worker_select-Keeps c false cancellation lane idle = tt

  round_of-Keeps :
      (w : Worker A) (c : BatchConfig) (done : Bool) (wake : Wake) (lane : Lane A)
      → lane.worker ≡ w
      → Keeps lane (round_of w c done wake lane)
  unfolding round_of
  round_of-Keeps waiting c done wake lane e = worker_select-Keeps c done wake lane (ap batch_of e)
  round_of-Keeps (saving batch leaving) c done wake lane e = tt
  round_of-Keeps returned c done wake lane e = tt

  -- A batch leaves, whatever the answer is.
  end_of-Moves :
      (w : Worker A) (r : Retried) (lane : Lane A)
      → lane.worker ≡ w
      → Moves lane (logged (log_answer r (batch_of w)) (end_of w r lane))
  unfolding end_of count_flush
  end_of-Moves waiting r lane e = tt
  end_of-Moves (saving batch leaving) (saved n) lane e =
      ground (arith, append-nil batch, append-nil (held lane))
  end_of-Moves (saving batch leaving) (exhausted n) lane e =
      ground (arith, append-nil batch, append-nil (held lane))
  end_of-Moves (saving batch leaving) (cancelled n) lane e =
      ground (arith, append-nil batch, append-nil (held lane))
  end_of-Moves returned r lane e = tt

  logged-Moves : (lane : Lane A) (o : Option (Lane A)) → Keeps lane o → Moves lane (logged [] o)
  logged-Moves lane none k = tt
  logged-Moves lane (some lane') k = append-nil (held lane) ∙ k

  step-Moves : (c : BatchConfig) (call : LaneCall A) (lane : Lane A) → Moves lane (step c call lane)
  unfolding step
  step-Moves c (queue_call done closed choice a) lane = queue_item-Moves c done closed choice a lane
  step-Moves c nil_call lane = send_nil-Moves c lane
  step-Moves c (wake_call done wake) lane =
      logged-Moves lane _ (round_of-Keeps lane.worker c done wake lane refl)
  step-Moves c (answer_call env) lane =
      end_of-Moves lane.worker (retry_operation env c.max_retries) lane refl

  entered_items-append :
      (xs ys : List (Entry A)) → entered_items (xs ++ ys) ≡ entered_items xs ++ entered_items ys
  entered_items-append [] ys = refl
  entered_items-append (entered x ∷ xs) ys = ap (◌∷◌ x) (entered_items-append xs ys)
  entered_items-append (refused ∷ xs) ys = entered_items-append xs ys
  entered_items-append (written batch ∷ xs) ys = entered_items-append xs ys
  entered_items-append (lost batch ∷ xs) ys = entered_items-append xs ys

  left_items-append :
      (xs ys : List (Entry A)) → left_items (xs ++ ys) ≡ left_items xs ++ left_items ys
  left_items-append [] ys = refl
  left_items-append (entered x ∷ xs) ys = left_items-append xs ys
  left_items-append (refused ∷ xs) ys = left_items-append xs ys
  left_items-append (written batch ∷ xs) ys =
      rw (left_items-append xs ys) (sym (append_assoc batch (left_items xs) (left_items ys)))
  left_items-append (lost batch ∷ xs) ys =
      rw (left_items-append xs ys) (sym (append_assoc batch (left_items xs) (left_items ys)))

  join_moves :
      (h e1 l1 h1 e2 l2 h2 : List (Option A))
      → h ++ e1 ≡ l1 ++ h1
      → h1 ++ e2 ≡ l2 ++ h2
      → h ++ (e1 ++ e2) ≡ (l1 ++ l2) ++ h2
  join_moves h e1 l1 h1 e2 l2 h2 p q =
      sym (append_assoc h e1 e2)
      ∙ ap (λ x. x ++ e2) p
      ∙ append_assoc l1 h1 e2
      ∙ ap (◌++◌ l1) q
      ∙ sym (append_assoc l1 l2 h2)

  -- Over any sequence of steps of a lane, what it held and then what entered is, in this order,
  -- what left in batches and then what it holds: no item is lost on the way, doubled or overtaken,
  -- however queueing, `Flush`, the worker's rounds and the answers of the database interleave.
  pub run-fifo :
      (c : BatchConfig) (calls : List (LaneCall A)) (lane : Lane A)
      → let (lane', log) = run c calls lane in
        held lane ++ entered_items log ≡ left_items log ++ held lane'
  unfolding run
  run-fifo c [] lane = append-nil (held lane)
  run-fifo c (call ∷ calls) lane = elim (Option-cases (step c call lane)) [
    | inl e ↦ rw (e, run) (run-fifo c calls lane)
    | inr ((lane', log), e) ↦
        let (last, rest) = run c calls lane' in
        rw (e, run)
          (rw (entered_items-append log rest, left_items-append log rest)
            (join_moves (held lane) (entered_items log) (left_items log) (held lane')
              (entered_items rest) (left_items rest) (held last)
              (subst (Moves lane) e (step-Moves c call lane)) (run-fifo c calls lane')))
  ]

  -- From an empty lane, once the worker has returned, what is still in the channel is exactly what
  -- entered and never left with a batch, written or lost: the items that were taken and those that are
  -- still there are, in this order, all that entered.
  pub run-abandons :
      (c : BatchConfig) (calls : List (LaneCall A))
      → 1 ≤ c.batch_size
      → (run c calls empty_lane).0.worker ≡ returned
      → let (lane', log) = run c calls empty_lane in
        entered_items log ≡ left_items log ++ lane'.channel
  run-abandons c calls pos e =
      let (lane', log) = run c calls empty_lane in
      let bounded = (run-accounts c calls empty_lane pos (empty_lane-IsBounded c pos)).1 in
      let bare : lane'.buffer ≡ [] =
        subst (λ w. IsTidy c.batch_size w lane'.buffer) e bounded.tidy in
      run-fifo c calls empty_lane
      ∙ ap (λ w. left_items log ++ (batch_of w ++ (lane'.buffer ++ lane'.channel))) e
      ∙ ap (λ b. left_items log ++ (b ++ lane'.channel)) bare
