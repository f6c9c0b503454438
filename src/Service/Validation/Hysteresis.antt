-- ===== src/Service/Validation/Hysteresis.antt =====
-- The two thresholds of internal/service/validation.go over whole runs of packets: how many packets it
-- takes to be stored and to be dropped, and what `InvalidateDevice` leaves.
use flybeeper_com_map_fanet.Prelude.{
  ℕ, suc, ◌+◌, ◌*◌, ◌≤◌, ◌<◌, ◌≡◌, refl, sym, subst, ap, ◌∙◌, Bool, true, false, some, List, [],
  ◌∷◌, String, str_eq, arith, length, foldl, keep_if, lookup, insert, lookup-insert_self, All,
  Bool-cases, inl, inr, Float,
}
use mathlib.Core.Option
use flybeeper_com_map_fanet.Service.Validation.Defs.{Pilot, DeviceState, Config, Service}
use flybeeper_com_map_fanet.Service.Validation.Pilot.{
  validate_known, validate_pilot, invalidate_device,
}
use flybeeper_com_map_fanet.Service.Validation.Scores.{
  Standing, standing, rate, rate_times, rate_times-false, rate_times-true, validate_known-rate,
}
use flybeeper_com_map_fanet.Service.Validation.Runs.{
  Entry, run, standing_of, follow, flag_of, run-follow, validate_pilot-known,
}

-- What the thresholds must satisfy to make a hysteresis.
pub record IsSane {F : Type 0} (c : Config F) : Type 0 where
  pub gap : c.max_score_to_remove < c.min_score_to_add
  pub start_below : c.initial_score < c.min_score_to_add
  pub add_le : c.min_score_to_add ≤ c.max_score

-- The log entries of one device.
abbrev pub own : String → List Entry → List Entry
own id = keep_if (λ e. str_eq e.device id)

module _ {F : Type 0} (c : Config F) (id : String) where
  foldl-rate_times :
      (v : Bool) (log : List Entry) (x : Standing)
      → All (λ e. e.is_valid ≡ v) (own id log)
      → foldl (follow c id) (some x) log ≡ some (rate_times c v (length (own id log)) x)
  foldl-rate_times v [] x h = refl
  foldl-rate_times v (e ∷ log) x h = elim (Bool-cases (str_eq e.device id)) [
    | inl mine ↦
        let h' : (e.is_valid ≡ v) × All (λ e. e.is_valid ≡ v) (own id log) = rw mine at h in
        rw (mine, h'.0) (foldl-rate_times v log (rate c v x) h'.1)
    | inr other ↦ rw other (foldl-rate_times v log x (rw other at h))
  ]

module _ {F : Type 0} ⦃fl : Float F⦄ (s : Service F) (ps : List (Pilot F)) (id : String) where
  module _ (v : Bool) (n : ℕ) {x : Standing} (known : standing_of s id ≡ some x) where
    -- The device's standing after `n + 1` packets of its own that are judged alike.
    standing_of-run :
        All (λ e. e.is_valid ≡ v) (own id (run s ps).1)
        → length (own id (run s ps).1) ≡ suc n
        → standing_of (run s ps).0 id ≡ some (rate_times s.config v (suc n) x)
    standing_of-run all len =
        run-follow ps s id
        ∙ ap (λ y. foldl (follow s.config id) y (run s ps).1) known
        ∙ foldl-rate_times s.config id v (run s ps).1 x all
        ∙ ap (λ k. some (rate_times s.config v k x)) len

  -- A known device whose next `n + 1` packets are all invalid is not stored after them, if so many
  -- penalties take its score to the lower threshold, whatever other devices send in between.
  pub run-drops :
      (n : ℕ) {x : Standing}
      → standing_of s id ≡ some x
      → x.score ≤ s.config.max_score_to_remove + suc n * s.config.invalid_packet_penalty
      → All (λ e. e.is_valid ≡ false) (own id (run s ps).1)
      → length (own id (run s ps).1) ≡ suc n
      → flag_of (standing_of (run s ps).0 id) ≡ false
  run-drops n {x} known enough all len =
      ap flag_of (standing_of-run false n known all len) ∙ rate_times-false s.config n x enough

  -- A known device whose next `n + 1` packets are all valid is stored after them, if so many bonuses
  -- take its score to the upper threshold, whatever other devices send in between.
  pub run-stores :
      (n : ℕ) {x : Standing}
      → IsSane s.config
      → standing_of s id ≡ some x
      → s.config.min_score_to_add ≤ x.score + suc n * s.config.valid_packet_bonus
      → All (λ e. e.is_valid ≡ true) (own id (run s ps).1)
      → length (own id (run s ps).1) ≡ suc n
      → flag_of (standing_of (run s ps).0 id) ≡ true
  run-stores n {x} sane known enough all len =
      ap flag_of (standing_of-run true n known all len)
      ∙ rate_times-true s.config n x sane.gap sane.add_le enough

module _ {F : Type 0} ⦃fl : Float F⦄ where
  abbrev invalidated : Service F → String → DeviceState F → Service F
  invalidated s id st = record s {
    states = insert id (record st { is_validated = false; packet_count = 0 }) s.states;
    metrics = record s.metrics { invalidated_ids = s.metrics.invalidated_ids + 1 };
  }

  invalidate_device-known :
      (s : Service F) (id : String) (st : DeviceState F)
      → lookup id s.states ≡ some st
      → invalidate_device s id ≡ (invalidated s id st, true)
  unfolding invalidate_device
  invalidate_device-known s id st e = rw (e, invalidate_device)

  rate-high :
      (c : Config F) (v : Bool) (x : Standing)
      → IsSane c
      → x.score ≤ c.max_score
      → c.min_score_to_add + c.invalid_packet_penalty ≤ x.score
      → (rate c v x).flag ≡ true
  rate-high c true x sane le high = ground arith
  rate-high c false x sane le high = ground arith

  -- `InvalidateDevice` resets the flag and leaves the score. So a device whose score is a penalty or
  -- more above the upper threshold is stored again by its very next packet, even an invalid one.
  pub invalidate_device-reinstated :
      (s : Service F) (p : Pilot F) {st : DeviceState F}
      → lookup p.device_id s.states ≡ some st
      → IsSane s.config
      → st.validation_score ≤ s.config.max_score
      → s.config.min_score_to_add + s.config.invalid_packet_penalty ≤ st.validation_score
      → let s' = (invalidate_device s p.device_id).0 in
        (flag_of (standing_of s' p.device_id) ≡ false) × ((validate_pilot s' p).2 ≡ true)
  invalidate_device-reinstated s p {st} known sane le high =
      let id = p.device_id in
      let st' : DeviceState F = record st { is_validated = false; packet_count = 0 } in
      let s' = invalidated s id st in
      let found = lookup-insert_self id st' s.states in
      let k = validate_known s.config p st' in
      subst
        (λ (r : Service F × Bool).
          (flag_of (standing_of r.0 id) ≡ false) × ((validate_pilot r.0 p).2 ≡ true))
        (sym (invalidate_device-known s id st known))
        (
          unfold standing_of in ap (λ o. flag_of (Option.map standing o)) found,
          ap (λ (r : Service F × Bool × Bool). r.2) (validate_pilot-known s' p st' found)
              ∙ ap (λ (x : Standing). x.flag) (validate_known-rate s.config p st')
              ∙ rate-high s.config k.is_valid (standing st') sane le high,
        )
