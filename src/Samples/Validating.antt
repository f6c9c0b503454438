-- ===== src/Samples/Validating.antt =====
-- Runs of the validation service: a pilot that stays at one place, seen every ten minutes.
use flybeeper_com_map_fanet.Samples.Numbers.{whole}
use flybeeper_com_map_fanet.Prelude.{
  ℕ, ◌*◌, ◌≡◌, ◌≤◌, refl, true, false, some, none, List, [], ◌∷◌, arith, pos, ℤ, tally, foldl,
  length, IsUnique, lookup, insert, ◌+◌,
}
use flybeeper_com_map_fanet.Models.Points.{distance_m}
use flybeeper_com_map_fanet.Models.Aircraft.{max_speed_by_type}
use flybeeper_com_map_fanet.Service.Validation.Defs.{
  Pilot, Service, new_service, update_score, reach_threshold, drop_threshold, check_hysteresis,
  hours, speed_ok,
}
use flybeeper_com_map_fanet.Service.Validation.Pilot.{
  settle, no_position, with_delta, with_positions, validate_known, first_state, count_packet,
  validate_pilot, invalidate_device, cleanup_old_states,
}
use flybeeper_com_map_fanet.Service.Validation.Runs.{
  Entry, run, standing_of, follow, flag_of, run-follow,
}
use flybeeper_com_map_fanet.Service.Validation.Hysteresis.{
  IsSane, run-drops, run-stores, invalidate_device-reinstated,
}
use flybeeper_com_map_fanet.Service.Validation.Settled.{
  Step, packet, invalidate, cleanup, step, run_steps, is_reset, IsSettled, run_steps-IsSettled,
}
use flybeeper_com_map_fanet.Service.Validation.Counters.{run-Counts, cleanup_old_states-lookup}

abbrev minute : ℕ
minute = 60_000_000_000

-- A paraglider at the equator.
abbrev at_minute : ℕ → Pilot ℤ
at_minute m = record {
  device_id = "A1B2C3";
  type = 1;
  position = some (record { latitude = pos 0; longitude = pos 0; altitude = pos 900 });
  last_update = m * minute;
}

abbrev other : Pilot ℤ
other = record { device_id = "0000FF"; type = 4; position = none; last_update = minute }

abbrev fresh : Service ℤ
fresh = new_service

abbrev first_hour : List (Pilot ℤ)
first_hour = at_minute 0 ∷ other ∷ at_minute 10 ∷ other ∷ at_minute 20 ∷ []

-- The service after the first packets: the pilot is stored with score 80.
abbrev seen : Service ℤ
seen = (run fresh first_hour).0

-- Two packets with the time of the last one: both are refused.
abbrev frozen : List (Pilot ℤ)
frozen = at_minute 20 ∷ other ∷ at_minute 20 ∷ []

seen-standing : standing_of seen "A1B2C3" ≡ some (record { score = 80; flag = true })
unfolding new_service distance_m max_speed_by_type update_score reach_threshold drop_threshold
    check_hysteresis hours speed_ok settle no_position with_delta with_positions validate_known
    first_state count_packet validate_pilot run standing_of lookup insert
seen-standing = refl

fresh-IsSane : IsSane fresh.config
unfolding new_service
fresh-IsSane = record { gap = omega arith; start_below = omega arith; add_le = omega arith }

seen-IsSane : IsSane seen.config
unfolding new_service distance_m max_speed_by_type update_score reach_threshold drop_threshold
    check_hysteresis hours speed_ok settle no_position with_delta with_positions validate_known
    first_state count_packet validate_pilot run standing_of lookup insert
seen-IsSane = record { gap = omega arith; start_below = omega arith; add_le = omega arith }

-- The device is dropped by the two packets, and then it has a score of 30.
dropped-standing :
    standing_of (run seen frozen).0 "A1B2C3" ≡ some (record { score = 30; flag = false })
unfolding new_service distance_m max_speed_by_type update_score reach_threshold drop_threshold
    check_hysteresis hours speed_ok settle no_position with_delta with_positions validate_known
    first_state count_packet validate_pilot run standing_of lookup insert
dropped-standing = refl

run-follow_example :
    standing_of (run seen frozen).0 "A1B2C3"
    ≡ foldl (follow seen.config "A1B2C3") (standing_of seen "A1B2C3") (run seen frozen).1
run-follow_example = run-follow frozen seen "A1B2C3"

-- The device's first packets, a cleanup, and its invalidation.
abbrev steps : List (Step ℤ)
steps =
    packet (at_minute 0)
    ∷ packet (at_minute 10)
    ∷ cleanup (20 * minute) (60 * minute)
    ∷ invalidate "A1B2C3"
    ∷ []

steps-standing :
    standing_of (run_steps steps fresh) "A1B2C3" ≡ some (record { score = 65; flag = false })
unfolding new_service distance_m max_speed_by_type update_score reach_threshold drop_threshold
    check_hysteresis hours speed_ok settle no_position with_delta with_positions validate_known
    first_state count_packet validate_pilot run_steps step standing_of lookup insert
    invalidate_device cleanup_old_states
steps-standing = refl

run_steps-IsSettled_example :
    IsSettled fresh.config (is_reset "A1B2C3" false steps) (record { score = 65; flag = false })
unfolding new_service
run_steps-IsSettled_example =
    run_steps-IsSettled "A1B2C3" steps fresh fresh-IsSane refl steps-standing

run-drops_example : flag_of (standing_of (run seen frozen).0 "A1B2C3") ≡ false
unfolding new_service distance_m max_speed_by_type update_score reach_threshold drop_threshold
    check_hysteresis hours speed_ok settle no_position with_delta with_positions validate_known
    first_state count_packet validate_pilot run standing_of lookup insert
run-drops_example =
    run-drops seen frozen "A1B2C3" 1 seen-standing (omega arith) (refl, (refl, tt)) refl

-- The service after the device's first packet.
abbrev known_once : Service ℤ
known_once = (run fresh (at_minute 0 ∷ [])).0

known_once-IsSane : IsSane known_once.config
unfolding new_service distance_m max_speed_by_type update_score reach_threshold drop_threshold
    check_hysteresis hours speed_ok settle no_position with_delta with_positions validate_known
    first_state count_packet validate_pilot run standing_of lookup insert
known_once-IsSane = record { gap = omega arith; start_below = omega arith; add_le = omega arith }

run-stores_example :
    flag_of (standing_of (run known_once (at_minute 10 ∷ other ∷ at_minute 20 ∷ [])).0 "A1B2C3")
    ≡ true
unfolding new_service distance_m max_speed_by_type update_score reach_threshold drop_threshold
    check_hysteresis hours speed_ok settle no_position with_delta with_positions validate_known
    first_state count_packet validate_pilot run standing_of lookup insert
run-stores_example =
    run-stores known_once (at_minute 10 ∷ other ∷ at_minute 20 ∷ []) "A1B2C3" 1 known_once-IsSane
      refl (omega arith) (refl, (refl, tt)) refl

run-Counts_example :
    let (s', log) = run fresh first_hour in
    (s'.metrics.total_packets ≡ fresh.metrics.total_packets + length first_hour)
    × (s'.metrics.validated_packets
        ≡ fresh.metrics.validated_packets + tally (λ (e : Entry). e.is_valid) log)
    × (s'.metrics.validated_packets + s'.metrics.rejected_packets ≤ s'.metrics.total_packets)
    × IsUnique s'.states
unfolding new_service
run-Counts_example = run-Counts first_hour fresh (omega arith) tt

-- The device after two more packets, with the score 100.
abbrev trusted : Service ℤ
trusted = (run seen (at_minute 30 ∷ at_minute 40 ∷ [])).0

trusted-IsSane : IsSane trusted.config
unfolding new_service distance_m max_speed_by_type update_score reach_threshold drop_threshold
    check_hysteresis hours speed_ok settle no_position with_delta with_positions validate_known
    first_state count_packet validate_pilot run standing_of lookup insert
trusted-IsSane = record { gap = omega arith; start_below = omega arith; add_le = omega arith }

invalidate_device-reinstated_example :
    let s' = (invalidate_device trusted "A1B2C3").0 in
    (flag_of (standing_of s' "A1B2C3") ≡ false) × ((validate_pilot s' (at_minute 40)).2 ≡ true)
unfolding new_service distance_m max_speed_by_type update_score reach_threshold drop_threshold
    check_hysteresis hours speed_ok settle no_position with_delta with_positions validate_known
    first_state count_packet validate_pilot run standing_of lookup insert
invalidate_device-reinstated_example =
    invalidate_device-reinstated trusted (at_minute 40) refl trusted-IsSane (omega arith)
      (omega arith)

cleanup_old_states-lookup_example :
    let (s', removed) = cleanup_old_states seen (60 * minute) (45 * minute) in
    (lookup "0000FF" s'.states ≡ none) × (length s'.states + removed ≡ 2)
unfolding new_service distance_m max_speed_by_type update_score reach_threshold drop_threshold
    check_hysteresis hours speed_ok settle no_position with_delta with_positions validate_known
    first_state count_packet validate_pilot run standing_of lookup insert cleanup_old_states
cleanup_old_states-lookup_example =
    cleanup_old_states-lookup seen (60 * minute) (45 * minute) "0000FF" (refl, (refl, tt))
