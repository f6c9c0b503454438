-- ===== src/Service/Validation/Counters.antt =====
-- The counters of internal/service/validation.go over a run, and the removal of old states.
use flybeeper_com_map_fanet.Prelude.{
  length-keep_if, ℕ, ◌+◌, ◌≤◌, ◌≡◌, refl, sym, subst, Bool, true, Option, none, some, List, [], ◌∷◌,
  String, arith, ltb, leb, length, tally, ℤ, pos, negsuc, if◌then◌else◌, lookup, insert-IsUnique,
  lookup-keep_if, IsUnique, Option-cases, if_both, inl, inr, Float,
}
use flybeeper_com_map_fanet.Models.Points.{GeoPoint}
use flybeeper_com_map_fanet.Service.Validation.Defs.{Pilot, DeviceState, Config, Service}
use flybeeper_com_map_fanet.Service.Validation.Pilot.{
  Known, no_position, with_delta, with_positions, validate_known, validate_pilot, count_packet,
  cleanup_old_states, is_fresh,
}
use flybeeper_com_map_fanet.Service.Validation.Runs.{
  Entry, run, validate_pilot-first, validate_pilot-known,
}

module _ {F : Type 0} ⦃fl : Float F⦄ (c : Config F) (p : Pilot F) where
  -- Only a packet whose speed is judged is valid.
  abbrev IsJudged : Known F → Type 0
  IsJudged k = k.is_valid ≡ true → k.judged ≡ true

  no_position-IsJudged : (st : DeviceState F) → IsJudged (no_position c p st)
  unfolding no_position
  no_position-IsJudged st = λ h. cc

  with_delta-IsJudged :
      (st : DeviceState F) (from to : GeoPoint F) (d : ℤ) → IsJudged (with_delta c p st from to d)
  unfolding with_delta
  with_delta-IsJudged st from to (pos d) =
      if_both IsJudged (ltb c.max_time_delta d) (λ h. cc)
        (if_both IsJudged (leb d 0) (λ h. cc) (λ h. refl))
  with_delta-IsJudged st from to (negsuc d) = λ h. cc

  with_positions-IsJudged :
      (st : DeviceState F) (from to : Option (GeoPoint F))
      → IsJudged (with_positions c p st from to)
  unfolding with_positions
  with_positions-IsJudged st (some from) (some to) = with_delta-IsJudged st from to _
  with_positions-IsJudged st (some from) none = no_position-IsJudged st
  with_positions-IsJudged st none to = no_position-IsJudged st

  validate_known-IsJudged : (st : DeviceState F) → IsJudged (validate_known c p st)
  unfolding validate_known
  validate_known-IsJudged st = with_positions-IsJudged _ st.last_position p.position

abbrev valid_entries : List Entry → ℕ
valid_entries = tally (λ e. e.is_valid)

module _ {F : Type 0} ⦃fl : Float F⦄ where
  -- The counters that one packet moves.
  abbrev Counts : Service F → Service F × Bool × Bool → Type 0
  Counts s (s', valid, stored) =
      (s'.metrics.total_packets ≡ s.metrics.total_packets + 1)
      × (s'.metrics.validated_packets ≡ s.metrics.validated_packets + (if valid then 1 else 0))
      × (s'.metrics.validated_packets + s'.metrics.rejected_packets
          ≤ s.metrics.validated_packets + s.metrics.rejected_packets + 1)
      × (IsUnique s.states → IsUnique s'.states)

  validate_pilot-Counts : (s : Service F) (p : Pilot F) → Counts s (validate_pilot s p)
  unfolding count_packet
  validate_pilot-Counts s p = elim (Option-cases (lookup p.device_id s.states)) [
    | inl e ↦
        subst (Counts s) (sym (validate_pilot-first s p e))
          (refl, omega arith, omega arith, insert-IsUnique p.device_id _ s.states)
    | inr (st, e) ↦
        let judged = validate_known-IsJudged s.config p st in
        subst (Counts s) (sym (validate_pilot-known s p st e))
          (refl, ground arith, ground arith, insert-IsUnique p.device_id _ s.states)
  ]

  -- A run counts every packet once; it counts as validated exactly the packets that it answered to be
  -- valid, and never more validated and rejected packets than packets. Each device keeps one state.
  pub run-Counts :
      (ps : List (Pilot F)) (s : Service F)
      → s.metrics.validated_packets + s.metrics.rejected_packets ≤ s.metrics.total_packets
      → IsUnique s.states
      → let (s', log) = run s ps in
        (s'.metrics.total_packets ≡ s.metrics.total_packets + length ps)
        × (s'.metrics.validated_packets ≡ s.metrics.validated_packets + valid_entries log)
        × (s'.metrics.validated_packets + s'.metrics.rejected_packets ≤ s'.metrics.total_packets)
        × IsUnique s'.states
  unfolding run
  run-Counts [] s h u = (omega arith, omega arith, h, u)
  run-Counts (p ∷ ps) s h u =
      let (s', valid, stored) = validate_pilot s p in
      let (total, validated, sum, unique) = validate_pilot-Counts s p in
      let (a, b, d, e) = run-Counts ps s' (omega arith) (unique u) in
      (omega arith, omega arith, d, e)

  -- `CleanupOldStates` removes the states that are older than the given age, keeps all others as they
  -- are, and answers how many it removed.
  pub cleanup_old_states-lookup :
      (s : Service F) (now max_age : ℕ) (id : String)
      → IsUnique s.states
      → let (s', removed) = cleanup_old_states s now max_age in
        (lookup id s'.states ≡ elim (lookup id s.states) [
          | none ↦ none
          | some st ↦ if ltb (st.last_update + max_age) now then none else some st
        ])
        × (length s'.states + removed ≡ length s.states)
  unfolding cleanup_old_states
  cleanup_old_states-lookup s now max_age id u = (
    ground (arith, lookup-keep_if (is_fresh now max_age) id s.states u),
    length-keep_if (λ (e : String × DeviceState F). is_fresh now max_age e.1) s.states,
  )
