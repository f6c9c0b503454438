-- ===== src/Service/Validation/Pilot.antt =====
-- `ValidatePilot`, `InvalidateDevice`, `GetValidationState` and `CleanupOldStates` of
-- internal/service/validation.go. A state is held by a pointer, so that each change of it is a
-- write of its entry of the map.
use flybeeper_com_map_fanet.Prelude.{
  ℕ, ◌+◌, Bool, true, false, ◌&&◌, not, Option, none, some, String, ℤ, pos, negsuc, sub_ℕ, ltb, leb,
  if◌then◌else◌, lookup, insert, keep_if, tally, Float,
}
use flybeeper_com_map_fanet.Models.Points.{GeoPoint}
use flybeeper_com_map_fanet.Service.Validation.Defs.{
  Pilot, DeviceState, Config, Metrics, Service, update_score, check_hysteresis, speed_ok,
}

-- What a packet of a known device leads to: the new state, whether `checkHysteresis` reset the flag,
-- whether the packet is valid, and whether its speed was judged at all.
pub record Known (F : Type 0) : Type 0 where
  pub state : DeviceState F
  pub dropped : Bool
  pub is_valid : Bool
  pub judged : Bool

module _ {F : Type 0} ⦃fl : Float F⦄ where
  -- `updateValidationScore`, then `checkHysteresis`.
  unfoldable pub settle : Config F → Bool → Bool → DeviceState F → Known F
  settle c valid judged st =
      let (st', dropped) = check_hysteresis c (update_score c valid st) in
      record { state = st'; dropped = dropped; is_valid = valid; judged = judged }

  -- The case without one of the two positions.
  unfoldable pub no_position : Config F → Pilot F → DeviceState F → Known F
  unfolding settle
  no_position c p st = settle c false false (record st {
    last_update = p.last_update;
    last_position = elim p.position [ none ↦ st.last_position | some q ↦ some q ];
  })

  -- The cases with both positions, by the time between the packets.
  unfoldable pub with_delta :
      Config F → Pilot F → DeviceState F → GeoPoint F → GeoPoint F → ℤ → Known F
  unfolding settle
  with_delta c p st from to (pos d) =
      if ltb c.max_time_delta d
      then settle c false false (record st {
        first_seen = p.last_update;
        last_position = some to;
        last_update = p.last_update;
      })
      else if leb d 0
      then settle c false false st
      else (let valid = speed_ok c p.type from to d in
          settle c valid true (record st {
            first_seen = if valid then st.first_seen else p.last_update;
            last_position = some to;
            last_update = p.last_update;
          }))
  with_delta c p st from to (negsuc d) = settle c false false st

  unfoldable pub with_positions :
      Config F → Pilot F → DeviceState F → Option (GeoPoint F) → Option (GeoPoint F) → Known F
  unfolding no_position with_delta
  with_positions c p st (some from) (some to) =
      with_delta c p st from to (sub_ℕ p.last_update st.last_update)
  with_positions c p st _ _ = no_position c p st

  -- A packet of a device that has a state.
  unfoldable pub validate_known : Config F → Pilot F → DeviceState F → Known F
  unfolding with_positions
  validate_known c p st =
      with_positions c p (record st { packet_count = st.packet_count + 1 }) st.last_position
        p.position

  -- The state of a device that is new.
  unfoldable pub first_state : Config F → Pilot F → DeviceState F
  first_state c p = record {
    device_id = p.device_id;
    first_seen = p.last_update;
    last_position = p.position;
    last_update = p.last_update;
    is_validated = false;
    packet_count = 1;
    aircraft_type = p.type;
    validation_score = c.initial_score;
    consecutive_invalid = 0;
  }

  -- `s.metrics` after a packet of a known device.
  unfoldable pub count_packet : Known F → Metrics → Metrics
  count_packet k m = record {
    total_packets = m.total_packets + 1;
    validated_packets =
        if k.judged && k.is_valid then m.validated_packets + 1 else m.validated_packets;
    rejected_packets =
        if k.judged && not k.is_valid then m.rejected_packets + 1 else m.rejected_packets;
    invalidated_ids = if k.dropped then m.invalidated_ids + 1 else m.invalidated_ids;
  }

  -- The service after the call, whether the packet is valid, and whether to store the pilot. The
  -- error of the source is always nil.
  unfoldable pub validate_pilot : Service F → Pilot F → Service F × Bool × Bool
  validate_pilot s p = elim (lookup p.device_id s.states) [
    | none ↦ (
      record s {
        states = insert p.device_id (first_state s.config p) s.states;
        metrics = record s.metrics { total_packets = s.metrics.total_packets + 1 };
      },
      false,
      false,
    )
    | some st ↦
        let k = validate_known s.config p st in
        (
          record s {
            states = insert p.device_id k.state s.states;
            metrics = count_packet k s.metrics;
          },
          k.is_valid,
          k.state.is_validated,
        )
  ]

  -- `false` is the error for a device that is not known.
  unfoldable pub invalidate_device : Service F → String → Service F × Bool
  invalidate_device s id = elim (lookup id s.states) [
    | none ↦ (s, false)
    | some st ↦ (
      record s {
        states = insert id (record st { is_validated = false; packet_count = 0 }) s.states;
        metrics = record s.metrics { invalidated_ids = s.metrics.invalidated_ids + 1 };
      },
      true,
    )
  ]

  unfoldable pub get_validation_state : Service F → String → Option (DeviceState F)
  get_validation_state s id = lookup id s.states

  -- `now.Sub(state.LastUpdate) > maxAge`
  abbrev pub is_fresh : ℕ → ℕ → DeviceState F → Bool
  is_fresh now max_age st = not (ltb (st.last_update + max_age) now)

  unfoldable pub cleanup_old_states : Service F → ℕ → ℕ → Service F × ℕ
  cleanup_old_states s now max_age = (
    record s { states = keep_if (λ e. is_fresh now max_age e.1) s.states },
    tally (λ e. not (is_fresh now max_age e.1)) s.states,
  )
