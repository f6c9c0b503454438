-- ===== src/Service/Validation/Defs.antt =====
-- The state and the methods of internal/service/validation.go and internal/models/validation.go.
-- Scores, thresholds and counters are numbers: the program only runs with
-- `DefaultValidationConfig`, whose values are not negative, and the one subtraction is guarded.
-- Times are nanoseconds, and a duration is an integer. The lock makes each method one step; logging
-- and the Prometheus counters are left out.
use flybeeper_com_map_fanet.Prelude.{
  ℕ, ◌+◌, ◌-◌, ◌/◌, ◌%◌, Bool, true, false, ◌&&◌, not, Option, [], String, pos, ltb, leb,
  if◌then◌else◌, Dict, Float,
}
use flybeeper_com_map_fanet.Models.Points.{GeoPoint, distance_m}
use flybeeper_com_map_fanet.Models.Aircraft.{max_speed_by_type}

-- What the service reads of `models.Pilot`.
pub record Pilot (F : Type 0) : Type 0 where
  pub device_id : String
  pub type : ℕ
  pub position : Option (GeoPoint F)
  pub last_update : ℕ

pub record DeviceState (F : Type 0) : Type 0 where
  pub device_id : String
  pub first_seen : ℕ
  pub last_position : Option (GeoPoint F)
  pub last_update : ℕ
  pub is_validated : Bool
  pub packet_count : ℕ
  pub aircraft_type : ℕ
  pub validation_score : ℕ
  pub consecutive_invalid : ℕ

pub record Config (F : Type 0) : Type 0 where
  pub max_time_delta : ℕ
  pub speed_multiplier : F
  pub min_packets_to_valid : ℕ
  pub initial_score : ℕ
  pub valid_packet_bonus : ℕ
  pub invalid_packet_penalty : ℕ
  pub min_score_to_add : ℕ
  pub max_score_to_remove : ℕ
  pub max_score : ℕ

pub record Metrics : Type 0 where
  pub total_packets : ℕ
  pub validated_packets : ℕ
  pub rejected_packets : ℕ
  pub invalidated_ids : ℕ

pub record Service (F : Type 0) : Type 0 where
  pub states : Dict (DeviceState F)
  pub config : Config F
  pub metrics : Metrics

-- The scoring of one packet, then the two thresholds. `dropped` says that the flag was reset.
module _ {F : Type 0} (c : Config F) where
  unfoldable pub update_score : Bool → DeviceState F → DeviceState F
  update_score true st =
      let raised = st.validation_score + c.valid_packet_bonus in
      record st {
        validation_score = if ltb c.max_score raised then c.max_score else raised;
        consecutive_invalid = 0;
      }
  update_score false st = record st {
    validation_score =
        if ltb st.validation_score c.invalid_packet_penalty
        then 0
        else st.validation_score - c.invalid_packet_penalty;
    consecutive_invalid = st.consecutive_invalid + 1;
  }

  -- The first test of `checkHysteresis`.
  unfoldable pub reach_threshold : DeviceState F → DeviceState F
  reach_threshold st =
      if not st.is_validated && leb c.min_score_to_add st.validation_score
      then record st { is_validated = true }
      else st

  -- Its second test; the Boolean says that the flag was reset, which `InvalidatedIDs` counts.
  unfoldable pub drop_threshold : DeviceState F → DeviceState F × Bool
  drop_threshold st =
      if st.is_validated && leb st.validation_score c.max_score_to_remove
      then (record st { is_validated = false }, true)
      else (st, false)

  unfoldable pub check_hysteresis : DeviceState F → DeviceState F × Bool
  unfolding reach_threshold drop_threshold
  check_hysteresis st = drop_threshold (reach_threshold st)

-- `time.Hour` in nanoseconds, and `Duration.Hours` for a duration that is not negative.
abbrev pub hour : ℕ
hour = 3_600_000_000_000

module _ {F : Type 0} ⦃fl : Float F⦄ where
  open fl use {of_int, decimal, add, mul, div, le}

  unfoldable pub hours : ℕ → F
  hours d = add (of_int (pos (d / hour))) (div (of_int (pos (d % hour))) (of_int (pos hour)))

  abbrev pub default_config : Config F
  default_config = record {
    max_time_delta = 1_800_000_000_000;
    speed_multiplier = decimal 12 1;
    min_packets_to_valid = 2;
    initial_score = 50;
    valid_packet_bonus = 15;
    invalid_packet_penalty = 25;
    min_score_to_add = 70;
    max_score_to_remove = 30;
    max_score = 100;
  }

  -- `NewValidationService(logger, nil)`
  unfoldable pub new_service : Service F
  new_service = record {
    states = [];
    config = default_config;
    metrics = record {
      total_packets = 0;
      validated_packets = 0;
      rejected_packets = 0;
      invalidated_ids = 0;
    };
  }

  -- `speedKmh <= maxSpeed`, for a move that took `d` nanoseconds.
  unfoldable pub speed_ok : Config F → ℕ → GeoPoint F → GeoPoint F → ℕ → Bool
  speed_ok c type from to d =
      let distance = distance_m from.latitude from.longitude to.latitude to.longitude in
      let speed = div (div distance (of_int (pos 1000))) (hours d) in
      le speed (mul (of_int (pos (max_speed_by_type type))) c.speed_multiplier)
