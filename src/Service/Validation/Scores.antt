-- ===== src/Service/Validation/Scores.antt =====
-- The score and the flag of a device of internal/service/validation.go against a specification in two
-- lines: a score within its bounds, and a flag that two thresholds move.
use flybeeper_com_map_fanet.Prelude.{
  ℕ, zero, suc, ◌+◌, ◌-◌, ◌*◌, ◌≤◌, ◌<◌, ◌≡◌, Bool, true, false, Option, none, some, arith, ltb,
  leb, if◌then◌else◌, if_both, ℤ, pos, negsuc, Float,
}
use Prim.Native.Nat.{min}
use flybeeper_com_map_fanet.Models.Points.{GeoPoint}
use flybeeper_com_map_fanet.Service.Validation.Defs.{
  Pilot, DeviceState, Config, speed_ok, update_score, check_hysteresis,
}
use flybeeper_com_map_fanet.Service.Validation.Pilot.{
  Known, settle, no_position, with_delta, with_positions, validate_known,
}

-- What the outside sees of a device.
pub record Standing : Type 0 where
  pub score : ℕ
  pub flag : Bool

abbrev pub standing : {F : Type 0} → DeviceState F → Standing
standing st = record { score = st.validation_score; flag = st.is_validated }

module _ {F : Type 0} (c : Config F) where
  abbrev pub next_score : Bool → ℕ → ℕ
  next_score valid s =
      if valid then min c.max_score (s + c.valid_packet_bonus) else s - c.invalid_packet_penalty

  -- The specification: between the thresholds the flag stays.
  abbrev pub rate : Bool → Standing → Standing
  rate valid x =
      let s = next_score valid x.score in
      record {
        score = s;
        flag =
            if leb s c.max_score_to_remove
            then false
            else if leb c.min_score_to_add s
            then true
            else x.flag;
      }

  check_hysteresis-rate :
      (valid : Bool) (st : DeviceState F)
      → standing (check_hysteresis c (update_score c valid st)).0 ≡ rate valid (standing st)
  unfolding check_hysteresis update_score
  check_hysteresis-rate true st = ground arith
  check_hysteresis-rate false st = ground arith

  -- The standing after `n` packets that are judged alike.
  abbrev pub rate_times : Bool → ℕ → Standing → Standing
  rate_times valid zero x = x
  rate_times valid (suc n) x = rate_times valid n (rate valid x)

  pub score-le :
      (valid : Bool) (x : Standing) → x.score ≤ c.max_score → (rate valid x).score ≤ c.max_score
  score-le true x h = omega arith
  score-le false x h = omega arith

  pub rate_times-false :
      (n : ℕ) (x : Standing)
      → x.score ≤ c.max_score_to_remove + suc n * c.invalid_packet_penalty
      → (rate_times false (suc n) x).flag ≡ false
  rate_times-false zero x h = ground arith
  rate_times-false (suc n) x h = rate_times-false n (rate false x) (omega arith)

  pub rate_times-true :
      (n : ℕ) (x : Standing)
      → c.max_score_to_remove < c.min_score_to_add
      → c.min_score_to_add ≤ c.max_score
      → c.min_score_to_add ≤ x.score + suc n * c.valid_packet_bonus
      → (rate_times true (suc n) x).flag ≡ true
  rate_times-true zero x g l h = ground arith
  rate_times-true (suc n) x g l h = rate_times-true n (rate true x) g l (omega arith)

module _ {F : Type 0} ⦃fl : Float F⦄ (c : Config F) (p : Pilot F) where
  settle-rate :
      (valid judged : Bool) (st : DeviceState F)
      → standing (settle c valid judged st).state ≡ rate c valid (standing st)
  unfolding settle
  settle-rate valid judged st = check_hysteresis-rate c valid st

  abbrev IsRated : Standing → Known F → Type 0
  IsRated x k = standing k.state ≡ rate c k.is_valid x

  no_position-IsRated : (st : DeviceState F) → IsRated (standing st) (no_position c p st)
  unfolding no_position
  no_position-IsRated st = settle-rate false false _

  with_delta-IsRated :
      (st : DeviceState F) (from to : GeoPoint F) (d : ℤ)
      → IsRated (standing st) (with_delta c p st from to d)
  unfolding with_delta
  with_delta-IsRated st from to (pos d) =
      if_both (IsRated (standing st)) (ltb c.max_time_delta d) (settle-rate false false _) (
        if_both (IsRated (standing st)) (leb d 0) (settle-rate false false _)
          (settle-rate (speed_ok c p.type from to d) true _))
  with_delta-IsRated st from to (negsuc d) = settle-rate false false st

  with_positions-IsRated :
      (st : DeviceState F) (from to : Option (GeoPoint F))
      → IsRated (standing st) (with_positions c p st from to)
  unfolding with_positions
  with_positions-IsRated st (some from) (some to) = with_delta-IsRated st from to _
  with_positions-IsRated st (some from) none = no_position-IsRated st
  with_positions-IsRated st none to = no_position-IsRated st

  -- Each packet of a known device moves the standing by one step of the specification, by the very
  -- answer that `ValidatePilot` gives.
  pub validate_known-rate :
      (st : DeviceState F)
      → let k = validate_known c p st in standing k.state ≡ rate c k.is_valid (standing st)
  unfolding validate_known
  validate_known-rate st = with_positions-IsRated _ st.last_position p.position
