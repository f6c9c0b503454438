-- ===== src/Service/Validation/Runs.antt =====
-- Whole runs of internal/service/validation.go: what a sequence of packets makes of every device.
use flybeeper_com_map_fanet.Prelude.{
  ◌+◌, ◌≡◌, refl, sym, subst, Bool, false, Option, none, some, List, [], ◌∷◌, String, str_eq,
  eq_iff, arith, foldl, if◌then◌else◌, lookup, insert, lookup-insert, Option-cases, inl, inr, Float,
}
use mathlib.Core.Option
use flybeeper_com_map_fanet.Service.Validation.Defs.{Pilot, DeviceState, Config, Service}
use flybeeper_com_map_fanet.Service.Validation.Pilot.{
  Known, validate_known, first_state, count_packet, validate_pilot,
}
use flybeeper_com_map_fanet.Service.Validation.Scores.{
  Standing, standing, rate, validate_known-rate,
}

-- One line of the log of a run: the device and the two answers.
pub record Entry : Type 0 where
  pub device : String
  pub is_valid : Bool
  pub stored : Bool

module _ {F : Type 0} ⦃fl : Float F⦄ where
  unfoldable pub run : Service F → List (Pilot F) → Service F × List Entry
  run s [] = (s, [])
  run s (p ∷ ps) =
      let (s', valid, stored) = validate_pilot s p in
      let (s'', log) = run s' ps in
      (s'', record { device = p.device_id; is_valid = valid; stored = stored } ∷ log)

  -- The standing of a device, if it is known.
  unfoldable pub standing_of : Service F → String → Option Standing
  standing_of s id = Option.map standing (lookup id s.states)

-- The specification of one device: the first packet gives the initial score, each further one rates.
abbrev pub follow : {F : Type 0} → Config F → String → Option Standing → Entry → Option Standing
follow c id x e =
    if str_eq e.device id
    then elim x [
      | none ↦ some (record { score = c.initial_score; flag = false })
      | some y ↦ some (rate c e.is_valid y)
    ]
    else x

-- The flag of a standing; a device that is not known has none.
abbrev pub flag_of : Option Standing → Bool
flag_of none = false
flag_of (some x) = x.flag

module _ {F : Type 0} ⦃fl : Float F⦄ where
  -- The service after the first packet of a device, and after a further one.
  abbrev after_first : Service F → Pilot F → Service F
  after_first s p = record s {
    states = insert p.device_id (first_state s.config p) s.states;
    metrics = record s.metrics { total_packets = s.metrics.total_packets + 1 };
  }

  abbrev after_known : Service F → Pilot F → Known F → Service F
  after_known s p k = record s {
    states = insert p.device_id k.state s.states;
    metrics = count_packet k s.metrics;
  }

  pub validate_pilot-first :
      (s : Service F) (p : Pilot F)
      → lookup p.device_id s.states ≡ none
      → validate_pilot s p ≡ (after_first s p, false, false)
  unfolding validate_pilot
  validate_pilot-first s p e = rw (e, validate_pilot)

  pub validate_pilot-known :
      (s : Service F) (p : Pilot F) (st : DeviceState F)
      → lookup p.device_id s.states ≡ some st
      → let k = validate_known s.config p st in
        validate_pilot s p ≡ (after_known s p k, k.is_valid, k.state.is_validated)
  unfolding validate_pilot
  validate_pilot-known s p st e = rw (e, validate_pilot)

  -- What one packet does: its own device moves by the specification, the others stay, the answer
  -- whether to store is the new flag, and the configuration stays.
  abbrev Follows : Service F → String → String → Service F × Bool × Bool → Type 0
  Follows s device id (s', valid, stored) =
      (standing_of s' id
        ≡ follow s.config id (standing_of s id)
            (record { device = device; is_valid = valid; stored = stored }))
      × (stored ≡ flag_of (standing_of s' device))
      × (s'.config ≡ s.config)

  pub validate_pilot-Follows :
      (s : Service F) (p : Pilot F) (id : String) → Follows s p.device_id id (validate_pilot s p)
  unfolding standing_of first_state
  validate_pilot-Follows s p id = elim (Option-cases (lookup p.device_id s.states)) [
    | inl e ↦ subst (Follows s p.device_id id) (sym (validate_pilot-first s p e)) (
      ground (
        arith,
        eq_iff p.device_id id,
        lookup-insert p.device_id id (first_state s.config p) s.states,
      ),
      ground (
        arith,
        eq_iff p.device_id p.device_id,
        lookup-insert p.device_id p.device_id (first_state s.config p) s.states,
      ),
      refl,
    )
    | inr (st, e) ↦
        let k = validate_known s.config p st in
        subst (Follows s p.device_id id) (sym (validate_pilot-known s p st e)) (
          ground (
            arith,
            eq_iff p.device_id id,
            validate_known-rate s.config p st,
            lookup-insert p.device_id id k.state s.states,
          ),
          ground (
            arith,
            eq_iff p.device_id p.device_id,
            lookup-insert p.device_id p.device_id k.state s.states,
          ),
          refl,
        )
  ]

  -- After any run, what the service holds of a device is the specification applied to the device's
  -- own log entries, whatever the other devices did.
  pub run-follow :
      (ps : List (Pilot F)) (s : Service F) (id : String)
      → let (s', log) = run s ps in
        standing_of s' id ≡ foldl (follow s.config id) (standing_of s id) log
  unfolding run
  run-follow [] s id = refl
  run-follow (p ∷ ps) s id =
      let (s', valid, stored) = validate_pilot s p in
      let (here, _, same) = validate_pilot-Follows s p id in rw (run-follow ps s' id, here, same)
