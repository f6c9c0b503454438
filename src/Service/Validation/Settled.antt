-- ===== src/Service/Validation/Settled.antt =====
-- The score and the flag of a device of internal/service/validation.go over all calls that change a
-- state: packets, invalidations and cleanups.
use flybeeper_com_map_fanet.Prelude.{
  ◌+◌, ℕ, ◌≤◌, ◌≡◌, refl, sym, subst, ◌∙◌, Bool, true, false, ◌||◌, Option, none, some, List, [],
  ◌∷◌, String, str_eq, eq_iff, arith, ltb, if◌then◌else◌, lookup, lookup-insert, IsUnique,
  insert-IsUnique, keep_if-IsUnique, Option-cases, Bool-cases, inl, inr, Float,
}
use flybeeper_com_map_fanet.Service.Validation.Defs.{Pilot, DeviceState, Config, Service}
use flybeeper_com_map_fanet.Service.Validation.Pilot.{
  validate_pilot, invalidate_device, cleanup_old_states, is_fresh,
}
use flybeeper_com_map_fanet.Service.Validation.Scores.{Standing, rate}
use flybeeper_com_map_fanet.Service.Validation.Runs.{
  Entry, standing_of, follow, validate_pilot-Follows, validate_pilot-first, validate_pilot-known,
}
use flybeeper_com_map_fanet.Service.Validation.Counters.{cleanup_old_states-lookup}
use flybeeper_com_map_fanet.Service.Validation.Hysteresis.{IsSane}

-- A call of the service.
pub data Step (F : Type 0) : Type 0 where
  packet : Pilot F → Step F
  invalidate : String → Step F
  cleanup : ℕ → ℕ → Step F

module _ {F : Type 0} ⦃fl : Float F⦄ where
  unfoldable pub step : Step F → Service F → Service F
  step (packet p) s = (validate_pilot s p).0
  step (invalidate id) s = (invalidate_device s id).0
  step (cleanup now max_age) s = (cleanup_old_states s now max_age).0

  unfoldable pub run_steps : List (Step F) → Service F → Service F
  unfolding step
  run_steps [] s = s
  run_steps (x ∷ xs) s = run_steps xs (step x s)

-- The device was invalidated, and sent no packet since; `b` tells it for the time before the calls.
abbrev pub is_reset : {F : Type 0} → String → Bool → List (Step F) → Bool
is_reset id b [] = b
is_reset id b (packet p ∷ xs) = is_reset id (if str_eq p.device_id id then false else b) xs
is_reset id b (invalidate j ∷ xs) = is_reset id (if str_eq j id then true else b) xs
is_reset id b (cleanup now max_age ∷ xs) = is_reset id b xs

-- A score within its bounds, on the side of the thresholds that its flag tells, unless the flag was
-- reset.
pub record IsSettled {F : Type 0} (c : Config F) (reset : Bool) (x : Standing) : Type 0 where
  pub bounded : x.score ≤ c.max_score
  pub side :
      (if x.flag
        then ltb c.max_score_to_remove x.score
        else reset || ltb x.score c.min_score_to_add)
      ≡ true

abbrev IsSettled? : {F : Type 0} → Config F → Bool → Option Standing → Type 0
IsSettled? c reset none = Unit
IsSettled? c reset (some x) = IsSettled c reset x

-- What an invalidation and a cleanup leave of a device.
abbrev unflagged : Option Standing → Option Standing
unflagged none = none
unflagged (some x) = some (record x { flag = false })

module _ {F : Type 0} (c : Config F) (sane : IsSane c) (id : String) where
  rate-IsSettled :
      (v reset : Bool) (x : Standing) → IsSettled c reset x → IsSettled c false (rate c v x)
  rate-IsSettled true true x h = ground arith
  rate-IsSettled true false x h = ground arith
  rate-IsSettled false true x h = ground arith
  rate-IsSettled false false x h = ground arith

  follow-IsSettled :
      (reset : Bool) (o : Option Standing) (e : Entry)
      → IsSettled? c reset o
      → IsSettled? c (if str_eq e.device id then false else reset) (follow c id o e)
  follow-IsSettled reset none e h = elim (Bool-cases (str_eq e.device id)) [
    | inl mine ↦ rw mine (record { bounded = omega arith; side = ground arith })
    | inr other ↦ rw other tt
  ]
  follow-IsSettled reset (some x) e h = elim (Bool-cases (str_eq e.device id)) [
    | inl mine ↦ rw mine (rate-IsSettled e.is_valid reset x h)
    | inr other ↦ rw other h
  ]

  unflagged-IsSettled :
      (reset : Bool) (o : Option Standing) → IsSettled? c reset o → IsSettled? c true (unflagged o)
  unflagged-IsSettled reset none h = tt
  unflagged-IsSettled reset (some x) h = record { bounded = h.bounded; side = refl }

module _ {F : Type 0} ⦃fl : Float F⦄ (id : String) where
  -- What an invalidation does to a device, its own or another.
  invalidate_device-standing :
      (s : Service F) (j : String)
      → let s' = (invalidate_device s j).0 in
        (standing_of s' id
          ≡ (if str_eq j id then unflagged (standing_of s id) else standing_of s id))
        × (s'.config ≡ s.config)
        × (IsUnique s.states → IsUnique s'.states)
  unfolding invalidate_device standing_of
  invalidate_device-standing s j = elim (Option-cases (lookup j s.states)) [
    | inl e ↦ rw (e, invalidate_device) (ground (arith, eq_iff j id), refl, λ u. u)
    | inr (st, e) ↦
        let st' : DeviceState F = record st { is_validated = false; packet_count = 0 } in
        rw (e, invalidate_device)
          (
            ground (arith, eq_iff j id, lookup-insert j id st' s.states),
            refl,
            insert-IsUnique j st' s.states,
          )
  ]

  validate_pilot-IsUnique :
      (s : Service F) (p : Pilot F) → IsUnique s.states → IsUnique (validate_pilot s p).0.states
  validate_pilot-IsUnique s p u = elim (Option-cases (lookup p.device_id s.states)) [
    | inl e ↦
        subst (λ (r : Service F × Bool × Bool). IsUnique r.0.states)
          (sym (validate_pilot-first s p e)) (insert-IsUnique p.device_id _ s.states u)
    | inr (st, e) ↦
        subst (λ (r : Service F × Bool × Bool). IsUnique r.0.states)
          (sym (validate_pilot-known s p st e)) (insert-IsUnique p.device_id _ s.states u)
  ]

  IsSettled-cleanup :
      (s : Service F) (now max_age : ℕ) (reset : Bool)
      → IsUnique s.states
      → IsSettled? s.config reset (standing_of s id)
      → IsSettled? s.config reset (standing_of (cleanup_old_states s now max_age).0 id)
  unfolding standing_of
  IsSettled-cleanup s now max_age reset u h =
      let left = (cleanup_old_states-lookup s now max_age id u).0 in
      elim (Option-cases (lookup id s.states)) [
        | inl e ↦ rw (left, e) tt
        | inr (st, e) ↦
            let old = ltb (st.last_update + max_age) now in
            rw (left, e)
              (elim (Bool-cases old) [ inl gone ↦ rw gone tt | inr fresh ↦ rw fresh (rw e at h) ])
      ]

  -- What a run keeps: the configuration is sane, each device has one state, and this one is settled.
  abbrev Keeps : Bool → Service F → Type 0
  Keeps reset s = IsSane s.config × IsUnique s.states × IsSettled? s.config reset (standing_of s id)

  run_steps-Keeps :
      (xs : List (Step F)) (reset : Bool) (s : Service F)
      → Keeps reset s
      → Keeps (is_reset id reset xs) (run_steps xs s) × ((run_steps xs s).config ≡ s.config)
  unfolding run_steps step
  run_steps-Keeps [] reset s h = (h, refl)
  run_steps-Keeps (packet p ∷ xs) reset s (sane, unique, h) =
      let (s', valid, stored) = validate_pilot s p in
      let (here, flag, same) = validate_pilot-Follows s p id in
      let entry : Entry = record { device = p.device_id; is_valid = valid; stored = stored } in
      let settled = follow-IsSettled s.config sane id reset (standing_of s id) entry h in
      let (kept, config) = run_steps-Keeps xs (if str_eq p.device_id id then false else reset) s' (
        subst IsSane (sym same) sane,
        validate_pilot-IsUnique s p unique,
        rw (same, here) settled,
      ) in
      (kept, config ∙ same)
  run_steps-Keeps (invalidate j ∷ xs) reset s (sane, unique, h) =
      let s' = (invalidate_device s j).0 in
      let (here, same, keeps) = invalidate_device-standing s j in
      let (kept, config) = run_steps-Keeps xs (if str_eq j id then true else reset) s' (
        subst IsSane (sym same) sane,
        keeps unique,
        rw (same, here)
            (elim (Bool-cases (str_eq j id)) [
              | inl mine ↦ rw mine (unflagged-IsSettled s.config sane id reset (standing_of s id) h)
              | inr other ↦ rw other h
            ]),
      ) in
      (kept, config ∙ same)
  run_steps-Keeps (cleanup now max_age ∷ xs) reset s (sane, unique, h) =
      let s' = (cleanup_old_states s now max_age).0 in
      let same : s'.config ≡ s.config = unfold cleanup_old_states in refl in
      let (kept, config) = run_steps-Keeps xs reset s' (
        subst IsSane (sym same) sane,
        unfold cleanup_old_states in keep_if-IsUnique (is_fresh now max_age) s.states unique,
        rw same (IsSettled-cleanup s now max_age reset unique h),
      ) in
      (kept, config ∙ same)

  -- From a service that knows no device, under thresholds that leave a gap, over any packets,
  -- invalidations and cleanups: a device that is known has a score of at most the maximum; if it is
  -- stored, the score is above the lower threshold; and if it is not, the score is below the upper one,
  -- or the device was invalidated and sent no packet since.
  pub run_steps-IsSettled :
      (xs : List (Step F)) (s : Service F)
      → IsSane s.config
      → s.states ≡ []
      → {x : Standing} → standing_of (run_steps xs s) id ≡ some x
      → IsSettled s.config (is_reset id false xs) x
  unfolding standing_of lookup
  run_steps-IsSettled xs s sane empty {x} e =
      let (kept, config) = run_steps-Keeps xs false s (sane, rw empty tt, rw empty tt) in
      subst (IsSettled? s.config (is_reset id false xs)) e (
        subst (λ c. IsSettled? c (is_reset id false xs) (standing_of (run_steps xs s) id)) config
          kept.2)
