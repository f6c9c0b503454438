-- ===== src/Process/Storing.antt =====
-- What the handler of cmd/fanet-api/main.go stores and removes, by the state of the validation service.
use flybeeper_com_map_fanet.Prelude.{
  ◌≡◌, refl, sym, ap, ◌∙◌, Bool, true, false, ◌||◌, ◌&&◌, not, if◌then◌else◌, ◌⊎◌, Option, none,
  some, List, [], ◌∷◌, ◌==◌, arith, lookup, lookup-insert_self, if_both, subst, Option-cases, inl,
  inr, Bool-cases, Float,
}
use flybeeper_com_map_fanet.Models.Pilots.{Pilot}
use flybeeper_com_map_fanet.Service.Validation.Defs.{Service, DeviceState}
use flybeeper_com_map_fanet.Service.Validation.Defs
use flybeeper_com_map_fanet.Service.Validation.Pilot.{
  validate_pilot, get_validation_state, validate_known, first_state,
}
use flybeeper_com_map_fanet.Service.Boundary.{BoundaryTracker}
use flybeeper_com_map_fanet.Mqtt.Messages.{
  Message, Payload, none, name, service, ground_tracking, air_tracking, hw_info, thermal,
  new_hw_info,
}
use flybeeper_com_map_fanet.Process.Converters.{
  Platform, NameUpdate, pilot_from, convert_fanet_to_pilot, convert_fanet_to_name_update,
  convert_fanet_to_thermal, convert_fanet_to_station, convert_pilot_to_protobuf,
  convert_thermal_to_protobuf, convert_station_to_protobuf,
}
use flybeeper_com_map_fanet.Process.Messages.{
  Call, save_pilot, remove_pilot, broadcast, Answers, Handled, with_status, rated, handle_pilot,
  handle_name, handle_thermal, handle_station, store_pilot, withdraw_pilot, act_on, handle_located,
  handle_at, on_converted, handle_message,
}
use flybeeper_com_map_fanet.Models.Thermals.{Thermal}
use flybeeper_com_map_fanet.Models.Stations.{Station}
use flybeeper_com_map_fanet.Wire.{remove}
use flybeeper_com_map_fanet.Models.Points.{GeoPoint}

module _ {F : Type 0} where
  -- `state.IsValidated` of a device that may not be known.
  abbrev pub stored_flag : Option (DeviceState F) → Bool
  stored_flag none = false
  stored_flag (some st) = st.is_validated

  abbrev pub is_save : Call F → Bool
  is_save (save_pilot p) = true
  is_save _ = false

  abbrev pub is_removal : Call F → Bool
  is_removal (remove_pilot id) = true
  is_removal (broadcast t remove content) = true
  is_removal _ = false

  abbrev pub any_call : (Call F → Bool) → List (Call F) → Bool
  any_call p [] = false
  any_call p (x ∷ xs) = p x || any_call p xs

module _ {F : Type 0} ⦃fl : Float F⦄ where
  -- What `ValidatePilot` answers is the flag that `GetValidationState` then finds.
  pub validate_pilot-flag :
      (s : Service F) (p : Defs.Pilot F)
      → let (s', valid, should_store) = validate_pilot s p in
        (st : DeviceState F) × (get_validation_state s' p.device_id ≡ some st)
        × (st.is_validated ≡ should_store)
  unfolding validate_pilot get_validation_state
  validate_pilot-flag s p = elim (Option-cases (lookup p.device_id s.states)) [
    | inl e ↦
        rw (validate_pilot, e)
          (
            first_state s.config p,
            lookup-insert_self p.device_id (first_state s.config p) s.states,
            (unfold first_state in refl),
          )
    | inr (st, e) ↦
        rw (validate_pilot, e)
          (
            (validate_known s.config p st).state,
            lookup-insert_self p.device_id (validate_known s.config p st).state s.states,
            refl,
          )
  ]

module _ {F : Type 0} where
  -- The handling of a message stores a pilot exactly as the flag says, and removes one exactly if the
  -- flag was down and a later one is up.
  abbrev StoresBy : Bool → Bool → Handled F → Type 0
  StoresBy flag later h =
      (any_call is_save h.calls ≡ flag) × (any_call is_removal h.calls ≡ not flag && later)

module _ {F : Type 0} ⦃fl : Float F⦄ where
  -- The service right after it judged the pilot, if there is one.
  abbrev pub judged : Service F → Option (Pilot F) → Service F
  judged s none = s
  judged s (some p) = (validate_pilot s (rated p)).0

  -- The service holds the pilot's device for validated.
  abbrev pub holds : Service F → Option (Pilot F) → Bool
  holds s none = false
  holds s (some p) = stored_flag (get_validation_state s p.device_id)

module _ {F : Type 0} ⦃fl : Float F⦄ (has_writer : Bool) (answers : Answers F) where
  -- The handling of a message with the given pilot.
  abbrev Stores : Service F → Option (Pilot F) → Handled F → Type 0
  Stores s o h = StoresBy (holds (judged s o) o) (holds (answers.meanwhile (judged s o)) o) h

  store_pilot-StoresBy :
      (s : Service F) (p : Pilot F) (later : Bool)
      → StoresBy true later (store_pilot has_writer answers s p)
  unfolding store_pilot convert_pilot_to_protobuf
  store_pilot-StoresBy s p later = ground arith

  withdraw_pilot-StoresBy :
      (s : Service F) (p : Pilot F) → StoresBy false true (withdraw_pilot has_writer answers s p)
  unfolding withdraw_pilot convert_pilot_to_protobuf
  withdraw_pilot-StoresBy s p = ground arith

  handle_thermal-StoresBy :
      (s : Service F) (t : Thermal F) → StoresBy false false (handle_thermal has_writer answers s t)
  unfolding handle_thermal convert_thermal_to_protobuf
  handle_thermal-StoresBy s t = ground arith

  handle_station-StoresBy :
      (s : Service F) (t : Station F) → StoresBy false false (handle_station has_writer answers s t)
  unfolding handle_station convert_station_to_protobuf
  handle_station-StoresBy s t = ground arith

  handle_name-StoresBy :
      (s : Service F) (n : NameUpdate) → StoresBy false false (handle_name has_writer answers s n)
  unfolding handle_name
  handle_name-StoresBy s n = ground arith

  act_on-StoresBy :
      (s : Service F) (should_store : Bool) (p : Pilot F)
      → StoresBy should_store
          (holds (answers.meanwhile s) (some p))
          (act_on has_writer answers s should_store p)
  unfolding act_on
  act_on-StoresBy s true p = store_pilot-StoresBy s p (holds (answers.meanwhile s) (some p))
  act_on-StoresBy s false p =
      let s' = answers.meanwhile s in
      elim (Option-cases (get_validation_state s' p.device_id)) [
        | inl e ↦ rw e (refl, refl)
        | inr (st, e) ↦ rw e (elim (Bool-cases st.is_validated) [
          | inl up ↦ rw up (withdraw_pilot-StoresBy s' p)
          | inr down ↦ rw down (refl, refl)
        ])
      ]

  handle_located-StoresBy :
      (s : Service F) (p : Pilot F) → Stores s (some p) (handle_located has_writer answers s p)
  unfolding handle_located
  handle_located-StoresBy s p =
      let (s', valid, should_store) = validate_pilot s (rated p) in
      let (st, found_e, flag_e) = validate_pilot-flag s (rated p) in
      let same : stored_flag (get_validation_state s' p.device_id) ≡ should_store =
        ap stored_flag found_e ∙ flag_e in
      subst
        (λ flag.
          StoresBy flag (holds (answers.meanwhile s') (some p))
            (act_on has_writer answers s' should_store p))
        (sym same) (act_on-StoresBy s' should_store p)

  handle_pilot-StoresBy :
      (bt : BoundaryTracker F) (s : Service F) (p : Pilot F) (q : GeoPoint F)
      → p.position ≡ some q
      → Stores s (some p) (handle_pilot has_writer answers bt s p)
  unfolding handle_pilot handle_at with_status
  handle_pilot-StoresBy bt s p q e =
      subst (λ at. Stores s (some p) (handle_at has_writer answers bt s p at)) (sym e)
        (handle_located-StoresBy s (with_status has_writer answers bt p q))

  pilot_from-position :
      (os : Platform F) (msg : Message F) (content : Payload F)
      → (pilot_from os msg content ≡ none)
        ⊎ ((p : Pilot F) × (q : GeoPoint F) × (pilot_from os msg content ≡ some p)
            × (p.position ≡ some q))
  unfolding pilot_from
  pilot_from-position os msg (air_tracking air) = inr (_, _, refl, refl)
  pilot_from-position os msg none = inl refl
  pilot_from-position os msg (name x) = inl refl
  pilot_from-position os msg (service x) = inl refl
  pilot_from-position os msg (ground_tracking x) = inl refl
  pilot_from-position os msg (hw_info x) = inl refl
  pilot_from-position os msg (thermal x) = inl refl
  pilot_from-position os msg (new_hw_info x) = inl refl

  on_converted-StoresBy :
      {A : Type 0} (s : Service F) (o : Option A) (handle : A → Handled F)
      → ((a : A) → StoresBy false false (handle a))
      → StoresBy false false (on_converted has_writer answers s o handle)
  on_converted-StoresBy s none handle h = (refl, refl)
  on_converted-StoresBy s (some a) handle h = h a

  position-StoresBy :
      (bt : BoundaryTracker F) (s : Service F) (o : Option (Pilot F))
      → (o ≡ none) ⊎ ((p : Pilot F) × (q : GeoPoint F) × (o ≡ some p) × (p.position ≡ some q))
      → Stores s o (on_converted has_writer answers s o (handle_pilot has_writer answers bt s))
  position-StoresBy bt s o (inl e) = rw e (refl, refl)
  position-StoresBy bt s o (inr (p, q, e, located)) = rw e (handle_pilot-StoresBy bt s p q located)

  other-StoresBy :
      (os : Platform F) (bt : BoundaryTracker F) (s : Service F) (msg : Message F)
      → (msg.type == 1) ≡ false
      → StoresBy false false (handle_message has_writer answers os bt s msg)
  unfolding handle_message
  other-StoresBy os bt s msg e = rw e (
      if_both (StoresBy false false) (msg.type == 2)
        (on_converted-StoresBy s (convert_fanet_to_name_update os msg) _ (handle_name-StoresBy s))
        (if_both (StoresBy false false) (msg.type == 9)
          (on_converted-StoresBy s (convert_fanet_to_thermal os msg) _ (handle_thermal-StoresBy s))
          (if_both (StoresBy false false) (msg.type == 4)
            (on_converted-StoresBy s (convert_fanet_to_station os msg) _
              (handle_station-StoresBy s))
            (refl, refl))))

  -- Whatever the message, the services, the database, the clock, and whatever other goroutines do to
  -- the validation service between the handler's two calls of it. The handler asks Redis to save a
  -- pilot exactly when the message is a position (type 1) that converts to a pilot whose device the
  -- service holds for validated right after it judged this message. It removes a pilot, from Redis or
  -- by a broadcast, exactly when the device was not validated right after the judgement and is by the
  -- second call; so it removes nothing when nothing comes between the two calls.
  pub handle_message-stores :
      (os : Platform F) (bt : BoundaryTracker F) (s : Service F) (msg : Message F)
      → let h = handle_message has_writer answers os bt s msg in
        let o = if msg.type == 1 then convert_fanet_to_pilot os msg else none in
        (any_call is_save h.calls ≡ holds (judged s o) o)
        × (any_call is_removal h.calls
            ≡ not (holds (judged s o) o) && holds (answers.meanwhile (judged s o)) o)
  unfolding handle_message convert_fanet_to_pilot
  handle_message-stores os bt s msg = elim (Bool-cases (msg.type == 1)) [
    | inl e ↦ rw e (
        position-StoresBy bt s (convert_fanet_to_pilot os msg)
          (pilot_from-position os msg msg.payload))
    | inr e ↦ let h = other-StoresBy os bt s msg e in rw e (rw e at h)
  ]
