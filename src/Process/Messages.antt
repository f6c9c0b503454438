-- ===== src/Process/Messages.antt =====
-- The handler of decoded messages in cmd/fanet-api/main.go. What it asks of Redis, of the batch writer
-- and of the WebSocket hub are the calls of the result, in their order; what Redis answers is an
-- argument. The answers of the batch writer are only logged, and so is that of the change of a name.
-- Every message has a goroutine of its own, and the handler locks the validation service twice, for
-- `ValidatePilot` and for `GetValidationState`: what the other goroutines make of the service between
-- the two calls is an argument too, any function.
use flybeeper_com_map_fanet.Prelude.{
  ℕ, Bool, false, Option, none, some, List, [], ◌∷◌, String, ◌==◌, if◌then◌else◌, pos, Float,
}
use mathlib.Core.Option
use flybeeper_com_map_fanet.Mqtt.Messages.{Message}
use flybeeper_com_map_fanet.Models.Points.{GeoPoint}
use flybeeper_com_map_fanet.Models.Pilots.{Pilot}
use flybeeper_com_map_fanet.Models.Thermals.{Thermal}
use flybeeper_com_map_fanet.Models.Stations.{Station}
use flybeeper_com_map_fanet.Service.Validation.Defs.{Service}
use flybeeper_com_map_fanet.Service.Validation.Defs
use flybeeper_com_map_fanet.Service.Validation.Pilot.{validate_pilot, get_validation_state}
use flybeeper_com_map_fanet.Service.Boundary.{
  Visibility, visible, boundary, outside, BoundaryTracker, get_object_status,
}
use flybeeper_com_map_fanet.Process.Converters.{
  Platform, NameUpdate, convert_fanet_to_pilot, convert_fanet_to_thermal, convert_fanet_to_station,
  convert_fanet_to_name_update, convert_pilot_to_protobuf, convert_thermal_to_protobuf,
  convert_station_to_protobuf,
}
use flybeeper_com_map_fanet.Wire.{
  UpdateType, Action, Content, pilot, thermal, station, add, update, remove, pilot_data,
  thermal_data, station_data,
}

pub data Call (F : Type 0) : Type 0 where
  save_pilot : Pilot F → Call F
  remove_pilot : String → Call F
  update_pilot_name : String → String → Call F
  save_thermal : Thermal F → Call F
  save_station : Station F → Call F
  queue_pilot : Pilot F → Call F
  queue_thermal : Thermal F → Call F
  queue_station : Station F → Call F
  broadcast : UpdateType → Action → Content F → Call F

-- What Redis answers to the calls of one message (true for no error), the clock, and what the other
-- goroutines do to the validation service between the two calls of this message's.
pub record Answers (F : Type 0) : Type 0 where
  pub existing_pilot : Option (Pilot F)
  pub saved : Bool
  pub removed : Bool
  pub now : ℕ
  pub meanwhile : Service F → Service F

pub data Outcome : Type 0 where
  done failed panicked : Outcome

-- The services after a message, what was called, and how the handler ended.
pub record Handled (F : Type 0) : Type 0 where
  pub service : Service F
  pub calls : List (Call F)
  pub outcome : Outcome

abbrev pub visibility_text : Visibility → String
visibility_text visible = "visible"
visibility_text boundary = "boundary"
visibility_text outside = "outside"

module _ {F : Type 0} where
  -- The calls that a writer which is nil does not get.
  abbrev when_writer : Bool → Call F → List (Call F) → List (Call F)
  when_writer has_writer call rest = if has_writer then call ∷ rest else rest

  -- What the validation service reads of a pilot.
  abbrev pub rated : Pilot F → Defs.Pilot F
  rated p = record {
    device_id = p.device_id;
    type = p.type;
    position = p.position;
    last_update = p.last_update;
  }

  -- A call of the hub with a message whose conversion has read through nil.
  abbrev broadcast_or_panic :
      Option (Content F)
      → UpdateType
      → Action
      → Service F
      → (List (Call F) → List (Call F))
      → Handled F
  broadcast_or_panic none t a s before = record {
    service = s;
    calls = before [];
    outcome = panicked;
  }
  broadcast_or_panic (some content) t a s before = record {
    service = s;
    calls = before (broadcast t a content ∷ []);
    outcome = done;
  }

module _ {F : Type 0} ⦃fl : Float F⦄ (has_writer : Bool) (answers : Answers F) where
  -- The fields that the status at the borders fills in.
  unfoldable pub with_status : BoundaryTracker F → Pilot F → GeoPoint F → Pilot F
  with_status bt p q =
      let last : Option (GeoPoint F) = elim answers.existing_pilot [
        | none ↦ none
        | some old ↦ old.position
      ] in
      let status = get_object_status bt q last p.last_update answers.now in
      record p {
        tracking_distance = status.distance;
        visibility_status = visibility_text status.visibility_status;
        last_movement =
            if status.last_movement == p.last_update
            then p.last_movement
            else some status.last_movement;
      }

  -- The pilot is stored.
  unfoldable pub store_pilot : Service F → Pilot F → Handled F
  store_pilot s p =
      if answers.saved
      then broadcast_or_panic (Option.map pilot_data (convert_pilot_to_protobuf p)) pilot update s
          (λ rest. save_pilot p ∷ when_writer has_writer (queue_pilot p) rest)
      else record { service = s; calls = save_pilot p ∷ []; outcome = failed }

  -- The pilot is not stored, but was.
  unfoldable pub withdraw_pilot : Service F → Pilot F → Handled F
  withdraw_pilot s p =
      if answers.removed
      then broadcast_or_panic (Option.map pilot_data (convert_pilot_to_protobuf p)) pilot remove s
          (λ rest. remove_pilot p.device_id ∷ rest)
      else record { service = s; calls = remove_pilot p.device_id ∷ []; outcome = done }

  -- What follows the validation, by its answer `should_store`.
  unfoldable pub act_on : Service F → Bool → Pilot F → Handled F
  act_on s should_store p =
      if should_store
      then store_pilot s p
      else (let s' = answers.meanwhile s in
          elim (get_validation_state s' p.device_id) [
            | none ↦ record { service = s'; calls = []; outcome = done }
            | some st ↦
                if st.is_validated
                then withdraw_pilot s' p
                else record { service = s'; calls = []; outcome = done }
          ])

  unfoldable pub handle_located : Service F → Pilot F → Handled F
  handle_located s p =
      let (s', is_valid, should_store) = validate_pilot s (rated p) in act_on s' should_store p

  -- `*pilot.Position`, a read through nil if there is none.
  unfoldable pub handle_at :
      BoundaryTracker F → Service F → Pilot F → Option (GeoPoint F) → Handled F
  handle_at bt s p none = record { service = s; calls = []; outcome = panicked }
  handle_at bt s p (some q) = handle_located s (with_status bt p q)

  unfoldable pub handle_pilot : BoundaryTracker F → Service F → Pilot F → Handled F
  unfolding handle_at
  handle_pilot bt s p = handle_at bt s p p.position

  unfoldable pub handle_name : Service F → NameUpdate → Handled F
  handle_name s n = record {
    service = s;
    calls =
        update_pilot_name n.device_id n.new_name
        ∷ when_writer has_writer
            (queue_pilot (record {
              device_id = n.device_id;
              address = "";
              name = n.new_name;
              type = 0;
              position = none;
              speed = fl.of_int (pos 0);
              climb_rate = pos 0;
              heading = fl.of_int (pos 0);
              last_update = answers.now;
              last_seen = none;
              track_online = false;
              battery = 0;
              last_movement = none;
              tracking_distance = fl.of_int (pos 0);
              visibility_status = "";
            }))
            [];
    outcome = done;
  }

  unfoldable pub handle_thermal : Service F → Thermal F → Handled F
  handle_thermal s t =
      if answers.saved
      then broadcast_or_panic (Option.map thermal_data (convert_thermal_to_protobuf t)) thermal add
          s (λ rest. save_thermal t ∷ when_writer has_writer (queue_thermal t) rest)
      else record { service = s; calls = save_thermal t ∷ []; outcome = failed }

  unfoldable pub handle_station : Service F → Station F → Handled F
  handle_station s t =
      if answers.saved
      then broadcast_or_panic (Option.map station_data (convert_station_to_protobuf t)) station
          update s (λ rest. save_station t ∷ when_writer has_writer (queue_station t) rest)
      else record { service = s; calls = save_station t ∷ []; outcome = failed }

  -- What cannot be converted is only logged.
  abbrev pub on_converted : {A : Type 0} → Service F → Option A → (A → Handled F) → Handled F
  on_converted s none handle = record { service = s; calls = []; outcome = done }
  on_converted s (some a) handle = handle a

  -- `messageHandler`
  unfoldable pub handle_message : Platform F → BoundaryTracker F → Service F → Message F → Handled F
  handle_message os bt s msg =
      if msg.type == 1
      then on_converted s (convert_fanet_to_pilot os msg) (handle_pilot bt s)
      else if msg.type == 2
      then on_converted s (convert_fanet_to_name_update os msg) (handle_name s)
      else if msg.type == 9
      then on_converted s (convert_fanet_to_thermal os msg) (handle_thermal s)
      else if msg.type == 4
      then on_converted s (convert_fanet_to_station os msg) (handle_station s)
      else record { service = s; calls = []; outcome = done }
