-- ===== src/Samples/Incoming.antt =====
-- A position of a paraglider that the validation service holds for validated.
use flybeeper_com_map_fanet.Samples.Numbers.{whole}
use flybeeper_com_map_fanet.Prelude.{
  false, ◌≡◌, refl, true, some, none, [], ◌∷◌, pos, ℤ, ◌==◌, not, ◌&&◌, if◌then◌else◌, insert,
  lookup,
}
use flybeeper_com_map_fanet.Models.Points.{GeoPoint, distance_m, distance_to}
use flybeeper_com_map_fanet.Models.Aircraft.{max_speed_by_type}
use flybeeper_com_map_fanet.Mqtt.Messages.{Message, AirTracking}
use flybeeper_com_map_fanet.Mqtt.Messages
use flybeeper_com_map_fanet.Service.Boundary.{BoundaryTracker, get_object_status, last_movement_of}
use flybeeper_com_map_fanet.Service.Validation.Defs.{
  Service, new_service, update_score, reach_threshold, drop_threshold, check_hysteresis, hours,
  speed_ok,
}
use flybeeper_com_map_fanet.Service.Validation.Pilot.{
  settle, no_position, with_delta, with_positions, validate_known, first_state, count_packet,
  validate_pilot, get_validation_state,
}
use flybeeper_com_map_fanet.Process.Converters.{
  Platform, pilot_from, convert_fanet_to_pilot, convert_pilot_to_protobuf,
}
use flybeeper_com_map_fanet.Process.Messages.{
  Answers, handle_message, handle_pilot, handle_at, handle_located, act_on, store_pilot,
  withdraw_pilot, with_status,
}
use flybeeper_com_map_fanet.Process.Storing.{
  any_call, is_save, is_removal, judged, holds, handle_message-stores,
}

abbrev origin : GeoPoint ℤ
origin = record { latitude = pos 0; longitude = pos 0; altitude = pos 900 }

-- Every text is the same.
abbrev os : Platform ℤ
os = record {
  text = λ bytes. "A1B2C3";
  thermal_id = λ id t. id;
  to_int8 = λ x. x;
  to_uint8 = λ x. 0;
  to_uint16 = λ x. 0;
}

abbrev service : Service ℤ
service = record new_service {
  states =
      (
        "A1B2C3",
        record {
          device_id = "A1B2C3";
          first_seen = 0;
          last_position = some origin;
          last_update = 0;
          is_validated = true;
          packet_count = 4;
          aircraft_type = 1;
          validation_score = 80;
          consecutive_invalid = 0;
        },
      )
      ∷ [];
}

abbrev tracker : BoundaryTracker ℤ
tracker = record {
  ogn_center = origin;
  ogn_radius_km = pos 200;
  tracking_radius_km = pos 180;
  grace_period = 60;
  min_movement_dist = pos 50;
}

abbrev gliding : AirTracking ℤ
gliding = record {
  latitude = pos 0;
  longitude = pos 0;
  altitude = pos 900;
  speed = 36;
  heading = 90;
  climb_rate = pos 5;
  turn_rate = pos 0;
  aircraft_type = 1;
  online_tracking = true;
}

abbrev position : Message ℤ
position = record {
  type = 1;
  device_id = 65 ∷ [];
  chip_id = 56 ∷ [];
  packet_type = 49 ∷ [];
  timestamp = 600_000_000_000;
  rssi = pos 0;
  snr = pos 0;
  raw_payload = [];
  payload = Messages.air_tracking gliding;
}

-- Nothing comes between the two calls.
abbrev answers : Answers ℤ
answers = record {
  existing_pilot = none;
  saved = true;
  removed = true;
  now = 600_000_000_000;
  meanwhile = λ s. s;
}

position-saved :
    any_call is_save (handle_message true answers os tracker service position).calls ≡ true
unfolding new_service distance_m distance_to max_speed_by_type update_score reach_threshold
    drop_threshold check_hysteresis hours speed_ok settle no_position with_delta with_positions
    validate_known first_state count_packet validate_pilot lookup insert get_validation_state
    handle_message handle_pilot handle_at handle_located act_on store_pilot with_status
    get_object_status last_movement_of pilot_from convert_fanet_to_pilot convert_pilot_to_protobuf
position-saved = refl

-- The device with a score of 50: its packet takes it to 65, which is not enough, and another packet of
-- a minute later, handled before the second call, to 80.
abbrev doubtful : Service ℤ
doubtful = record service {
  states =
      (
        "A1B2C3",
        record {
          device_id = "A1B2C3";
          first_seen = 0;
          last_position = some origin;
          last_update = 0;
          is_validated = false;
          packet_count = 4;
          aircraft_type = 1;
          validation_score = 50;
          consecutive_invalid = 0;
        },
      )
      ∷ [];
}

abbrev overtaken : Answers ℤ
overtaken = record answers {
  meanwhile = λ s.
      (validate_pilot s (record {
        device_id = "A1B2C3";
        type = 1;
        position = some origin;
        last_update = 660_000_000_000;
      })).0;
}

-- So the pilot is removed just when it has become validated.
position-removed :
    any_call is_removal (handle_message true overtaken os tracker doubtful position).calls ≡ true
unfolding new_service distance_m distance_to max_speed_by_type update_score reach_threshold
    drop_threshold check_hysteresis hours speed_ok settle no_position with_delta with_positions
    validate_known first_state count_packet validate_pilot lookup insert get_validation_state
    handle_message handle_pilot handle_at handle_located act_on store_pilot withdraw_pilot
    with_status get_object_status last_movement_of pilot_from convert_fanet_to_pilot
    convert_pilot_to_protobuf
position-removed = refl

handle_message-stores_example :
    let h = handle_message true answers os tracker service position in
    let o = if position.type == 1 then convert_fanet_to_pilot os position else none in
    (any_call is_save h.calls ≡ holds (judged service o) o)
    × (any_call is_removal h.calls
        ≡ not (holds (judged service o) o) && holds (answers.meanwhile (judged service o)) o)
handle_message-stores_example = handle_message-stores true answers os tracker service position
