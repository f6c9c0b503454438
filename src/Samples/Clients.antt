-- ===== src/Samples/Clients.antt =====
-- A WebSocket client around the origin, and updates of a pilot and a station.
use flybeeper_com_map_fanet.Samples.Numbers.{whole}
use flybeeper_com_map_fanet.Prelude.{
  ℕ, ◌≡◌, ◌≤◌, refl, true, false, some, String, [], ◌∷◌, pos, ℤ, List, ◌==◌, if◌then◌else◌, insert,
  lookup, IsUnique, Dict, length, All,
}
use flybeeper_com_map_fanet.Models.Points.{GeoPoint, distance_km}
use flybeeper_com_map_fanet.Geo.Geohash.{encode, encode_from}
use flybeeper_com_map_fanet.Wire.{
  PbPilot, PbStation, pilot_data, station_data, pilot, station, update, remove,
}
use flybeeper_com_map_fanet.Handler.Groups.{Group, ClientInfo, handle_register, with_client}
use flybeeper_com_map_fanet.Handler.Updates.{UpdatePacket, object_of, coordinates, broadcast_update}
use flybeeper_com_map_fanet.Models.Protos.{pilot_to_proto}
use flybeeper_com_map_fanet.Handler.Sending.{
  send_all, is_taken, process_batch, Update, Codec, collect, broadcast_to_group,
}
use flybeeper_com_map_fanet.Handler.Hub.{
  Step, BroadcastManager, register, unregister, broadcast, take_update, tick, collect_metrics,
  read_message, run, are_fresh, new_broadcast_manager,
}
use flybeeper_com_map_fanet.Handler.Silence.{Offer, packets_of, is_audible, collect-audible}
use flybeeper_com_map_fanet.Handler.Delivery.{IsDelivered, broadcast_to_group-delivers}
use flybeeper_com_map_fanet.Handler.Consistency.{IsConsistent, run-IsConsistent}

abbrev print : ℕ → String
print n = "0"

abbrev codec : Codec ℤ
codec = record {
  marshals = λ content. true;
  marshals_batch = λ batch. true;
  text = λ bytes. if length bytes == 5 then "s0000" else "other";
}

abbrev origin : GeoPoint ℤ
origin = record { latitude = pos 0; longitude = pos 0; altitude = pos 900 }

abbrev anna : PbPilot ℤ
anna = record {
  addr = 0;
  name = "Anna";
  type = 1;
  position = some origin;
  altitude = pos 0;
  speed = pos 36;
  climb = pos 1;
  course = pos 90;
  last_update = 600;
  track_online = true;
  battery = 100;
}

abbrev wind : PbStation ℤ
wind = record {
  addr = 0;
  name = "Wind";
  position = some origin;
  temperature = pos 10;
  wind_speed = pos 5;
  wind_heading = pos 90;
  wind_gusts = pos 9;
  humidity = 50;
  pressure = pos 1013;
  battery = 100;
  last_update = 600;
}

abbrev offers : List (Offer ℤ)
offers =
    record { type = pilot; action = remove; content = pilot_data anna; time = 1 }
    ∷ record { type = station; action = update; content = station_data wind; time = 2 }
    ∷ []

collect-audible_example :
    (batch : List (Update ℤ)) × (collect codec [] (packets_of print offers) ≡ some batch)
    × All (λ u. (is_audible u.content ≡ true) × (u.action ≡ update)) batch
collect-audible_example = collect-audible print codec [] offers

abbrev steps : List (Step ℤ)
steps =
    register ("s0000" ∷ "s0001" ∷ []) 0
      (record { client = "10.0.0.1"; center_lat = pos 0; center_lon = pos 0; radius_km = pos 20 })
    ∷ broadcast pilot update (pilot_data anna) 1
    ∷ take_update 2 (pos 0)
    ∷ tick 3 (pos 1)
    ∷ read_message "10.0.0.1"
    ∷ unregister "10.0.0.1"
    ∷ collect_metrics 4
    ∷ []

steps-fresh : are_fresh codec print steps new_broadcast_manager ≡ true
unfolding are_fresh lookup new_broadcast_manager broadcast_update process_batch insert encode
    encode_from handle_register with_client collect object_of is_taken send_all distance_km
    coordinates
steps-fresh = refl

run-IsConsistent_example :
    (m : BroadcastManager ℤ) × (run codec print steps new_broadcast_manager ≡ some m)
    × IsConsistent m
run-IsConsistent_example = run-IsConsistent codec print steps steps-fresh

abbrev clients : Dict (ClientInfo ℤ)
clients =
    (
      "10.0.0.1",
      record {
        geohashes = ("s0000", true) ∷ [];
        center_lat = pos 0;
        center_lon = pos 0;
        radius_km = pos 20;
        last_active = 0;
      },
    )
    ∷ []

abbrev group : Group
group = record { clients = ("10.0.0.1", true) ∷ ("10.0.0.2", true) ∷ []; last_update = 0 }

group-IsUnique : IsUnique group.clients
unfolding lookup
group-IsUnique = (refl, (refl, tt))

-- What the hub makes of the update about the pilot.
abbrev message : List (Update ℤ)
message =
    record {
      type = pilot;
      action = update;
      content = pilot_data (record anna {
        position = some (record origin { altitude = pos 0 });
        type = 0;
        climb = pos 0;
        track_online = false;
        battery = 0;
      });
    }
    ∷ []

abbrev packets : List (UpdatePacket ℤ)
packets = packets_of print offers

message-collected : collect codec [] packets ≡ some message
unfolding collect broadcast_update object_of is_taken lookup pilot_to_proto
message-collected = refl

broadcast_to_group-delivers_example :
    (g' : Group) × (sends' : Dict (List (List (Update ℤ)))) × (n : ℕ) × (broadcast_to_group codec 5
        clients group packets []
      ≡ some (g', sends', n))
    × (n ≤ length group.clients)
    × (g'.clients ≡ group.clients)
    × ((c : String) → IsDelivered group.clients clients packets message [] sends' c)
broadcast_to_group-delivers_example =
    broadcast_to_group-delivers codec 5 clients group packets [] message group-IsUnique
      message-collected refl
