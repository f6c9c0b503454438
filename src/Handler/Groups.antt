-- ===== src/Handler/Groups.antt =====
-- The groups and clients of `BroadcastManager`, in internal/handler/broadcast.go. A `*Client` is only
-- compared, so that it is a name here. A `map[K]bool` is a dictionary of Booleans. What `Cover` answers
-- for an area is an argument.
use flybeeper_com_map_fanet.Prelude.{
  ℕ, ◌+◌, Bool, true, ◌&&◌, not, Option, none, some, List, [], ◌∷◌, String, ltb, ◌==◌, length,
  lookup, insert, delete, keep_if, if◌then◌else◌, Dict,
}

pub record Group : Type 0 where
  pub clients : Dict Bool
  pub last_update : ℕ

pub record ClientInfo (F : Type 0) : Type 0 where
  pub geohashes : Dict Bool
  pub center_lat : F
  pub center_lon : F
  pub radius_km : F
  pub last_active : ℕ

pub record Registration (F : Type 0) : Type 0 where
  pub client : String
  pub center_lat : F
  pub center_lon : F
  pub radius_km : F

pub record Rooms (F : Type 0) : Type 0 where
  pub groups : Dict Group
  pub clients : Dict (ClientInfo F)

-- `info.geohashes` as it is filled.
unfoldable pub mark_all_cells : List String → Dict Bool → Dict Bool
mark_all_cells [] d = d
mark_all_cells (gh ∷ rest) d = mark_all_cells rest (insert gh true d)

-- The group of a cell, which is made if it is missing, with the client.
unfoldable pub with_client : String → ℕ → Option Group → Group
with_client client now none = record { clients = insert client true []; last_update = now }
with_client client now (some g) = record g { clients = insert client true g.clients }

unfoldable pub join_group : String → ℕ → String → Dict Group → Dict Group
join_group client now gh groups = insert gh (with_client client now (lookup gh groups)) groups

unfoldable pub join_groups : String → ℕ → List String → Dict Group → Dict Group
unfolding join_group
join_groups client now [] groups = groups
join_groups client now (gh ∷ rest) groups =
    join_groups client now rest (join_group client now gh groups)

-- The client is taken out of one group, and an empty group is deleted.
unfoldable pub leave_found : String → String → Dict Group → Option Group → Dict Group
leave_found client gh groups none = groups
leave_found client gh groups (some g) =
    let left = delete client g.clients in
    if length left == 0 then delete gh groups else insert gh (record g { clients = left }) groups

unfoldable pub leave_group : String → String → Dict Group → Dict Group
unfolding leave_found
leave_group client gh groups = leave_found client gh groups (lookup gh groups)

unfoldable pub leave_groups : String → Dict Bool → Dict Group → Dict Group
unfolding leave_group
leave_groups client [] groups = groups
leave_groups client ((gh, v) ∷ rest) groups =
    leave_groups client rest (leave_group client gh groups)

module _ {F : Type 0} where
  unfoldable pub handle_register : List String → ℕ → Registration F → Rooms F → Rooms F
  unfolding mark_all_cells join_groups
  handle_register geohashes now reg rooms = record {
    groups = join_groups reg.client now geohashes rooms.groups;
    clients =
        insert reg.client
          (record {
            geohashes = mark_all_cells geohashes [];
            center_lat = reg.center_lat;
            center_lon = reg.center_lon;
            radius_km = reg.radius_km;
            last_active = now;
          })
          rooms.clients;
  }

  unfoldable pub handle_unregister : String → Rooms F → Rooms F
  unfolding leave_groups
  handle_unregister client rooms = elim (lookup client rooms.clients) [
    | none ↦ rooms
    | some info ↦ record {
      groups = leave_groups client info.geohashes rooms.groups;
      clients = delete client rooms.clients;
    }
  ]

-- `time.Since(group.lastUpdate) > 5*time.Minute && len(group.clients) == 0`
abbrev pub is_dead : ℕ → Group → Bool
is_dead now g = ltb (g.last_update + 300_000_000_000) now && length g.clients == 0

module _ {F : Type 0} where
  -- The cleaning of `metricsCollector`
  unfoldable pub clean_groups : ℕ → Rooms F → Rooms F
  clean_groups now rooms = record rooms {
    groups = keep_if (λ e. not (is_dead now e.1)) rooms.groups;
  }
