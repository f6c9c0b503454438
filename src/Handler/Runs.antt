-- ===== src/Handler/Runs.antt =====
-- The state of the hub of internal/handler/broadcast.go over whole runs.
use flybeeper_com_map_fanet.Prelude.{
  ℕ, ◌≡◌, ap, ◌∙◌, false, not, Option-cases, List, [], String, arith, eq_iff, lookup, found,
  IsUnique, lookup-insert, lookup-delete, lookup-keep_if, keep_if-IsUnique, Dict, inl, inr,
}
use flybeeper_com_map_fanet.Handler.Groups.{
  Group, ClientInfo, Rooms, Registration, mark_all_cells, handle_register, handle_unregister,
  clean_groups, is_dead,
}
use flybeeper_com_map_fanet.Handler.Agreement.{
  in_group, holds, vacant, subscribed, is_vacant, found-marked, in_group-join_groups,
  in_group-leave_groups, is_vacant-join_groups, is_vacant-leave_groups, join_groups-IsUnique,
  leave_groups-IsUnique,
}
use flybeeper_com_map_fanet.Handler.Steady.{AreAlike}

-- Every client stands exactly in the groups of the area it is registered with, and no group is empty.
pub record IsAgreed {F : Type 0} (rooms : Rooms F) : Type 0 where
  pub unique : IsUnique rooms.groups
  pub agree : (c gh : String) → in_group c gh rooms.groups ≡ subscribed c gh rooms.clients
  pub full : (gh : String) → is_vacant gh rooms.groups ≡ false

module _ {F : Type 0} where
  subscribed-absent :
      (c gh : String) (clients : Dict (ClientInfo F))
      → found (lookup c clients) ≡ false
      → subscribed c gh clients ≡ false
  subscribed-absent c gh clients e = ground arith

  pub handle_register-IsAgreed :
      (geohashes : List String) (now : ℕ) (reg : Registration F) (rooms : Rooms F)
      → found (lookup reg.client rooms.clients) ≡ false
      → IsAgreed rooms
      → IsAgreed (handle_register geohashes now reg rooms)
  unfolding handle_register
  handle_register-IsAgreed geohashes now reg rooms fresh h =
      let info : ClientInfo F = record {
        geohashes = mark_all_cells geohashes [];
        center_lat = reg.center_lat;
        center_lon = reg.center_lon;
        radius_km = reg.radius_km;
        last_active = now;
      } in
      record {
        unique = join_groups-IsUnique reg.client now geohashes rooms.groups h.unique;
        agree = λ c gh. ground (
          arith,
          in_group-join_groups reg.client c now geohashes gh rooms.groups,
          h.agree c gh,
          found-marked gh geohashes,
          lookup-insert reg.client c info rooms.clients,
          eq_iff reg.client c,
          fresh,
        );
        full = λ gh. is_vacant-join_groups reg.client now geohashes gh rooms.groups (h.full gh);
      }

  pub handle_unregister-IsAgreed :
      (client : String) (rooms : Rooms F)
      → IsAgreed rooms
      → IsAgreed (handle_unregister client rooms)
  unfolding handle_unregister
  handle_unregister-IsAgreed client rooms h = elim (Option-cases (lookup client rooms.clients)) [
    | inl e ↦ rw (handle_unregister, e) h
    | inr (info, e) ↦
        rw (handle_unregister, e)
          (record {
            unique = leave_groups-IsUnique client info.geohashes rooms.groups h.unique;
            agree = λ c gh. ground (
              arith,
              in_group-leave_groups client c info.geohashes gh rooms.groups,
              h.agree c gh,
              lookup-delete client c rooms.clients,
              eq_iff client c,
              e,
            );
            full = λ gh. is_vacant-leave_groups client info.geohashes gh rooms.groups (h.full gh);
          })
  ]

  -- The cleaning finds no group to delete.
  lookup-clean_groups :
      (now : ℕ) (gh : String) (rooms : Rooms F)
      → IsAgreed rooms
      → lookup gh (clean_groups now rooms).groups ≡ lookup gh rooms.groups
  unfolding clean_groups
  lookup-clean_groups now gh rooms h =
      ground (arith, lookup-keep_if (λ g. not (is_dead now g)) gh rooms.groups h.unique, h.full gh)

  pub clean_groups-IsAgreed :
      (now : ℕ) (rooms : Rooms F) → IsAgreed rooms → IsAgreed (clean_groups now rooms)
  clean_groups-IsAgreed now rooms h = record {
    unique =
        unfold clean_groups in keep_if-IsUnique (λ g. not (is_dead now g)) rooms.groups h.unique;
    agree = λ c gh.
        ap (holds c) (lookup-clean_groups now gh rooms h) ∙ (unfold clean_groups in h.agree c gh);
    full = λ gh. ap vacant (lookup-clean_groups now gh rooms h) ∙ h.full gh;
  }

  pub AreAlike-IsAgreed :
      (rooms : Rooms F) (groups : Dict Group)
      → AreAlike rooms.groups groups
      → IsAgreed rooms
      → IsAgreed (record rooms { groups = groups })
  AreAlike-IsAgreed rooms groups alike h = record {
    unique = alike.unique h.unique;
    agree = λ c gh. ground (arith, alike.same gh, h.agree c gh);
    full = λ gh. ground (arith, alike.same gh, h.full gh);
  }
