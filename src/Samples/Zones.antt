-- ===== src/Samples/Zones.antt =====
-- A boundary tracker of 10 km around the origin, and objects on the equator.
use flybeeper_com_map_fanet.Prelude.{
  negsuc, ◌+◌, ◌≡◌, refl, false, ◌&&◌, ◌||◌, none, ℤ, pos, arith, leb,
}
use flybeeper_com_map_fanet.Models.Points.{GeoPoint, distance_to}
use flybeeper_com_map_fanet.Service.Boundary.{
  BoundaryTracker, last_movement_of, get_object_status, should_include_in_snapshot,
  calculate_visibility_score, should_include_in_snapshot-stays_out,
  should_include_in_snapshot-zones,
}
use flybeeper_com_map_fanet.Samples.Numbers.{whole}

abbrev origin : GeoPoint ℤ
origin = record { latitude = pos 0; longitude = pos 0; altitude = pos 0 }

-- Everything is at distance 0, inside the OGN radius and outside the tracking radius.
abbrev ring : BoundaryTracker ℤ
ring = record {
  ogn_center = origin;
  ogn_radius_km = pos 10;
  tracking_radius_km = negsuc 0;
  grace_period = 60;
  min_movement_dist = pos 50;
}

should_include_in_snapshot-stays_out_example :
    (should_include_in_snapshot ring origin 0 90 ≡ false)
    × (calculate_visibility_score ring (get_object_status ring origin none 0 61) 61 ≡ pos 0)
    × (calculate_visibility_score ring (get_object_status ring origin none 0 90) 90 ≡ pos 0)
unfolding should_include_in_snapshot get_object_status last_movement_of distance_to
should_include_in_snapshot-stays_out_example =
    should_include_in_snapshot-stays_out ring origin 0 61 90 (omega arith) refl

should_include_in_snapshot-zones_example : should_include_in_snapshot ring origin 0 60 ≡ (
    whole.le (distance_to origin origin) ring.tracking_radius_km
    || (whole.le (distance_to origin origin) ring.ogn_radius_km && leb 60 (0 + 60)))
should_include_in_snapshot-zones_example = should_include_in_snapshot-zones ring origin 0 60
