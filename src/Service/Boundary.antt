-- ===== src/Service/Boundary.antt =====
-- internal/service/boundary_tracker.go: the zones around the centre of the OGN data. The status text is
-- a data type. `now` is the clock, which the source reads anew at each `time.Now` and `time.Since` of
-- a call. The constructor's log line and the lock, which only guards reads, are left out.
use flybeeper_com_map_fanet.Prelude.{
  ℕ, ◌+◌, ◌≤◌, ◌≡◌, Bool, true, false, ◌&&◌, ◌||◌, not, Option, none, some, pos, sub_ℕ, ltb, leb,
  arith, if◌then◌else◌, Float,
}
use flybeeper_com_map_fanet.Models.Points.{GeoPoint, distance_to}

pub data Visibility : Type 0 where
  visible boundary outside : Visibility

-- `status.VisibilityStatus == "boundary"`
abbrev pub is_boundary : Visibility → Bool
is_boundary visible = false
is_boundary boundary = true
is_boundary outside = false

pub record BoundaryTracker (F : Type 0) : Type 0 where
  pub ogn_center : GeoPoint F
  pub ogn_radius_km : F
  pub tracking_radius_km : F
  pub grace_period : ℕ
  pub min_movement_dist : F

pub record ObjectStatus (F : Type 0) : Type 0 where
  pub is_in_tracking_zone : Bool
  pub is_in_monitoring_zone : Bool
  pub distance : F
  pub last_movement : ℕ
  pub visibility_status : Visibility

module _ {F : Type 0} ⦃fl : Float F⦄ where
  open fl use {of_int, decimal, mul, sub, div, le}

  -- `NewBoundaryTracker`
  unfoldable pub new_boundary_tracker : GeoPoint F → F → F → ℕ → F → BoundaryTracker F
  new_boundary_tracker center radius percent grace movement =
      let share =
        if le percent (of_int (pos 0)) || fl.lt (of_int (pos 1)) percent
        then decimal 9 1
        else percent in
      record {
        ogn_center = center;
        ogn_radius_km = radius;
        tracking_radius_km = mul radius share;
        grace_period = grace;
        min_movement_dist = movement;
      }

  -- `status.LastMovement`, after the test of the movement.
  unfoldable pub last_movement_of : BoundaryTracker F → GeoPoint F → Option (GeoPoint F) → ℕ → ℕ → ℕ
  last_movement_of bt position none last_update now = last_update
  last_movement_of bt position (some last) last_update now =
      if le bt.min_movement_dist (mul (distance_to position last) (of_int (pos 1000)))
      then now
      else last_update

  -- `time.Since(t) > bt.gracePeriod`
  abbrev pub grace_over : BoundaryTracker F → ℕ → ℕ → Bool
  grace_over bt t now = ltb (t + bt.grace_period) now

  unfoldable pub get_object_status :
      BoundaryTracker F → GeoPoint F → Option (GeoPoint F) → ℕ → ℕ → ObjectStatus F
  get_object_status bt position last_position last_update now =
      let d = distance_to position bt.ogn_center in
      let moved = last_movement_of bt position last_position last_update now in
      let status : ObjectStatus F = record {
        is_in_tracking_zone = false;
        is_in_monitoring_zone = false;
        distance = d;
        last_movement = moved;
        visibility_status = outside;
      } in
      if le d bt.tracking_radius_km
      then record status {
        is_in_tracking_zone = true;
        is_in_monitoring_zone = true;
        visibility_status = visible;
      }
      else if le d bt.ogn_radius_km
      then record status {
        is_in_monitoring_zone = true;
        visibility_status = if grace_over bt moved now then outside else boundary;
      }
      else status

  unfoldable pub should_include_in_snapshot : BoundaryTracker F → GeoPoint F → ℕ → ℕ → Bool
  should_include_in_snapshot bt position last_movement now =
      let status = get_object_status bt position none last_movement now in
      status.is_in_tracking_zone
      || (is_boundary status.visibility_status && not (grace_over bt last_movement now))

  unfoldable pub calculate_visibility_score : BoundaryTracker F → ObjectStatus F → ℕ → F
  calculate_visibility_score bt status now = elim status.visibility_status [
    | visible ↦ of_int (pos 1)
    | outside ↦ of_int (pos 0)
    | boundary ↦
        if leb (status.last_movement + bt.grace_period) now
        then of_int (pos 0)
        else sub (of_int (pos 1)) (
            mul (div (of_int (sub_ℕ now status.last_movement)) (of_int (pos bt.grace_period)))
              (decimal 7 1))
  ]

  -- An object that does not move and that a snapshot leaves out is left out by every later one, and it
  -- has the visibility score 0 at both times: it never comes back by the passing of time.
  pub should_include_in_snapshot-stays_out :
      (bt : BoundaryTracker F) (position : GeoPoint F) (last now later : ℕ)
      → now ≤ later
      → should_include_in_snapshot bt position last now ≡ false
      → (should_include_in_snapshot bt position last later ≡ false)
        × (calculate_visibility_score bt (get_object_status bt position none last now) now
            ≡ of_int (pos 0))
        × (calculate_visibility_score bt (get_object_status bt position none last later) later
            ≡ of_int (pos 0))
  unfolding should_include_in_snapshot get_object_status calculate_visibility_score last_movement_of
  should_include_in_snapshot-stays_out bt position last now later le_later e = ground arith

  -- A snapshot includes exactly the objects within the tracking radius, and those between it and the
  -- OGN radius whose grace period since the last movement is not over.
  pub should_include_in_snapshot-zones :
      (bt : BoundaryTracker F) (position : GeoPoint F) (last now : ℕ)
      → let d = distance_to position bt.ogn_center in
        should_include_in_snapshot bt position last now ≡ (
          le d bt.tracking_radius_km || (le d bt.ogn_radius_km && leb now (last + bt.grace_period)))
  unfolding should_include_in_snapshot get_object_status last_movement_of
  should_include_in_snapshot-zones bt position last now = ground arith
