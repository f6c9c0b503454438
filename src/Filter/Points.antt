-- ===== src/Filter/Points.antt =====
-- The data of internal/filter/interface.go and the segments of internal/filter/segmentation_filter.go. Times and
-- durations are nanoseconds; a timestamp counts from a moment before all points.
use flybeeper_com_map_fanet.Prelude.{
  ℕ, zero, suc, ◌*◌, ◌/◌, ◌%◌, ℤ, pos, negsuc, Bool, true, Option, none, some, List, [], ◌∷◌,
  String, if◌then◌else◌, ◌==◌, Float,
}
use flybeeper_com_map_fanet.Models.Points.{GeoPoint}
use flybeeper_com_map_fanet.Models.Aircraft.{
  paraglider, hangglider, balloon, glider, powered, helicopter, uav,
}

pub record TrackPoint (F : Type 0) : Type 0 where
  pub position : GeoPoint F
  pub timestamp : ℕ
  pub speed : F
  pub distance : F
  pub filtered : Bool
  pub filter_reason : String
  pub segment_id : ℕ

pub record TrackData (F : Type 0) : Type 0 where
  pub device_id : String
  pub aircraft_type : ℕ
  pub points : List (TrackPoint F)

pub data SegmentType : Type 0 where
  stationary hike flight : SegmentType

-- `SegmentInfo`; the indices are those of a point's list.
pub record SegmentInfo (F : Type 0) : Type 0 where
  pub id : ℕ
  pub type : SegmentType
  pub start_index : ℕ
  pub end_index : ℕ
  pub start_time : ℕ
  pub end_time : ℕ
  pub duration : F
  pub distance : F
  pub avg_speed : F
  pub max_speed : F
  pub point_count : ℕ
  pub color : String

pub record FilterStats (F : Type 0) : Type 0 where
  pub speed_violations : ℕ
  pub duplicates : ℕ
  pub outliers : ℕ
  pub teleportations : ℕ
  pub max_speed_detected : F
  pub avg_speed : F
  pub max_distance_jump : F
  pub segment_count : ℕ
  pub segment_breaks : ℤ
  pub segments : List (SegmentInfo F)

pub record FilterResult (F : Type 0) : Type 0 where
  pub original_count : ℕ
  pub filtered_count : ℕ
  pub points : List (TrackPoint F)
  pub statistics : FilterStats F

-- `MaxSpeeds` is the map from aircraft types.
pub record FilterConfig (F : Type 0) : Type 0 where
  pub max_speeds : List (ℕ × F)
  pub speed_buffer : F
  pub min_distance_meters : F
  pub min_time_interval : ℕ
  pub outlier_threshold_km : F
  pub enable_speed_filter : Bool
  pub enable_duplicate_filter : Bool
  pub enable_outlier_filter : Bool

abbrev pub second : ℕ
second = 1_000_000_000

abbrev pub minute : ℕ
minute = 60_000_000_000

abbrev pub hour : ℕ
hour = 3_600_000_000_000

abbrev negated : ℕ → ℤ
negated zero = pos 0
negated (suc n) = negsuc n

module _ {F : Type 0} ⦃fl : Float F⦄ where
  open fl use {of_int, decimal, add, mul, div, lt}

  abbrev pub number : ℕ → F
  number n = of_int (pos n)

  -- `x > y`
  abbrev pub above : F → F → Bool
  above x y = lt y x

  -- `FilterStats{}`
  abbrev pub no_stats : FilterStats F
  no_stats = record {
    speed_violations = 0;
    duplicates = 0;
    outliers = 0;
    teleportations = 0;
    max_speed_detected = number 0;
    avg_speed = number 0;
    max_distance_jump = number 0;
    segment_count = 0;
    segment_breaks = pos 0;
    segments = [];
  }

  abbrev pub default_filter_config : FilterConfig F
  default_filter_config = record {
    max_speeds =
        (0, number 150)
        ∷ (paraglider, number 80)
        ∷ (hangglider, number 120)
        ∷ (balloon, number 50)
        ∷ (glider, number 200)
        ∷ (powered, number 300)
        ∷ (helicopter, number 250)
        ∷ (uav, number 100)
        ∷ [];
    speed_buffer = decimal 15 1;
    min_distance_meters = number 10;
    min_time_interval = 5 * second;
    outlier_threshold_km = number 50;
    enable_speed_filter = true;
    enable_duplicate_filter = true;
    enable_outlier_filter = true;
  }

  -- A read of `MaxSpeeds`
  unfoldable pub speed_of : ℕ → List (ℕ × F) → Option F
  speed_of type [] = none
  speed_of type ((t, speed) ∷ speeds) = if t == type then some speed else speed_of type speeds

  abbrev or_zero : Option F → F
  or_zero none = number 0
  or_zero (some speed) = speed

  unfoldable pub get_max_speed : FilterConfig F → ℕ → F
  get_max_speed c type = elim (speed_of type c.max_speeds) [
    | some speed ↦ mul speed c.speed_buffer
    | none ↦ mul (or_zero (speed_of 0 c.max_speeds)) c.speed_buffer
  ]

  -- `Hours` and `Minutes` of a duration: division cuts towards zero.
  unfoldable pub in_units : ℕ → ℤ → F
  in_units unit (pos n) = add (number (n / unit)) (div (number (n % unit)) (number unit))
  in_units unit (negsuc n) =
      add (of_int (negated (suc n / unit))) (div (of_int (negated (suc n % unit))) (number unit))

-- `point.Filtered`, to count with.
abbrev pub is_filtered : {F : Type 0} → TrackPoint F → Bool
is_filtered p = p.filtered
