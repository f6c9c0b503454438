-- ===== src/Samples/Tracks.antt =====
-- A track of four points, two of them close together.
use flybeeper_com_map_fanet.Samples.Numbers.{whole}
use flybeeper_com_map_fanet.Prelude.{ℕ, ◌+◌, ◌≡◌, refl, false, List, [], ◌∷◌, pos, ℤ, length}
use flybeeper_com_map_fanet.Filter.Points.{TrackPoint, FilterConfig, default_filter_config}
use flybeeper_com_map_fanet.Filter.Duplicates.{
  AreApart, IsWithin, filter_duplicates, drop_close, remove_time_based_duplicates,
  filter_duplicates-thins,
}
use flybeeper_com_map_fanet.Filter.Intervals.{AreSpaced, remove_time_based_duplicates-spaces}

abbrev pub point : ℕ → ℕ → TrackPoint ℤ
point lat time = record {
  position = record { latitude = pos lat; longitude = pos 0; altitude = pos 0 };
  timestamp = time;
  speed = pos 0;
  distance = pos 0;
  filtered = false;
  filter_reason = "";
  segment_id = 0;
}

abbrev track : List (TrackPoint ℤ)
track = point 0 0 ∷ point 0 2 ∷ point 80 20 ∷ point 0 40 ∷ []

abbrev limits : FilterConfig ℤ
limits = record default_filter_config { min_time_interval = 5 }

filter_duplicates-thins_example :
    let r = filter_duplicates limits track in
    (r.original_count ≡ length track)
    × (length r.points + r.statistics.duplicates ≡ length track)
    × (r.filtered_count ≡ r.statistics.duplicates)
    × IsWithin r.points track
    × AreApart limits r.points
filter_duplicates-thins_example = filter_duplicates-thins limits track

remove_time_based_duplicates-spaces_example :
    let r = remove_time_based_duplicates 5 track in IsWithin r track × AreSpaced 5 r
remove_time_based_duplicates-spaces_example = remove_time_based_duplicates-spaces 5 track

-- The second point is dropped, and the first one takes its time.
times : List (TrackPoint ℤ) → List ℕ
times [] = []
times (p ∷ ps) = p.timestamp ∷ times ps

times-test : times (remove_time_based_duplicates 5 track) ≡ 2 ∷ 20 ∷ 40 ∷ []
unfolding times remove_time_based_duplicates drop_close
times-test = refl
