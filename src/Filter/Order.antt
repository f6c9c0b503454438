-- ===== src/Filter/Order.antt =====
-- Subsequences of a track's points by position: what the filters of internal/filter leave.
use flybeeper_com_map_fanet.Prelude.{refl, ◌∙◌, List, [], ◌∷◌}
use flybeeper_com_map_fanet.Filter.Points.{TrackPoint}
use flybeeper_com_map_fanet.Filter.Duplicates.{IsWithin, done, keep, skip}

module _ {F : Type 0} where
  pub IsWithin-refl : (ps : List (TrackPoint F)) → IsWithin ps ps
  IsWithin-refl [] = done
  IsWithin-refl (p ∷ ps) = keep refl (IsWithin-refl ps)

  pub IsWithin-trans :
      {rs qs ps : List (TrackPoint F)} → IsWithin ps qs → IsWithin qs rs → IsWithin ps rs
  IsWithin-trans h done = h
  IsWithin-trans h (skip k) = skip (IsWithin-trans h k)
  IsWithin-trans (keep e h) (keep e2 k) = keep (e ∙ e2) (IsWithin-trans h k)
  IsWithin-trans (skip h) (keep e k) = skip (IsWithin-trans h k)
