-- ===== src/Geo/Cover.antt =====
-- `Neighbors`, `Cover` and the precisions of internal/geo/geohash.go and internal/geo/spatial.go. The
-- loops that step through floating-point numbers have fuel, and are none when it runs out: no number of
-- steps is enough for every step and range.
use flybeeper_com_map_fanet.Prelude.{
  ℕ, zero, suc, Option, none, some, List, [], ◌∷◌, ◌++◌, pos, leb, ◌==◌, length, if◌then◌else◌,
  Float,
}
use flybeeper_com_map_fanet.Models.Points.{distance_km}
use flybeeper_com_map_fanet.Geo.Geohash.{encode, decode}

module _ {F : Type 0} ⦃fl : Float F⦄ where
  open fl use {of_int, decimal, add, sub, mul, div, le, pi, cos}

  -- `GeohashPrecisionKm`; a missing key reads as zero.
  unfoldable pub geohash_precision_km : ℕ → F
  geohash_precision_km precision =
      if precision == 1
      then of_int (pos 5000)
      else if precision == 2
      then of_int (pos 1250)
      else if precision == 3
      then of_int (pos 156)
      else if precision == 4
      then decimal 391 1
      else if precision == 5
      then decimal 49 1
      else if precision == 6
      then decimal 12 1
      else if precision == 7
      then decimal 152 3
      else if precision == 8
      then decimal 38 3
      else if precision == 9
      then decimal 48 4
      else of_int (pos 0)

  -- The search from one precision on, over as many as are left; the table ends at 9.
  unfoldable pub first_precision : ℕ → ℕ → F → ℕ
  first_precision zero precision target = 5
  first_precision (suc left) precision target =
      let rest = first_precision left (suc precision) target in
      if leb precision 9
      then (if le (geohash_precision_km precision) target then precision else rest)
      else rest

  unfoldable pub optimal_precision : F → ℕ
  unfolding first_precision
  optimal_precision radius_km = first_precision 12 1 (div radius_km (of_int (pos 4)))

  unfoldable pub optimal_geohash_precision : F → ℕ
  unfolding first_precision
  optimal_geohash_precision radius_km = first_precision 9 1 (div radius_km (of_int (pos 4)))

-- The values of the map of `Neighbors`, from north on clockwise.
unfoldable pub neighbors : (F : Type 0) ⦃fl : Float F⦄ → List ℕ → List (List ℕ)
unfolding geohash_precision_km
neighbors F ⦃fl⦄ geohash =
    let center : F × F = decode geohash in
    let (lat, lon) = center in
    let precision = length geohash in
    let cell_size : F =
      fl.div
        (fl.mul (fl.div (geohash_precision_km precision) (fl.of_int (pos 6371)))
          (fl.of_int (pos 180)))
        fl.pi in
    let north = fl.add lat cell_size in
    let south = fl.sub lat cell_size in
    let east = fl.add lon cell_size in
    let west = fl.sub lon cell_size in
    encode north lon precision
    ∷ encode north east precision
    ∷ encode lat east precision
    ∷ encode south east precision
    ∷ encode south lon precision
    ∷ encode south west precision
    ∷ encode lat west precision
    ∷ encode north west precision
    ∷ []

module _ {F : Type 0} ⦃fl : Float F⦄ where
  open fl use {of_int, add, sub, mul, div, le, pi, cos}

  -- The values of `x` in `for x := low; x <= high; x += step`.
  unfoldable pub stepped : ℕ → F → F → F → Option (List F)
  stepped zero low high step = none
  stepped (suc fuel) low high step =
      let rest = stepped fuel (add low step) high step in
      if le low high then elim rest [ none ↦ none | some xs ↦ some (low ∷ xs) ] else some []

  -- The neighbours whose middle is within the radius.
  unfoldable pub near_neighbors : F → F → F → List (List ℕ) → List (List ℕ)
  near_neighbors center_lat center_lon radius_km [] = []
  near_neighbors center_lat center_lon radius_km (n ∷ ns) =
      let (lat, lon) : F × F = decode n in
      let rest = near_neighbors center_lat center_lon radius_km ns in
      if le (distance_km center_lat center_lon lat lon) radius_km then n ∷ rest else rest

  -- The cells that one point of the grid adds.
  unfoldable pub cover_point : F → F → F → ℕ → F → F → List (List ℕ)
  unfolding neighbors near_neighbors
  cover_point center_lat center_lon radius_km precision lat lon =
      if le (distance_km center_lat center_lon lat lon) radius_km
      then (let gh = encode lat lon precision in
          gh ∷ near_neighbors center_lat center_lon radius_km (neighbors F gh))
      else []

  unfoldable pub cover_row : F → F → F → ℕ → F → List F → List (List ℕ)
  unfolding cover_point
  cover_row center_lat center_lon radius_km precision lat [] = []
  cover_row center_lat center_lon radius_km precision lat (lon ∷ lons) =
      cover_point center_lat center_lon radius_km precision lat lon
      ++ cover_row center_lat center_lon radius_km precision lat lons

  unfoldable pub cover_rows : F → F → F → ℕ → List F → List F → List (List ℕ)
  unfolding cover_row
  cover_rows center_lat center_lon radius_km precision [] lons = []
  cover_rows center_lat center_lon radius_km precision (lat ∷ lats) lons =
      cover_row center_lat center_lon radius_km precision lat lons
      ++ cover_rows center_lat center_lon radius_km precision lats lons

  -- `Cover`, as the keys written to its map, with repetitions; a precision of zero is chosen by the
  -- radius.
  unfoldable pub cover : ℕ → F → F → F → ℕ → Option (List (List ℕ))
  unfolding stepped cover_rows
  cover fuel center_lat center_lon radius_km precision =
      let precision = if precision == 0 then optimal_precision radius_km else precision in
      let radius_deg = div radius_km (of_int (pos 111)) in
      let wide = div radius_deg (cos (div (mul center_lat pi) (of_int (pos 180)))) in
      let cell_size = div (geohash_precision_km precision) (of_int (pos 111)) in
      elim (stepped fuel (sub center_lat radius_deg) (add center_lat radius_deg) cell_size) [
        | none ↦ none
        | some lats ↦ elim (stepped fuel (sub center_lon wide) (add center_lon wide) cell_size) [
          | none ↦ none
          | some lons ↦ some (cover_rows center_lat center_lon radius_km precision lats lons)
        ]
      ]
