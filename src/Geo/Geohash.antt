-- ===== src/Geo/Geohash.antt =====
-- internal/geo/geohash.go but for `Neighbors` and `Cover`: the cells of a geohash, which is a list of bytes. A cell
-- is the rectangle of its two ranges.
use flybeeper_com_map_fanet.Prelude.{
  ℕ, zero, suc, ◌+◌, ◌/◌, ◌%◌, ◌^◌, Bool, true, false, ◌&&◌, ◌||◌, not, Option, none, some, List,
  [], ◌∷◌, get_elem?, ltb, ◌==◌, if◌then◌else◌, Float,
}
use flybeeper_com_map_fanet.Geo.QuadTree.Bounds.{Bounds, world, center_lat, center_lon}

-- "0123456789bcdefghjkmnpqrstuvwxyz"
abbrev pub base32 : List ℕ
base32 =
    48 ∷ 49 ∷ 50 ∷ 51 ∷ 52 ∷ 53 ∷ 54 ∷ 55 ∷ 56 ∷ 57 ∷ 98 ∷ 99 ∷ 100 ∷ 101 ∷ 102 ∷ 103 ∷ 104 ∷ 106
    ∷ 107 ∷ 109 ∷ 110 ∷ 112 ∷ 113 ∷ 114 ∷ 115 ∷ 116 ∷ 117 ∷ 118 ∷ 119 ∷ 120 ∷ 121 ∷ 122 ∷ []

-- `base32[idx]`, for an index below 32.
unfoldable pub digit : ℕ → ℕ
digit idx = elim (get_elem? base32 idx) [ none ↦ 0 | some c ↦ c ]

-- `strings.IndexByte`
unfoldable pub index_byte : List ℕ → ℕ → Option ℕ
index_byte [] c = none
index_byte (b ∷ bs) c =
    if b == c then some 0 else elim (index_byte bs c) [ none ↦ none | some i ↦ some (suc i) ]

abbrev pub precision_or_default : ℕ → ℕ
precision_or_default precision = if precision == 0 || ltb 12 precision then 5 else precision

module _ {F : Type 0} ⦃fl : Float F⦄ where
  open fl use {of_int, div, le}

  -- One bit: the half of the longitudes or of the latitudes that a cell becomes.
  unfoldable pub halve : Bool → Bool → Bounds F → Bounds F
  halve true true cell = record cell { min_lon = center_lon cell }
  halve true false cell = record cell { max_lon = center_lon cell }
  halve false true cell = record cell { min_lat = center_lat cell }
  halve false false cell = record cell { max_lat = center_lat cell }

  -- `lon >= mid` and `lat >= mid`
  abbrev pub bit_of : F → F → Bool → Bounds F → Bool
  bit_of lat lon even cell = if even then le (center_lon cell) lon else le (center_lat cell) lat

  -- The bits of one digit from one on, with the number that is left of them: `idx |= 1 << (4 - bit)`
  -- sets a bit that was not set.
  unfoldable pub encode_bits : F → F → ℕ → Bool → Bounds F → ℕ → ℕ × Bool × Bounds F
  encode_bits lat lon zero even cell idx = (idx, even, cell)
  encode_bits lat lon (suc k) even cell idx =
      let b = bit_of lat lon even cell in
      encode_bits lat lon k (not even) (halve even b cell) (if b then idx + 2 ^ k else idx)

  unfoldable pub encode_from : F → F → ℕ → Bool → Bounds F → List ℕ
  encode_from lat lon zero even cell = []
  encode_from lat lon (suc n) even cell =
      let (idx, even', cell') = encode_bits lat lon 5 even cell 0 in
      digit idx ∷ encode_from lat lon n even' cell'

  -- `Encode`
  unfoldable pub encode : F → F → ℕ → List ℕ
  encode lat lon precision = encode_from lat lon (precision_or_default precision) true world

  -- `for i := 4; i >= 0; i--`
  unfoldable pub decode_bits : ℕ → ℕ → Bool → Bounds F → Bool × Bounds F
  decode_bits idx zero even cell = (even, cell)
  decode_bits idx (suc k) even cell =
      decode_bits idx k (not even) (halve even (idx / 2 ^ k % 2 == 1) cell)

  -- The loop over the digits; other characters are passed over.
  unfoldable pub decode_from : List ℕ → Bool → Bounds F → Bounds F
  decode_from [] even cell = cell
  decode_from (c ∷ cs) even cell = elim (index_byte base32 c) [
    | none ↦ decode_from cs even cell
    | some idx ↦ let (even', cell') = decode_bits idx 5 even cell in decode_from cs even' cell'
  ]

  -- `BoundingBox`
  unfoldable pub bounding_box : List ℕ → Bounds F
  bounding_box geohash = decode_from geohash true world

  -- `Decode`: the latitude and longitude of the middle.
  unfoldable pub decode : List ℕ → F × F
  decode geohash = let cell = bounding_box geohash in (center_lat cell, center_lon cell)

  -- `Contains`
  unfoldable pub geohash_contains : List ℕ → F → F → Bool
  geohash_contains geohash lat lon =
      let cell = bounding_box geohash in
      le cell.min_lat lat && le lat cell.max_lat && le cell.min_lon lon && le lon cell.max_lon

-- `CommonPrefix`
unfoldable pub common_prefix : List ℕ → List ℕ → List ℕ
common_prefix [] ys = []
common_prefix (x ∷ xs) [] = []
common_prefix (x ∷ xs) (y ∷ ys) = if x == y then x ∷ common_prefix xs ys else []
