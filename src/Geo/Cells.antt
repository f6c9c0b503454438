-- ===== src/Geo/Cells.antt =====
-- The cells that internal/geo/geohash.go encodes and decodes.
use flybeeper_com_map_fanet.Prelude.{
  ◌/◌, ◌%◌, ℕ, zero, suc, ◌+◌, ◌≡◌, refl, sym, ap, subst, ◌∙◌, Bool, true, false, ◌&&◌, not, none,
  some, List, ◌∷◌, length, ◌==◌, arith, if◌then◌else◌, Bool-cases, inl, inr, pos, negsuc, Float,
}
use flybeeper_com_map_fanet.Geo.QuadTree.Bounds.{
  Bounds, IsOrdered, world, center_lat, center_lon, middle, contains,
}
use flybeeper_com_map_fanet.Geo.Geohash.{
  base32, digit, index_byte, precision_or_default, halve, bit_of, encode_bits, encode_from, encode,
  decode_bits, decode_from, bounding_box, geohash_contains,
}

-- The number of five bits.
abbrev number_of : Bool → Bool → Bool → Bool → Bool → ℕ
number_of b4 b3 b2 b1 b0 =
    let n4 = if b4 then 0 + 16 else 0 in
    let n3 = if b3 then n4 + 8 else n4 in
    let n2 = if b2 then n3 + 4 else n3 in
    let n1 = if b1 then n2 + 2 else n2 in if b0 then n1 + 1 else n1

index_byte-digit :
    (b4 b3 b2 b1 b0 : Bool)
    → index_byte base32 (digit (number_of b4 b3 b2 b1 b0)) ≡ some (number_of b4 b3 b2 b1 b0)
unfolding index_byte digit
index_byte-digit b4 b3 b2 b1 b0 = ground arith

bits_of :
    (b4 b3 b2 b1 b0 : Bool)
    → let n = number_of b4 b3 b2 b1 b0 in
      ((n / 16 % 2 == 1) ≡ b4)
      × ((n / 8 % 2 == 1) ≡ b3)
      × ((n / 4 % 2 == 1) ≡ b2)
      × ((n / 2 % 2 == 1) ≡ b1)
      × ((n / 1 % 2 == 1) ≡ b0)
bits_of b4 b3 b2 b1 b0 = ground arith

module _ {F : Type 0} ⦃fl : Float F⦄ where
  -- Five halvings.
  abbrev five : Bool → Bool → Bool → Bool → Bool → Bool → Bounds F → Bool × Bounds F
  five even b4 b3 b2 b1 b0 cell =
      let c4 = halve even b4 cell in
      let c3 = halve (not even) b3 c4 in
      let c2 = halve (not (not even)) b2 c3 in
      let c1 = halve (not (not (not even))) b1 c2 in
      (not (not (not (not (not even)))), halve (not (not (not (not even)))) b0 c1)

  decode_bits-five :
      (even b4 b3 b2 b1 b0 : Bool) (cell : Bounds F)
      → decode_bits (number_of b4 b3 b2 b1 b0) 5 even cell ≡ five even b4 b3 b2 b1 b0 cell
  unfolding decode_bits
  decode_bits-five even b4 b3 b2 b1 b0 cell =
      let (e4, e3, e2, e1, e0) = bits_of b4 b3 b2 b1 b0 in rw (e4, e3, e2, e1, e0) refl

  encode_bits-decode :
      (lat lon : F) (even : Bool) (cell : Bounds F)
      → let (idx, even', cell') = encode_bits lat lon 5 even cell 0 in
        (index_byte base32 (digit idx) ≡ some idx) × (decode_bits idx 5 even cell ≡ (even', cell'))
  unfolding encode_bits
  encode_bits-decode lat lon even cell =
      let b4 = bit_of lat lon even cell in
      let c4 = halve even b4 cell in
      let b3 = bit_of lat lon (not even) c4 in
      let c3 = halve (not even) b3 c4 in
      let b2 = bit_of lat lon (not (not even)) c3 in
      let c2 = halve (not (not even)) b2 c3 in
      let b1 = bit_of lat lon (not (not (not even))) c2 in
      let c1 = halve (not (not (not even))) b1 c2 in
      let b0 = bit_of lat lon (not (not (not (not even)))) c1 in
      (index_byte-digit b4 b3 b2 b1 b0, decode_bits-five even b4 b3 b2 b1 b0 cell)

  -- The cell that `n` digits of a point lead to.
  abbrev cell_after : F → F → ℕ → Bool → Bounds F → Bounds F
  cell_after lat lon zero even cell = cell
  cell_after lat lon (suc n) even cell =
      let (idx, even', cell') = encode_bits lat lon 5 even cell 0 in
      cell_after lat lon n even' cell'

  decode_from-digit :
      (c idx : ℕ) (cs : List ℕ) (even : Bool) (cell : Bounds F)
      → index_byte base32 c ≡ some idx
      → let (even', cell') = decode_bits idx 5 even cell in
        decode_from (c ∷ cs) even cell ≡ decode_from cs even' cell'
  unfolding decode_from
  decode_from-digit c idx cs even cell e =
      ap
        (λ o. elim o [
          | none ↦ decode_from cs even cell
          | some i ↦ let (even', cell') = decode_bits i 5 even cell in decode_from cs even' cell'
        ])
        e

  decode_from-encode_from :
      (lat lon : F) (n : ℕ) (even : Bool) (cell : Bounds F)
      → decode_from (encode_from lat lon n even cell) even cell ≡ cell_after lat lon n even cell
  unfolding encode_from
  decode_from-encode_from lat lon zero even cell = unfold decode_from in refl
  decode_from-encode_from lat lon (suc n) even cell =
      let (idx, even', cell') = encode_bits lat lon 5 even cell 0 in
      let (found, same) = encode_bits-decode lat lon even cell in
      decode_from-digit (digit idx) idx (encode_from lat lon n even' cell') even cell found
      ∙ ap (λ r. decode_from (encode_from lat lon n even' cell') r.0 r.1) same
      ∙ decode_from-encode_from lat lon n even' cell'

  length-encode_from :
      (lat lon : F) (n : ℕ) (even : Bool) (cell : Bounds F)
      → length (encode_from lat lon n even cell) ≡ n
  unfolding encode_from
  length-encode_from lat lon zero even cell = refl
  length-encode_from lat lon (suc n) even cell =
      let (idx, even', cell') = encode_bits lat lon 5 even cell 0 in
      omega (arith, length-encode_from lat lon n even' cell')

  -- A coordinate in a range of a cell.
  abbrev IsSpan : F → F → F → Type 0
  IsSpan low high x =
      (fl.le (fl.of_int (negsuc 179)) low ≡ true)
      × (fl.le low x ≡ true)
      × (fl.le x high ≡ true)
      × (fl.le high (fl.of_int (pos 180)) ≡ true)

  abbrev IsIn : Bounds F → F → F → Type 0
  IsIn cell lat lon = IsSpan cell.min_lat cell.max_lat lat × IsSpan cell.min_lon cell.max_lon lon

  IsSpan-upper :
      (o : IsOrdered F) (low high x : F)
      → IsSpan low high x
      → fl.le (middle low high) x ≡ true
      → IsSpan (middle low high) high x
  IsSpan-upper o low high x (a, b, c, d) h =
      let (lo, hi) = o.middle_between low high a (o.le_trans low x high b c) d in
      (o.le_trans (fl.of_int (negsuc 179)) low (middle low high) a lo, h, c, d)

  IsSpan-lower :
      (o : IsOrdered F) (low high x : F)
      → IsSpan low high x
      → fl.le (middle low high) x ≡ false
      → IsSpan low (middle low high) x
  IsSpan-lower o low high x (a, b, c, d) h =
      let (lo, hi) = o.middle_between low high a (o.le_trans low x high b c) d in
      let mid = (o.refl_of_le low (middle low high) lo).1 in
      let itself = (o.refl_of_le low x b).1 in
      (
        a,
        b,
        o.le_of_not_le (middle low high) x mid itself h,
        o.le_trans (middle low high) high (fl.of_int (pos 180)) hi d,
      )

  halve-IsIn :
      (o : IsOrdered F) (lat lon : F) (even : Bool) (cell : Bounds F)
      → IsIn cell lat lon
      → IsIn (halve even (bit_of lat lon even cell) cell) lat lon
  unfolding halve
  halve-IsIn o lat lon true cell (inLat, inLon) = elim (Bool-cases (fl.le (center_lon cell) lon)) [
    | inl e ↦ rw e (inLat, IsSpan-upper o cell.min_lon cell.max_lon lon inLon e)
    | inr e ↦ rw e (inLat, IsSpan-lower o cell.min_lon cell.max_lon lon inLon e)
  ]
  halve-IsIn o lat lon false cell (inLat, inLon) = elim (Bool-cases (fl.le (center_lat cell) lat)) [
    | inl e ↦ rw e (IsSpan-upper o cell.min_lat cell.max_lat lat inLat e, inLon)
    | inr e ↦ rw e (IsSpan-lower o cell.min_lat cell.max_lat lat inLat e, inLon)
  ]

  encode_bits-IsIn :
      (o : IsOrdered F) (lat lon : F) (k : ℕ) (even : Bool) (cell : Bounds F) (idx : ℕ)
      → IsIn cell lat lon
      → let (idx', even', cell') = encode_bits lat lon k even cell idx in IsIn cell' lat lon
  unfolding encode_bits
  encode_bits-IsIn o lat lon zero even cell idx h = h
  encode_bits-IsIn o lat lon (suc k) even cell idx h =
      encode_bits-IsIn o lat lon k (not even) (halve even (bit_of lat lon even cell) cell) _
        (halve-IsIn o lat lon even cell h)

  cell_after-IsIn :
      (o : IsOrdered F) (lat lon : F) (n : ℕ) (even : Bool) (cell : Bounds F)
      → IsIn cell lat lon
      → IsIn (cell_after lat lon n even cell) lat lon
  cell_after-IsIn o lat lon zero even cell h = h
  cell_after-IsIn o lat lon (suc n) even cell h =
      let (idx, even', cell') = encode_bits lat lon 5 even cell 0 in
      cell_after-IsIn o lat lon n even' cell' (encode_bits-IsIn o lat lon 5 even cell 0 h)

  IsIn-contains : (cell : Bounds F) (lat lon : F) → IsIn cell lat lon → contains cell lat lon ≡ true
  unfolding contains
  IsIn-contains cell lat lon ((a, b, c, d), (e, f, g, h)) = ground arith

  low_itself : (o : IsOrdered F) → fl.le (fl.of_int (negsuc 179)) (fl.of_int (negsuc 179)) ≡ true
  low_itself o = (o.refl_of_le (fl.of_int (negsuc 179)) (fl.of_int (negsuc 89)) o.lat_in_lon_low).0

  high_itself : (o : IsOrdered F) → fl.le (fl.of_int (pos 180)) (fl.of_int (pos 180)) ≡ true
  high_itself o = (o.refl_of_le (fl.of_int (pos 90)) (fl.of_int (pos 180)) o.lat_in_lon_high).1

  world-IsIn :
      (o : IsOrdered F) (lat lon : F) → contains (world {F = F}) lat lon ≡ true → IsIn world lat lon
  unfolding contains
  world-IsIn o lat lon h =
      ground (arith, o.lat_in_lon_low, o.lat_in_lon_high, low_itself o, high_itself o)

  contains_from :
      (geohash : List ℕ) (cell : Bounds F) (lat lon : F)
      → decode_from geohash true world ≡ cell
      → contains cell lat lon ≡ true
      → geohash_contains geohash lat lon ≡ true
  unfolding geohash_contains bounding_box contains
  contains_from geohash cell lat lon e h =
      subst
        (λ (c : Bounds F).
          (fl.le c.min_lat lat && fl.le lat c.max_lat && fl.le c.min_lon lon && fl.le lon c.max_lon)
          ≡ true)
        (sym e) h

  -- For every point of the world, where `<=` is an order and middles lie between: `Encode` gives as many
  -- digits as it is asked for, or 5 if that is not from 1 to 12, and the geohash contains its point.
  pub encode-contains :
      (o : IsOrdered F) (lat lon : F) (precision : ℕ)
      → contains (world {F = F}) lat lon ≡ true
      → (length (encode lat lon precision) ≡ precision_or_default precision)
        × (geohash_contains (encode lat lon precision) lat lon ≡ true)
  unfolding encode
  encode-contains o lat lon precision h =
      let n = precision_or_default precision in
      (
        length-encode_from lat lon n true world,
        contains_from (encode_from lat lon n true world) (cell_after lat lon n true world) lat lon
            (decode_from-encode_from lat lon n true world)
            (IsIn-contains (cell_after lat lon n true world) lat lon
              (cell_after-IsIn o lat lon n true world (world-IsIn o lat lon h))),
      )
