-- ===== src/Samples/Hashes.antt =====
-- A point of the world and its geohash.
use flybeeper_com_map_fanet.Prelude.{◌≡◌, refl, true, length, pos}
use flybeeper_com_map_fanet.Samples.Numbers.{whole, whole-IsOrdered}
use flybeeper_com_map_fanet.Geo.QuadTree.Bounds.{contains, world}
use flybeeper_com_map_fanet.Geo.Geohash.{encode, geohash_contains}
use flybeeper_com_map_fanet.Geo.Cells.{encode-contains}

in_world : contains world (pos 46) (pos 8) ≡ true
unfolding contains
in_world = refl

encode-contains_example :
    (length (encode (pos 46) (pos 8) 5) ≡ 5)
    × (geohash_contains (encode (pos 46) (pos 8) 5) (pos 46) (pos 8) ≡ true)
encode-contains_example = encode-contains whole-IsOrdered (pos 46) (pos 8) 5 in_world
