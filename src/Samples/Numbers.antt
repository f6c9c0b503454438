-- ===== src/Samples/Numbers.antt =====
-- Whole numbers with floor division as the floating-point numbers: enough to run the definitions,
-- and an instance of the laws that the quadtree relies on.
use flybeeper_com_map_fanet.Prelude.{
  refl, ℕ, suc, ◌+◌, ◌*◌, ◌/◌, ◌^◌, ◌≡◌, Bool, true, false, ℤ, pos, negsuc, sub_ℕ, ltb, leb, arith,
  Float,
}
use flybeeper_com_map_fanet.Geo.QuadTree.Bounds.{IsOrdered, middle}

abbrev neg : ℤ → ℤ
neg (pos n) = sub_ℕ 0 n
neg (negsuc n) = pos (suc n)

abbrev add : ℤ → ℤ → ℤ
add (pos a) (pos b) = pos (a + b)
add (pos a) (negsuc b) = sub_ℕ a (suc b)
add (negsuc a) (pos b) = sub_ℕ b (suc a)
add (negsuc a) (negsuc b) = negsuc (a + b + 1)

abbrev times : ℤ → ℤ → ℤ
times (pos a) (pos b) = pos (a * b)
times (pos a) (negsuc b) = sub_ℕ 0 (a * suc b)
times (negsuc a) (pos b) = sub_ℕ 0 (suc a * b)
times (negsuc a) (negsuc b) = pos (suc a * suc b)

abbrev over : ℤ → ℕ → ℤ
over (pos a) n = pos (a / n)
over (negsuc a) n = negsuc (a / n)

abbrev div : ℤ → ℤ → ℤ
div x (pos n) = over x n
div x (negsuc n) = over (neg x) (suc n)

abbrev le : ℤ → ℤ → Bool
le (pos a) (pos b) = leb a b
le (pos a) (negsuc b) = false
le (negsuc a) (pos b) = true
le (negsuc a) (negsuc b) = leb b a

abbrev lt : ℤ → ℤ → Bool
lt (pos a) (pos b) = ltb a b
lt (pos a) (negsuc b) = false
lt (negsuc a) (pos b) = true
lt (negsuc a) (negsuc b) = ltb b a

-- An angle is its own sine, and a quarter of the plane has one angle.
instance abbrev pub whole : Float ℤ
whole = record {
  of_int = λ z. z;
  decimal = λ m k. pos (m / 10 ^ k);
  add = add;
  sub = λ x y. add x (neg y);
  mul = times;
  div = div;
  le = le;
  lt = lt;
  pi = pos 3;
  sin = λ x. x;
  cos = λ x. pos 1;
  sqrt = λ x. x;
  atan2 = λ x y. x;
}

le_refl : (x : ℤ) → le x x ≡ true
le_refl (pos a) = ground arith
le_refl (negsuc a) = ground arith

le_chain : (x y z : ℤ) → le x y ≡ true → le y z ≡ true → le x z ≡ true
le_chain (pos a) (pos b) (pos c) h k = ground arith
le_chain (pos a) (pos b) (negsuc c) h k = ground arith
le_chain (pos a) (negsuc b) z h k = ground arith
le_chain (negsuc a) (pos b) (pos c) h k = ground arith
le_chain (negsuc a) (pos b) (negsuc c) h k = ground arith
le_chain (negsuc a) (negsuc b) (pos c) h k = ground arith
le_chain (negsuc a) (negsuc b) (negsuc c) h k = ground arith

le_total : (x y : ℤ) → le x y ≡ false → le y x ≡ true
le_total (pos a) (pos b) h = ground arith
le_total (pos a) (negsuc b) h = ground arith
le_total (negsuc a) (pos b) h = ground arith
le_total (negsuc a) (negsuc b) h = ground arith

lt_not_le : (x y : ℤ) → lt x y ≡ true → le y x ≡ false
lt_not_le (pos a) (pos b) h = ground arith
lt_not_le (pos a) (negsuc b) h = ground arith
lt_not_le (negsuc a) (pos b) h = ground arith
lt_not_le (negsuc a) (negsuc b) h = ground arith

middle-between : (x y : ℤ) → le x y ≡ true → (le x (middle x y) ≡ true) × (le (middle x y) y ≡ true)
unfolding middle
middle-between (pos a) (pos b) h = ground arith
middle-between (pos a) (negsuc b) h = ground arith
middle-between (negsuc a) (pos b) h = ground arith
middle-between (negsuc a) (negsuc b) h = ground arith

pub whole-IsOrdered : IsOrdered ℤ
whole-IsOrdered = record {
  refl_of_le = λ x y h. (le_refl x, le_refl y);
  le_trans = le_chain;
  le_of_not_le = λ x y hx hy h. le_total x y h;
  not_le_of_lt = lt_not_le;
  world_lat = refl;
  world_lon = refl;
  lat_in_lon_low = refl;
  lat_in_lon_high = refl;
  middle_between = λ x y l h u. middle-between x y h;
}
