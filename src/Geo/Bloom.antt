-- ===== src/Geo/Bloom.antt =====
-- `BloomFilter` of internal/geo/spatial.go. The slice of words is the list of their bits: position `pos`
-- is the bit `pos % 64` of the word `pos / 64`. A text is the list of its runes. The size `m` and the
-- number `k` of hash functions that the formula of `NewBloomFilter` gives are arguments.
use native.Mathlib.Nat.{mod-lt}
use flybeeper_com_map_fanet.Prelude.{
  Bool-cases, inl, inr, ◌++◌, Bool-cases, ℕ, zero, suc, ◌+◌, ◌*◌, ◌/◌, ◌%◌, ◌^◌, ◌≤◌, ◌<◌, ◌≡◌,
  refl, ap, ◌∙◌, Bool, true, false, ◌&&◌, ◌||◌, List, [], ◌∷◌, arith, ltb, ◌==◌, ==_iff, length,
  foldl, if◌then◌else◌,
}

pub record BloomFilter : Type 0 where
  pub bits : List Bool
  pub size : ℕ
  pub hashes : ℕ

abbrev zeros : ℕ → List Bool
zeros zero = []
zeros (suc n) = false ∷ zeros n

unfoldable pub new_bloom_filter : ℕ → ℕ → BloomFilter
new_bloom_filter m k =
    let size = if ltb m 64 then 64 else m in
    record {
      bits = zeros ((size + 63) / 64 * 64);
      size = size;
      hashes = if ltb k 1 then 1 else if ltb 10 k then 10 else k;
    }

-- The hash function with a seed, of 64 bits.
unfoldable pub hash : ℕ → ℕ → List ℕ → ℕ
hash size seed item = foldl (λ h c. (h * 31 + c) % 2 ^ 64) seed item % size

-- `bf.bits[idx] |= 1 << bit`
unfoldable pub set_bit : ℕ → List Bool → List Bool
set_bit n [] = []
set_bit zero (b ∷ bs) = true ∷ bs
set_bit (suc n) (b ∷ bs) = b ∷ set_bit n bs

-- `bf.bits[idx]&(1<<bit) == 0`, negated; a read out of range is false here.
unfoldable pub get_bit : ℕ → List Bool → Bool
get_bit n [] = false
get_bit zero (b ∷ bs) = b
get_bit (suc n) (b ∷ bs) = get_bit n bs

-- The loop over the hash functions with the seeds below a number.
unfoldable pub set_hashes : ℕ → ℕ → List ℕ → List Bool → List Bool
unfolding hash set_bit
set_hashes zero size item bits = bits
set_hashes (suc seed) size item bits =
    set_bit (hash size seed item) (set_hashes seed size item bits)

unfoldable pub get_hashes : ℕ → ℕ → List ℕ → List Bool → Bool
unfolding hash get_bit
get_hashes zero size item bits = true
get_hashes (suc seed) size item bits =
    get_hashes seed size item bits && get_bit (hash size seed item) bits

-- `Add`
unfoldable pub add_item : List ℕ → BloomFilter → BloomFilter
unfolding set_hashes
add_item item bf = record bf { bits = set_hashes bf.hashes bf.size item bf.bits }

-- `Contains`
unfoldable pub may_contain : List ℕ → BloomFilter → Bool
unfolding get_hashes
may_contain item bf = get_hashes bf.hashes bf.size item bf.bits

-- The positions of all hashes are within the bits.
pub record IsSized (bf : BloomFilter) : Type 0 where
  pub positive : 1 ≤ bf.size
  pub fits : bf.size ≤ length bf.bits

get_bit-set_bit :
    (n k : ℕ) (bits : List Bool)
    → get_bit k (set_bit n bits) ≡ ((n == k && ltb n (length bits)) || get_bit k bits)
unfolding get_bit set_bit
get_bit-set_bit n k [] = ground arith
get_bit-set_bit zero zero (b ∷ bits) = ground arith
get_bit-set_bit zero (suc k) (b ∷ bits) = ground arith
get_bit-set_bit (suc n) zero (b ∷ bits) = ground arith
get_bit-set_bit (suc n) (suc k) (b ∷ bits) = ground (arith, get_bit-set_bit n k bits)

length-set_bit : (n : ℕ) (bits : List Bool) → length (set_bit n bits) ≡ length bits
unfolding set_bit
length-set_bit n [] = refl
length-set_bit zero (b ∷ bits) = refl
length-set_bit (suc n) (b ∷ bits) = omega (arith, length-set_bit n bits)

length-set_hashes :
    (k size : ℕ) (item : List ℕ) (bits : List Bool)
    → length (set_hashes k size item bits) ≡ length bits
unfolding set_hashes
length-set_hashes zero size item bits = refl
length-set_hashes (suc k) size item bits =
    length-set_bit (hash size k item) (set_hashes k size item bits)
    ∙ length-set_hashes k size item bits

-- A position is one of the item's.
abbrev pub is_hash : ℕ → ℕ → List ℕ → ℕ → Bool
is_hash zero size item n = false
is_hash (suc k) size item n = is_hash k size item n || hash size k item == n

hash-lt : (size seed : ℕ) (item : List ℕ) → 1 ≤ size → hash size seed item < size
unfolding hash
hash-lt size seed item h = mod-lt (foldl (λ h c. (h * 31 + c) % 2 ^ 64) seed item) h

get_bit-set_hashes :
    (k size n : ℕ) (item : List ℕ) (bits : List Bool)
    → 1 ≤ size
    → size ≤ length bits
    → get_bit n (set_hashes k size item bits) ≡ (is_hash k size item n || get_bit n bits)
unfolding set_hashes
get_bit-set_hashes zero size n item bits h fits = refl
get_bit-set_hashes (suc k) size n item bits h fits = ground (
  arith,
  get_bit-set_hashes k size n item bits h fits,
  get_bit-set_bit (hash size k item) n (set_hashes k size item bits),
  hash-lt size k item h,
  length-set_hashes k size item bits,
)

-- The items, added one after the other.
unfoldable pub add_all : List (List ℕ) → BloomFilter → BloomFilter
unfolding add_item
add_all [] bf = bf
add_all (x ∷ xs) bf = add_all xs (add_item x bf)

-- A position is one of some item's.
abbrev pub any_hash : ℕ → ℕ → List (List ℕ) → ℕ → Bool
any_hash k size [] n = false
any_hash k size (x ∷ xs) n = is_hash k size x n || any_hash k size xs n

-- Every position of the item satisfies a test.
abbrev pub covered : ℕ → ℕ → List ℕ → (ℕ → Bool) → Bool
covered zero size item p = true
covered (suc k) size item p = covered k size item p && p (hash size k item)

bits_of-add_all :
    (xs : List (List ℕ)) (bf : BloomFilter) (n : ℕ)
    → IsSized bf
    → get_bit n (add_all xs bf).bits ≡ (any_hash bf.hashes bf.size xs n || get_bit n bf.bits)
unfolding add_all add_item
bits_of-add_all [] bf n h = refl
bits_of-add_all (x ∷ xs) bf n h =
    let sized : IsSized (add_item x bf) = record {
      positive = h.positive;
      fits = omega (arith, h.fits, length-set_hashes bf.hashes bf.size x bf.bits);
    } in
    ground (
      arith,
      bits_of-add_all xs (add_item x bf) n sized,
      get_bit-set_hashes bf.hashes bf.size n x bf.bits h.positive h.fits,
    )

same_shape :
    (xs : List (List ℕ)) (bf : BloomFilter)
    → ((add_all xs bf).hashes ≡ bf.hashes) × ((add_all xs bf).size ≡ bf.size)
unfolding add_all add_item
same_shape [] bf = (refl, refl)
same_shape (x ∷ xs) bf = same_shape xs (add_item x bf)

get_hashes-covered :
    (k size : ℕ) (item : List ℕ) (bits : List Bool) (p : ℕ → Bool)
    → ((n : ℕ) → get_bit n bits ≡ p n)
    → get_hashes k size item bits ≡ covered k size item p
unfolding get_hashes
get_hashes-covered zero size item bits p h = refl
get_hashes-covered (suc k) size item bits p h =
    ground (arith, get_hashes-covered k size item bits p h, h (hash size k item))

length-zeros : (n : ℕ) → length (zeros n) ≡ n
length-zeros zero = refl
length-zeros (suc n) = omega (arith, length-zeros n)

get_bit-zeros : (n k : ℕ) → get_bit k (zeros n) ≡ false
unfolding get_bit
get_bit-zeros zero k = refl
get_bit-zeros (suc n) zero = refl
get_bit-zeros (suc n) (suc k) = get_bit-zeros n k

new_bloom_filter-IsSized : (m k : ℕ) → IsSized (new_bloom_filter m k)
unfolding new_bloom_filter
new_bloom_filter-IsSized m k = record {
  positive = ground arith;
  fits = ground (arith, length-zeros ((m + 63) / 64 * 64));
}

no_bits : (m k n : ℕ) → get_bit n (new_bloom_filter m k).bits ≡ false
unfolding new_bloom_filter
no_bits m k n = get_bit-zeros _ n

is_hash-own :
    (k size : ℕ) (item : List ℕ) (seed : ℕ)
    → seed < k
    → is_hash k size item (hash size seed item) ≡ true
is_hash-own zero size item seed h = absurd (omega arith)
is_hash-own (suc k) size item seed h = elim (Bool-cases (seed == k)) [
  | inl e ↦ ground (arith, ap (λ i. hash size i item) ((==_iff seed k).0 e))
  | inr e ↦ ground (arith, is_hash-own k size item seed (ground arith))
]

covered-all :
    (k size : ℕ) (item : List ℕ) (p : ℕ → Bool)
    → ((seed : ℕ) → seed < k → p (hash size seed item) ≡ true)
    → covered k size item p ≡ true
covered-all zero size item p h = refl
covered-all (suc k) size item p h =
    ground (arith, covered-all k size item p (λ seed lt. h seed (omega arith)), h k (omega arith))

any_hash-own :
    (before after : List (List ℕ)) (k size : ℕ) (item : List ℕ) (n : ℕ)
    → is_hash k size item n ≡ true
    → any_hash k size (before ++ item ∷ after) n ≡ true
any_hash-own [] after k size item n h = ground arith
any_hash-own (x ∷ before) after k size item n h =
    ground (arith, any_hash-own before after k size item n h)

-- The bits of the filter are the positions of the items.
may_contain-covered :
    (m k : ℕ) (items : List (List ℕ)) (asked : List ℕ)
    → let new = new_bloom_filter m k in
      may_contain asked (add_all items new)
      ≡ covered new.hashes new.size asked (any_hash new.hashes new.size items)
unfolding may_contain
may_contain-covered m k items asked =
    let new = new_bloom_filter m k in
    let (same_hashes, same_size) = same_shape items new in
    rw (same_hashes, same_size)
      (get_hashes-covered new.hashes new.size asked (add_all items new).bits
        (any_hash new.hashes new.size items)
        (λ n.
          ground
            (arith, bits_of-add_all items new n (new_bloom_filter-IsSized m k), no_bits m k n)))

-- For whatever size and number of hash functions: after items were added to a new filter, it holds an
-- item for possibly there exactly when each of the item's positions is a position of some added item;
-- so it never denies an item that was added, whatever was added before and after it.
pub may_contain-add_all :
    (m k : ℕ) (before after : List (List ℕ)) (added asked : List ℕ)
    → let new = new_bloom_filter m k in
      let items = before ++ added ∷ after in
      (may_contain asked (add_all items new)
        ≡ covered new.hashes new.size asked (any_hash new.hashes new.size items))
      × (may_contain added (add_all items new) ≡ true)
may_contain-add_all m k before after added asked =
    let new = new_bloom_filter m k in
    let items = before ++ added ∷ after in
    (
      may_contain-covered m k items asked,
      may_contain-covered m k items added
          ∙ covered-all new.hashes new.size added (any_hash new.hashes new.size items) (λ seed lt.
            any_hash-own before after new.hashes new.size added (hash new.size seed added)
              (is_hash-own new.hashes new.size added seed lt)),
    )
