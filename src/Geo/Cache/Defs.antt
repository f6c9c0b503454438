-- ===== src/Geo/Cache/Defs.antt =====
-- `LRUCache` of internal/geo/cache.go. An element of the list is known by the key of its entry, which
-- is never changed: `evict_list` pairs each entry with its key, the most recent first, and `items` is
-- the map from keys to elements, of which only the keys matter. The lock makes each method one step.
-- Times are nanoseconds, read from the clock once in each method; `ttl` is not negative.
use flybeeper_com_map_fanet.Prelude.{
  ℕ, zero, suc, ◌+◌, Bool, Option, none, some, [], ◌∷◌, String, ltb, length, if◌then◌else◌, Dict,
  lookup, insert, delete,
}

-- The keys of a map.
abbrev pub Keys : Type 0
Keys = Dict (Unit {0})

-- `CacheEntry`, of a value of any type.
pub record Entry {ℓ} (V : Type ℓ) : Type ℓ where
  pub value : V
  pub timestamp : ℕ
  pub size : ℕ

pub record LruCache {ℓ} (V : Type ℓ) : Type ℓ where
  pub capacity : ℕ
  pub ttl : ℕ
  pub items : Keys
  pub evict_list : Dict (Entry V)
  pub hits : ℕ
  pub misses : ℕ

module _ {ℓ} {V : Type ℓ} where
  -- `NewLRUCache`
  abbrev pub new_lru_cache : ℕ → ℕ → LruCache V
  new_lru_cache capacity ttl = record {
    capacity = capacity;
    ttl = ttl;
    items = [];
    evict_list = [];
    hits = 0;
    misses = 0;
  }

  -- `time.Since(entry.Timestamp) > c.ttl`
  abbrev pub expired : ℕ → ℕ → Entry V → Bool
  expired ttl now e = ltb (e.timestamp + ttl) now

  -- `removeElement`, of the element with a key.
  unfoldable pub remove_element : String → LruCache V → LruCache V
  remove_element key c = record c {
    items = delete key c.items;
    evict_list = delete key c.evict_list;
  }

  -- `evictList.Back()`
  unfoldable pub back : Dict (Entry V) → Option (String × Entry V)
  back [] = none
  back (x ∷ []) = some x
  back (x ∷ y ∷ list) = back (y ∷ list)

  unfoldable pub remove_oldest : LruCache V → LruCache V
  unfolding remove_element
  remove_oldest c = elim (back c.evict_list) [ none ↦ c | some entry ↦ remove_element entry.0 c ]

  -- The cache and the value of `Get`; `none` outside would be an element of the map that is not in
  -- the list.
  unfoldable pub get : String → ℕ → LruCache V → Option (LruCache V × Option V)
  get key now c = elim (lookup key c.items) [
    | none ↦ some (record c { misses = c.misses + 1 }, none)
    | some u ↦ elim (lookup key c.evict_list) [
      | none ↦ none
      | some e ↦ some (
          if expired c.ttl now e
          then (let c' = remove_element key c in (record c' { misses = c'.misses + 1 }, none))
          else (
            record c { evict_list = (key, e) ∷ delete key c.evict_list; hits = c.hits + 1 },
            some e.value,
          ))
    ]
  ]

  -- The first part of `Set`: the entry moves to the front, or is new there.
  unfoldable pub put_front : String → Entry V → LruCache V → LruCache V
  put_front key e c = elim (lookup key c.items) [
    | some u ↦ record c { evict_list = (key, e) ∷ delete key c.evict_list }
    | none ↦ record c { evict_list = (key, e) ∷ c.evict_list; items = insert key tt c.items }
  ]

  -- The eviction at the end of `Set`.
  unfoldable pub evict : LruCache V → LruCache V
  unfolding remove_oldest
  evict c = if ltb c.capacity (length c.evict_list) then remove_oldest c else c

  unfoldable pub set : String → V → ℕ → ℕ → LruCache V → LruCache V
  set key v size now c =
      let e : Entry V = record { value = v; timestamp = now; size = size } in
      elim (lookup key c.items) [ some u ↦ put_front key e c | none ↦ evict (put_front key e c) ]

  -- `Delete`
  unfoldable pub delete_key : String → LruCache V → LruCache V
  unfolding remove_element
  delete_key key c = elim (lookup key c.items) [ none ↦ c | some u ↦ remove_element key c ]

  unfoldable pub clear : LruCache V → LruCache V
  clear c = record c { items = []; evict_list = [] }

  abbrev pub size_of : LruCache V → ℕ
  size_of c = length c.items

  -- The loop of `Clean`, from the back of the list to the first entry that has not expired. The element
  -- before a removed one is the new back. The fuel bounds the number of removals.
  unfoldable pub clean_loop : ℕ → ℕ → LruCache V → LruCache V × ℕ
  clean_loop zero now c = (c, 0)
  clean_loop (suc fuel) now c = elim (back c.evict_list) [
    | none ↦ (c, 0)
    | some entry ↦
        let (c', removed) = clean_loop fuel now (remove_element entry.0 c) in
        if expired c.ttl now entry.1 then (c', removed + 1) else (c, 0)
  ]

  unfoldable pub clean : ℕ → LruCache V → LruCache V × ℕ
  clean now c = clean_loop (length c.evict_list) now c
