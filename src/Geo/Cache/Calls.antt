-- ===== src/Geo/Cache/Calls.antt =====
-- Sequences of calls of `LRUCache` (internal/geo/cache.go), and its invariant over them.
use flybeeper_com_map_fanet.Prelude.{
  ℕ, zero, suc, ◌+◌, ◌≡◌, refl, true, Option, none, some, List, [], ◌∷◌, String, arith, if_both,
  lookup, insert, found, delete, length-delete, Option-cases, Bool-cases, inl, inr,
}
use flybeeper_com_map_fanet.Geo.Cache.Defs.{
  Entry, LruCache, expired, remove_element, back, get, put_front, set, delete_key, clear,
  clean_loop, clean,
}
use flybeeper_com_map_fanet.Geo.Cache.Sound.{
  IsSound, remove_element-IsIndexed, to_front-IsIndexed, new_front-IsIndexed, evict-IsSound,
}

-- A call, with the clock's reading.
pub data Call {ℓ} (V : Type ℓ) : Type ℓ where
  get_call : String → ℕ → Call V
  set_call : String → V → ℕ → ℕ → Call V
  delete_call : String → Call V
  clear_call : Call V
  clean_call : ℕ → Call V

module _ {ℓ} {V : Type ℓ} where
  abbrev pub cache_of : Option (LruCache V × Option V) → Option (LruCache V)
  cache_of none = none
  cache_of (some r) = some r.0

  unfoldable pub apply : Call V → LruCache V → Option (LruCache V)
  apply (get_call key now) c = cache_of (get key now c)
  apply (set_call key v size now) c = some (set key v size now c)
  apply (delete_call key) c = some (delete_key key c)
  apply clear_call c = some (clear c)
  apply (clean_call now) c = some (clean now c).0

  unfoldable pub apply_all : List (Call V) → LruCache V → Option (LruCache V)
  apply_all [] c = some c
  apply_all (call ∷ calls) c = elim (apply call c) [ none ↦ none | some c' ↦ apply_all calls c' ]

  abbrev Succeeds : Option (LruCache V) → Type ℓ
  Succeeds r = (c : LruCache V) × (r ≡ some c) × IsSound c

  pub remove_element-IsSound :
      (key : String) (c : LruCache V) → IsSound c → IsSound (remove_element key c)
  unfolding remove_element
  remove_element-IsSound key c h = record {
    indexed = remove_element-IsIndexed key c h.indexed;
    within = ground (arith, h.within, length-delete key c.evict_list h.indexed.list_unique);
  }

  -- The counters are free.
  pub recount-IsSound :
      (hits misses : ℕ) (c : LruCache V)
      → IsSound c
      → IsSound (record c { hits = hits; misses = misses })
  recount-IsSound hits misses c h = record {
    indexed = record {
      items_unique = h.indexed.items_unique;
      list_unique = h.indexed.list_unique;
      agree = h.indexed.agree;
      same_length = h.indexed.same_length;
    };
    within = h.within;
  }

  -- The map keeps its length, and so does the list.
  pub to_front-IsSound :
      (key : String) (e : Entry V) (c : LruCache V)
      → found (lookup key c.evict_list) ≡ true
      → IsSound c
      → IsSound (record c { evict_list = (key, e) ∷ delete key c.evict_list })
  to_front-IsSound key e c there h =
      let indexed = to_front-IsIndexed key e c there h.indexed in
      record {
        indexed = indexed;
        within = omega (arith, indexed.same_length, h.indexed.same_length, h.within);
      }

  get-IsSound :
      (key : String) (now : ℕ) (c : LruCache V) → IsSound c → Succeeds (cache_of (get key now c))
  unfolding get
  get-IsSound key now c h = elim (Option-cases (lookup key c.items)) [
    | inl absent ↦ rw (absent, get) (_, refl, recount-IsSound c.hits (c.misses + 1) c h)
    | inr (u, there) ↦ elim (Option-cases (lookup key c.evict_list)) [
      | inl lost ↦ absurd (ground (arith, h.indexed.agree key))
      | inr (e, listed) ↦
          rw (there, listed, get)
            (elim (Bool-cases (expired c.ttl now e)) [
              | inl old ↦ rw old (_, refl, recount-IsSound _ _ _ (remove_element-IsSound key c h))
              | inr live ↦
                  rw live
                    (_, refl, recount-IsSound _ _ _ (to_front-IsSound key e c (ground arith) h))
            ])
    ]
  ]

  pub put_front-there :
      (key : String) (e : Entry V) (c : LruCache V) {u : Unit {0}}
      → lookup key c.items ≡ some u
      → put_front key e c ≡ record c { evict_list = (key, e) ∷ delete key c.evict_list }
  unfolding put_front
  put_front-there key e c there = rw (there, put_front) refl

  pub put_front-absent :
      (key : String) (e : Entry V) (c : LruCache V)
      → lookup key c.items ≡ none
      → put_front key e c
        ≡ record c { evict_list = (key, e) ∷ c.evict_list; items = insert key tt c.items }
  unfolding put_front
  put_front-absent key e c absent = rw (absent, put_front) refl

  pub set-IsSound :
      (key : String) (v : V) (size now : ℕ) (c : LruCache V)
      → IsSound c
      → IsSound (set key v size now c)
  unfolding set
  set-IsSound key v size now c h =
      let e : Entry V = record { value = v; timestamp = now; size = size } in
      elim (Option-cases (lookup key c.items)) [
        | inr (u, there) ↦
            rw (there, set)
              (rw (put_front-there key e c there)
                (to_front-IsSound key e c (ground (arith, h.indexed.agree key)) h))
        | inl absent ↦
            let indexed = new_front-IsIndexed key e c absent h.indexed in
            rw (absent, set)
              (rw (put_front-absent key e c absent)
                (evict-IsSound _ indexed (omega (arith, h.within))))
      ]

  pub clean_loop-IsSound :
      (fuel now : ℕ) (c : LruCache V) → IsSound c → IsSound (clean_loop fuel now c).0
  unfolding clean_loop
  clean_loop-IsSound zero now c h = h
  clean_loop-IsSound (suc fuel) now c h = elim (Option-cases (back c.evict_list)) [
    | inl e ↦ rw (e, clean_loop) h
    | inr (entry, e) ↦
        rw (e, clean_loop)
          (if_both (λ (r : LruCache V × ℕ). IsSound r.0) (expired c.ttl now entry.1)
            (clean_loop-IsSound fuel now (remove_element entry.0 c)
              (remove_element-IsSound entry.0 c h))
            h)
  ]

  apply-Succeeds : (call : Call V) (c : LruCache V) → IsSound c → Succeeds (apply call c)
  unfolding apply delete_key clear clean lookup
  apply-Succeeds (get_call key now) c h = get-IsSound key now c h
  apply-Succeeds (set_call key v size now) c h = (_, refl, set-IsSound key v size now c h)
  apply-Succeeds (delete_call key) c h = (
    _,
    refl,
    elim (Option-cases (lookup key c.items)) [
      | inl absent ↦ rw (absent, delete_key) h
      | inr (u, there) ↦ rw (there, delete_key) (remove_element-IsSound key c h)
    ],
  )
  apply-Succeeds clear_call c h = (
    _,
    refl,
    record {
      indexed = record {
        items_unique = tt;
        list_unique = tt;
        agree = λ k. refl;
        same_length = refl;
      };
      within = omega arith;
    },
  )
  apply-Succeeds (clean_call now) c h = (_, refl, clean_loop-IsSound _ now c h)

  -- From a sound cache, such as a new one, any sequence of `Get`, `Set`, `Delete`, `Clear` and `Clean`
  -- at any times succeeds: no call meets an element of the map that is not in the list. After it the
  -- map and the list have the same keys, each once, and at most `capacity` of them.
  pub apply_all-IsSound :
      (calls : List (Call V)) (c : LruCache V)
      → IsSound c
      → (c' : LruCache V) × (apply_all calls c ≡ some c') × IsSound c'
  unfolding apply_all
  apply_all-IsSound [] c h = (c, refl, h)
  apply_all-IsSound (call ∷ calls) c h =
      let (c', e, h') = apply-Succeeds call c h in rw (e, apply_all) (apply_all-IsSound calls c' h')
