-- ===== src/Geo/Cache/Contents.antt =====
-- Properties of the values in `LRUCache` (internal/geo/cache.go), by their keys: what `Get`, `Set` and
-- `Clear` do to them.
use flybeeper_com_map_fanet.Prelude.{
  ℕ, ◌+◌, ◌≡◌, refl, Option, none, some, ◌∷◌, String, str_eq, eq_iff, subst, arith, ltb, length,
  Dict, lookup, delete, lookup-delete, Option-cases, Bool-cases, inl, inr,
}
use flybeeper_com_map_fanet.Geo.Cache.Defs.{
  Entry, LruCache, new_lru_cache, expired, remove_element, back, remove_oldest, get, evict, set,
  clear,
}
use flybeeper_com_map_fanet.Geo.Cache.Sound.{IsSound}
use flybeeper_com_map_fanet.Geo.Cache.Calls.{
  recount-IsSound, to_front-IsSound, remove_element-IsSound, set-IsSound, put_front-there,
  put_front-absent,
}

module _ {V : Type 0} (P : String → V → Type 0) where
  -- Every entry of the list has the property.
  abbrev pub AllHold : Dict (Entry V) → Type 0
  AllHold list = (k : String) (e : Entry V) → lookup k list ≡ some e → P k e.value

  AllHold-delete : (key : String) (list : Dict (Entry V)) → AllHold list → AllHold (delete key list)
  AllHold-delete key list h k e found_e = h k e (ground (arith, lookup-delete key k list))

  AllHold-front :
      (key : String) (e : Entry V) (list : Dict (Entry V))
      → P key e.value
      → AllHold list
      → AllHold ((key, e) ∷ list)
  unfolding lookup
  AllHold-front key e list p h k f found_e = elim (Bool-cases (str_eq key k)) [
    | inl same ↦
        let entry : e ≡ f = ground (arith, rw same at found_e) in
        subst (λ x. P x f.value) ((eq_iff key k).0 same) (subst (λ g. P key g.value) entry p)
    | inr other ↦ h k f (rw other at found_e)
  ]

  pub record IsFilled (c : LruCache V) : Type 0 where
    pub sound : IsSound c
    pub hold : AllHold c.evict_list

  recount-IsFilled :
      (hits misses : ℕ) (c : LruCache V)
      → IsFilled c
      → IsFilled (record c { hits = hits; misses = misses })
  recount-IsFilled hits misses c h = record {
    sound = recount-IsSound hits misses c h.sound;
    hold = h.hold;
  }

  remove_element-IsFilled :
      (key : String) (c : LruCache V) → IsFilled c → IsFilled (remove_element key c)
  unfolding remove_element
  remove_element-IsFilled key c h = record {
    sound = remove_element-IsSound key c h.sound;
    hold = AllHold-delete key c.evict_list h.hold;
  }

  pub clear-IsFilled : (c : LruCache V) → IsFilled (clear c)
  unfolding clear lookup
  clear-IsFilled c = record {
    sound = record {
      indexed = record {
        items_unique = tt;
        list_unique = tt;
        agree = λ k. refl;
        same_length = refl;
      };
      within = omega arith;
    };
    hold = λ k e found_e. absurd cc;
  }

  pub new_lru_cache-IsFilled : (capacity ttl : ℕ) → IsFilled (new_lru_cache capacity ttl)
  new_lru_cache-IsFilled capacity ttl = unfold clear in clear-IsFilled (new_lru_cache capacity ttl)

  -- `Get` succeeds, and what it answers has the property of the key.
  pub get-IsFilled :
      (key : String) (now : ℕ) (c : LruCache V)
      → IsFilled c
      → (c' : LruCache V) × (o : Option V) × (get key now c ≡ some (c', o))
        × IsFilled c'
        × ((v : V) → o ≡ some v → P key v)
  unfolding get
  get-IsFilled key now c h = elim (Option-cases (lookup key c.items)) [
    | inl absent ↦
        rw (absent, get)
          (_, none, refl, recount-IsFilled c.hits (c.misses + 1) c h, λ v e. absurd cc)
    | inr (u, there) ↦ elim (Option-cases (lookup key c.evict_list)) [
      | inl lost ↦ absurd (ground (arith, h.sound.indexed.agree key))
      | inr (e, listed) ↦
          rw (there, listed, get)
            (elim (Bool-cases (expired c.ttl now e)) [
              | inl old ↦ rw old (
                _,
                none,
                refl,
                recount-IsFilled _ _ _ (remove_element-IsFilled key c h),
                λ v e. absurd cc,
              )
              | inr live ↦ rw live (
                _,
                some e.value,
                refl,
                recount-IsFilled _ _ _ (record {
                  sound = to_front-IsSound key e c (ground arith) h.sound;
                  hold =
                      AllHold-front key e (delete key c.evict_list) (h.hold key e listed)
                        (AllHold-delete key c.evict_list h.hold);
                }),
                λ v same. subst (P key) (ground (arith, same)) (h.hold key e listed),
              )
            ])
    ]
  ]

  evict-hold : (c : LruCache V) → AllHold c.evict_list → AllHold (evict c).evict_list
  unfolding evict remove_oldest remove_element
  evict-hold c h = elim (Bool-cases (ltb c.capacity (length c.evict_list))) [
    | inr small ↦ rw small h
    | inl over ↦ rw over (elim (Option-cases (back c.evict_list)) [
      | inl e ↦ rw (e, remove_oldest) h
      | inr (entry, e) ↦ rw (e, remove_oldest) (AllHold-delete entry.0 c.evict_list h)
    ])
  ]

  pub set-IsFilled :
      (key : String) (v : V) (size now : ℕ) (c : LruCache V)
      → P key v
      → IsFilled c
      → IsFilled (set key v size now c)
  unfolding set
  set-IsFilled key v size now c p h =
      let e : Entry V = record { value = v; timestamp = now; size = size } in
      record {
        sound = set-IsSound key v size now c h.sound;
        hold = elim (Option-cases (lookup key c.items)) [
          | inr (u, there) ↦
              rw (set, there)
                (rw (put_front-there key e c there) (
                  AllHold-front key e (delete key c.evict_list) p
                    (AllHold-delete key c.evict_list h.hold)))
          | inl absent ↦
              rw (set, absent)
                (rw (put_front-absent key e c absent)
                  (evict-hold _ (AllHold-front key e c.evict_list p h.hold)))
        ];
      }
