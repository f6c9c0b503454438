-- ===== src/Geo/Cache/Answers.antt =====
-- What `Get` of `LRUCache` (internal/geo/cache.go) answers, and where the loop of `Clean` ends.
use flybeeper_com_map_fanet.Prelude.{
  ◌<◌, ap, str_eq, IsUnique, ℕ, zero, suc, ◌+◌, ◌≤◌, ◌≡◌, refl, Option, none, some, [], ◌∷◌, String,
  eq_iff, arith, ltb, length, if◌then◌else◌, Dict, lookup, insert, delete, lookup-delete,
  Option-cases, Bool-cases, ◌⊎◌, inl, inr,
}
use flybeeper_com_map_fanet.Geo.Cache.Defs.{
  Keys, Entry, LruCache, expired, remove_element, back, remove_oldest, get, put_front, evict, set,
  clean_loop, clean,
}
use flybeeper_com_map_fanet.Geo.Cache.Calls.{put_front-there, put_front-absent, set-IsSound}
use flybeeper_com_map_fanet.Geo.Cache.Sound.{
  IsIndexed, IsSound, remove_element-IsIndexed, back-found, remove_back-length,
}

module _ {ℓ} {V : Type ℓ} where
  -- The value that `Get` answers.
  abbrev pub answer : Option (LruCache V × Option V) → Option (Option V)
  answer none = none
  answer (some r) = some r.1

  -- The value of an entry that is not older than the time to live.
  abbrev pub live_value : ℕ → ℕ → Option (Entry V) → Option V
  live_value ttl now none = none
  live_value ttl now (some e) = if ltb (e.timestamp + ttl) now then none else some e.value

  -- On a sound cache `Get` succeeds, and it answers the value of the list's entry of the key, if there
  -- is one and the clock is not past the time at which it was set and the time to live; otherwise it
  -- answers no value.
  pub get-live_value :
      (key : String) (now : ℕ) (c : LruCache V)
      → IsSound c
      → answer (get key now c) ≡ some (live_value c.ttl now (lookup key c.evict_list))
  unfolding get
  get-live_value key now c h = elim (Option-cases (lookup key c.evict_list)) [
    | inl absent ↦ elim (Option-cases (lookup key c.items)) [
      | inl e ↦ rw (absent, e, get) refl
      | inr (u, e) ↦ absurd (ground (arith, h.indexed.agree key))
    ]
    | inr (entry, listed) ↦ elim (Option-cases (lookup key c.items)) [
      | inl e ↦ absurd (ground (arith, h.indexed.agree key))
      | inr (u, e) ↦
          rw (e, get)
            (rw listed (elim (Bool-cases (expired c.ttl now entry)) [
              | inl old ↦ rw old refl
              | inr live ↦ rw live refl
            ]))
    ]
  ]

  -- The entry at the front stays when the back is removed from a longer list.
  remove_back-front :
      (key : String) (e : Entry V) (list : Dict (Entry V)) {last : String × Entry V}
      → lookup key list ≡ none
      → back ((key, e) ∷ list) ≡ some last
      → 2 ≤ length ((key, e) ∷ list)
      → lookup key (delete last.0 ((key, e) ∷ list)) ≡ some e
  unfolding back lookup
  remove_back-front key e [] absent b two = absurd (omega arith)
  remove_back-front key e (x ∷ list) {last} absent b two = ground (
    arith,
    eq_iff last.0 key,
    eq_iff key key,
    back-found (x ∷ list) b,
    lookup-delete last.0 key ((key, e) ∷ x ∷ list),
  )

  -- An eviction of a cache with room for one entry leaves the entry at the front.
  evict-front :
      (key : String) (e : Entry V) (list : Dict (Entry V)) (m : Keys) (c : LruCache V)
      → lookup key list ≡ none
      → 1 ≤ c.capacity
      → lookup key (evict (record c { evict_list = (key, e) ∷ list; items = m })).evict_list
        ≡ some e
  unfolding evict remove_oldest remove_element lookup
  evict-front key e list m c absent room =
      let full : Dict (Entry V) = (key, e) ∷ list in
      elim (Bool-cases (ltb c.capacity (length full))) [
        | inr small ↦ rw small (ground (arith, eq_iff key key))
        | inl over ↦ rw over (elim (Option-cases (back full)) [
          | inl b ↦ rw (b, remove_oldest) (ground (arith, eq_iff key key))
          | inr (last, b) ↦
              rw (b, remove_oldest) (remove_back-front key e list absent b (ground arith))
        ])
      ]

  no_back : (list : Dict (Entry V)) → length list ≤ 0 → back list ≡ none
  unfolding back
  no_back [] h = refl
  no_back (x ∷ list) h = absurd (omega arith)

  -- The entry at the back is the list's entry of its key.
  lookup-back :
      (list : Dict (Entry V)) {entry : String × Entry V}
      → IsUnique list
      → back list ≡ some entry
      → lookup entry.0 list ≡ some entry.1
  unfolding back lookup
  lookup-back [] h e = absurd cc
  lookup-back (x ∷ []) h e = ground (arith, eq_iff x.0 x.0)
  lookup-back (x ∷ y ∷ list) {entry} h e =
      ground (arith, eq_iff x.0 entry.0, lookup-back (y ∷ list) h.1 e)

  -- An entry stays when the last one is removed, or it is that one.
  removed-cases :
      (entry : String × Entry V) (key : String) (v : Entry V) (c : LruCache V)
      → IsIndexed c
      → back c.evict_list ≡ some entry
      → lookup key c.evict_list ≡ some v
      → (lookup key (remove_element entry.0 c).evict_list ≡ some v) ⊎ (entry.1 ≡ v)
  unfolding remove_element
  removed-cases entry key v c h e there = elim (Bool-cases (str_eq entry.0 key)) [
    | inl same ↦ inr (ground (arith, eq_iff entry.0 key, lookup-back c.evict_list h.list_unique e))
    | inr other ↦ inl (ground (arith, lookup-delete entry.0 key c.evict_list, eq_iff entry.0 key))
  ]

  -- The loop of `Clean` accounts for every entry, takes only old ones, and ends at one that is not.
  abbrev Ends : ℕ → LruCache V → LruCache V × ℕ → Type ℓ
  Ends now c (c', removed) =
      (length c'.evict_list + removed ≡ length c.evict_list)
      × ((key : String) (e : Entry V)
          → lookup key c.evict_list ≡ some e
          → (lookup key c'.evict_list ≡ some e) ⊎ (e.timestamp + c.ttl < now))
      × ((back c'.evict_list ≡ none)
          ⊎ ((entry : String × Entry V) × (back c'.evict_list ≡ some entry)
              × (now ≤ entry.1.timestamp + c.ttl)))

  clean_loop-Ends :
      (fuel now : ℕ) (c : LruCache V)
      → IsIndexed c
      → length c.evict_list ≤ fuel
      → Ends now c (clean_loop fuel now c)
  unfolding clean_loop remove_element
  clean_loop-Ends zero now c h enough =
      (omega arith, λ key e there. inl there, inl (no_back c.evict_list enough))
  clean_loop-Ends (suc fuel) now c h enough = elim (Option-cases (back c.evict_list)) [
    | inl e ↦ rw (e, clean_loop) (omega arith, λ key v there. inl there, inl e)
    | inr (entry, e) ↦
        let c1 = remove_element entry.0 c in
        let shorter = remove_back-length c h e in
        let (total, taken, ends) =
          clean_loop-Ends fuel now c1 (remove_element-IsIndexed entry.0 c h) (omega arith) in
        rw (e, clean_loop)
          (elim (Bool-cases (expired c.ttl now entry.1)) [
            | inl old ↦ rw old (
              omega arith,
              λ key v there. elim (removed-cases entry key v c h e there) [
                | inl left ↦ taken key v left
                | inr same ↦ inr (ground (arith, ap (λ (x : Entry V). x.timestamp) same))
              ],
              ends,
            )
            | inr live ↦
                rw live (omega arith, λ key v there. inl there, inr (entry, e, ground arith))
          ])
  ]

  lookup-set :
      (key : String) (v : V) (size time : ℕ) (c : LruCache V)
      → IsSound c
      → 1 ≤ c.capacity
      → lookup key (set key v size time c).evict_list
        ≡ some (record { value = v; timestamp = time; size = size })
  unfolding set
  lookup-set key v size time c h room =
      let e : Entry V = record { value = v; timestamp = time; size = size } in
      elim (Option-cases (lookup key c.items)) [
        | inr (u, there) ↦
            rw (there, set)
              (rw (put_front-there key e c there) (unfold lookup in ground (arith, eq_iff key key)))
        | inl absent ↦
            rw (absent, set)
              (rw (put_front-absent key e c absent) (
                evict-front key e c.evict_list (insert key tt c.items) c
                  (ground (arith, h.indexed.agree key)) room))
      ]

  set-ttl :
      (key : String) (v : V) (size time : ℕ) (c : LruCache V) → (set key v size time c).ttl ≡ c.ttl
  unfolding set put_front evict remove_oldest remove_element
  set-ttl key v size time c = ground arith

  -- After `Set` of a key, on a sound cache with room for one entry, `Get` of the key answers the value
  -- that was set, until the time to live is over: an eviction never takes the new entry.
  pub get-set :
      (key : String) (v : V) (size time now : ℕ) (c : LruCache V)
      → IsSound c
      → 1 ≤ c.capacity
      → now ≤ time + c.ttl
      → answer (get key now (set key v size time c)) ≡ some (some v)
  get-set key v size time now c h room fresh =
      rw (get-live_value key now (set key v size time c) (set-IsSound key v size time c h))
        (rw (lookup-set key v size time c h room) (ground (arith, set-ttl key v size time c)))

  -- `Clean` of a sound cache counts every entry that it removes; an entry that it removed was older
  -- than the time to live; and it ends at an empty list or at a last entry that is not: the fuel of
  -- its loop, the length of the list, is enough.
  pub clean-ends :
      (now : ℕ) (c : LruCache V)
      → IsSound c
      → let (c', removed) = clean now c in
        (length c'.evict_list + removed ≡ length c.evict_list)
        × ((key : String) (e : Entry V)
            → lookup key c.evict_list ≡ some e
            → (lookup key c'.evict_list ≡ some e) ⊎ (e.timestamp + c.ttl < now))
        × ((back c'.evict_list ≡ none)
            ⊎ ((entry : String × Entry V) × (back c'.evict_list ≡ some entry)
                × (now ≤ entry.1.timestamp + c.ttl)))
  unfolding clean
  clean-ends now c h = clean_loop-Ends (length c.evict_list) now c h.indexed (omega arith)
