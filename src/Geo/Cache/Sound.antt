-- ===== src/Geo/Cache/Sound.antt =====
-- The invariant of `LRUCache` (internal/geo/cache.go): the map and the list have the same keys, each
-- once, and no more than the capacity. Then the steps that its methods are made of.
use flybeeper_com_map_fanet.Prelude.{
  ◌+◌, ◌≤◌, ◌≡◌, refl, true, none, some, [], ◌∷◌, String, eq_iff, arith, ltb, length, Dict, lookup,
  insert, delete, lookup-insert, lookup-delete, IsUnique, insert-IsUnique, delete-IsUnique,
  length-delete, length-insert, found, Option-cases, Bool-cases, inl, inr,
}
use flybeeper_com_map_fanet.Geo.Cache.Defs.{
  Entry, LruCache, Keys, remove_element, back, remove_oldest, evict,
}

module _ {ℓ} {V : Type ℓ} where
  -- The map and the list have the same keys.
  abbrev Agrees : Keys → Dict (Entry V) → Type 0
  Agrees items list = (key : String) → found (lookup key items) ≡ found (lookup key list)

  pub record IsIndexed (c : LruCache V) : Type ℓ where
    pub items_unique : IsUnique c.items
    pub list_unique : IsUnique c.evict_list
    pub agree : Agrees c.items c.evict_list
    pub same_length : length c.items ≡ length c.evict_list

  pub record IsSound (c : LruCache V) : Type ℓ where
    pub indexed : IsIndexed c
    pub within : length c.evict_list ≤ c.capacity

  pub remove_element-IsIndexed :
      (key : String) (c : LruCache V) → IsIndexed c → IsIndexed (remove_element key c)
  unfolding remove_element
  remove_element-IsIndexed key c h = record {
    items_unique = delete-IsUnique key c.items h.items_unique;
    list_unique = delete-IsUnique key c.evict_list h.list_unique;
    agree = λ k.
        ground (arith, h.agree k, lookup-delete key k c.items, lookup-delete key k c.evict_list);
    same_length = ground (
      arith,
      h.agree key,
      h.same_length,
      length-delete key c.items h.items_unique,
      length-delete key c.evict_list h.list_unique,
    );
  }

  -- The entry of a key that is there moves to the front.
  pub to_front-IsIndexed :
      (key : String) (e : Entry V) (c : LruCache V)
      → found (lookup key c.evict_list) ≡ true
      → IsIndexed c
      → IsIndexed (record c { evict_list = (key, e) ∷ delete key c.evict_list })
  to_front-IsIndexed key e c there h = record {
    items_unique = h.items_unique;
    list_unique = (
      ground (arith, eq_iff key key, lookup-delete key key c.evict_list),
      delete-IsUnique key c.evict_list h.list_unique,
    );
    agree = λ k.
        unfold lookup in ground (arith, eq_iff key k, h.agree k, lookup-delete key k c.evict_list);
    same_length = ground (arith, h.same_length, length-delete key c.evict_list h.list_unique);
  }

  pub new_front-IsIndexed :
      (key : String) (e : Entry V) (c : LruCache V)
      → lookup key c.items ≡ none
      → IsIndexed c
      → IsIndexed (record c { evict_list = (key, e) ∷ c.evict_list; items = insert key tt c.items })
  new_front-IsIndexed key e c absent h = record {
    items_unique = insert-IsUnique key tt c.items h.items_unique;
    list_unique = (ground (arith, h.agree key), h.list_unique);
    agree = λ k.
        unfold lookup in ground (arith, eq_iff key k, h.agree k, lookup-insert key k tt c.items);
    same_length = ground (arith, h.same_length, length-insert key tt c.items);
  }

  pub back-found :
      (list : Dict (Entry V)) {entry : String × Entry V}
      → back list ≡ some entry
      → found (lookup entry.0 list) ≡ true
  unfolding back lookup
  back-found [] e = absurd cc
  back-found (x ∷ []) e = ground (arith, eq_iff x.0 x.0)
  back-found (x ∷ y ∷ list) {entry} e = ground (arith, eq_iff x.0 entry.0, back-found (y ∷ list) e)

  pub back-none : (list : Dict (Entry V)) → back list ≡ none → list ≡ []
  unfolding back
  back-none [] e = refl
  back-none (x ∷ []) e = absurd cc
  back-none (x ∷ y ∷ list) e = absurd (cc (back-none (y ∷ list) e))

  -- The removal of the back.
  pub remove_back-length :
      (c : LruCache V) {entry : String × Entry V}
      → IsIndexed c
      → back c.evict_list ≡ some entry
      → length (remove_element entry.0 c).evict_list + 1 ≡ length c.evict_list
  unfolding remove_element
  remove_back-length c {entry} h e =
      ground (arith, back-found c.evict_list e, length-delete entry.0 c.evict_list h.list_unique)

  pub evict-IsSound :
      (c : LruCache V) → IsIndexed c → length c.evict_list ≤ c.capacity + 1 → IsSound (evict c)
  unfolding evict remove_oldest
  evict-IsSound c h le = elim (Bool-cases (ltb c.capacity (length c.evict_list))) [
    | inr small ↦ rw small (record { indexed = h; within = ground arith })
    | inl over ↦ rw over (elim (Option-cases (back c.evict_list)) [
      | inl e ↦
          rw (e, remove_oldest)
            (record { indexed = h; within = ground (arith, back-none c.evict_list e) })
      | inr (entry, e) ↦
          rw (e, remove_oldest)
            (record {
              indexed = remove_element-IsIndexed entry.0 c h;
              within = unfold remove_element in omega (arith, remove_back-length c h e);
            })
    ])
  ]
