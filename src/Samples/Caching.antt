-- ===== src/Samples/Caching.antt =====
-- A cache of two entries with a time to live of ten, and the calls that fill it.
use flybeeper_com_map_fanet.Prelude.{
  ◌<◌, ◌≤◌, ℕ, ◌+◌, ◌≡◌, refl, none, some, List, [], ◌∷◌, String, arith, length, eq_iff, lookup,
  insert, delete, ◌⊎◌,
}
use flybeeper_com_map_fanet.Geo.Cache.Defs.{
  Entry, LruCache, new_lru_cache, remove_element, back, remove_oldest, get, put_front, evict, set,
  clean_loop, clean,
}
use flybeeper_com_map_fanet.Geo.Cache.Sound.{IsSound}
use flybeeper_com_map_fanet.Geo.Cache.Calls.{
  Call, get_call, set_call, clean_call, apply, apply_all, apply_all-IsSound,
}
use flybeeper_com_map_fanet.Geo.Cache.Answers.{
  answer, live_value, get-live_value, get-set, clean-ends,
}

abbrev fresh : LruCache ℕ
fresh = new_lru_cache 2 10

fresh-IsSound : IsSound fresh
unfolding lookup
fresh-IsSound = record {
  indexed = record { items_unique = tt; list_unique = tt; agree = λ k. refl; same_length = refl };
  within = omega arith;
}

abbrev calls : List (Call ℕ)
calls =
    set_call "a" 1 0 0
    ∷ set_call "b" 2 0 5
    ∷ get_call "a" 6
    ∷ set_call "c" 3 0 7
    ∷ clean_call 11
    ∷ []

apply_all-IsSound_example : (c : LruCache ℕ) × (apply_all calls fresh ≡ some c) × IsSound c
apply_all-IsSound_example = apply_all-IsSound calls fresh fresh-IsSound

-- The cache with the entries c and a, which the call of `Get` moved before b.
abbrev filled : LruCache ℕ
filled = record {
  capacity = 2;
  ttl = 10;
  items = ("a", tt) ∷ ("c", tt) ∷ [];
  evict_list =
      ("c", record { value = 3; timestamp = 7; size = 0 })
      ∷ ("a", record { value = 1; timestamp = 0; size = 0 })
      ∷ [];
  hits = 1;
  misses = 0;
}

filled-test :
    apply_all
      (set_call "a" 1 0 0 ∷ set_call "b" 2 0 5 ∷ get_call "a" 6 ∷ set_call "c" 3 0 7 ∷ [])
      fresh
    ≡ some filled
unfolding apply apply_all get set put_front evict remove_oldest remove_element back lookup insert
    delete
filled-test = refl

filled-IsSound : IsSound filled
unfolding lookup
filled-IsSound = record {
  indexed = record {
    items_unique = (refl, (refl, tt));
    list_unique = (refl, (refl, tt));
    agree = λ k. ground (arith, eq_iff "a" k, eq_iff "c" k);
    same_length = refl;
  };
  within = omega arith;
}

get-live_value_example :
    answer (get "a" 9 filled) ≡ some (live_value filled.ttl 9 (lookup "a" filled.evict_list))
get-live_value_example = get-live_value "a" 9 filled filled-IsSound

get-set_example : answer (get "d" 15 (set "d" 4 0 8 filled)) ≡ some (some 4)
unfolding set put_front evict remove_oldest remove_element back lookup insert delete
get-set_example = get-set "d" 4 0 8 15 filled filled-IsSound (omega arith) (omega arith)

clean-ends_example :
    let (c', removed) = clean 12 filled in
    (length c'.evict_list + removed ≡ length filled.evict_list)
    × ((key : String) (e : Entry ℕ)
        → lookup key filled.evict_list ≡ some e
        → (lookup key c'.evict_list ≡ some e) ⊎ (e.timestamp + filled.ttl < 12))
    × ((back c'.evict_list ≡ none)
        ⊎ ((entry : String × Entry ℕ) × (back c'.evict_list ≡ some entry)
            × (12 ≤ entry.1.timestamp + filled.ttl)))
clean-ends_example = clean-ends 12 filled filled-IsSound

-- An expired entry that `Get` moved to the front before its time was over is not removed by `Clean`,
-- when the entry behind it has not expired.
abbrev moved : LruCache ℕ
moved = record filled {
  evict_list =
      ("a", record { value = 1; timestamp = 0; size = 0 })
      ∷ ("c", record { value = 3; timestamp = 7; size = 0 })
      ∷ [];
}

moved-test :
    (answer (get "a" 9 filled) ≡ some (some 1))
    × ((clean 12 moved).1 ≡ 0)
    × (answer (get "a" 12 moved) ≡ some none)
unfolding get clean clean_loop back lookup remove_element
moved-test = (refl, refl, refl)
