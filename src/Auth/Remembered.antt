-- ===== src/Auth/Remembered.antt =====
-- What internal/auth answers about a token once the API accepted it, until it expires or is deleted.
use flybeeper_com_map_fanet.Prelude.{
  ℕ, ◌+◌, ◌-◌, ◌≤◌, ◌<◌, ◌≡◌, ◌≢◌, refl, subst, ap, ◌∙◌, true, false, Bool-cases, ◌⊎◌, inl, inr,
  Option, none, some, Option-cases, List, [], ◌∷◌, arith, ltb, if◌then◌else◌,
}
use flybeeper_com_map_fanet.Auth.Tokens.{
  User, Reading, Redis, Response, Outside, Cached, missing, found_bytes, absent, broken, cached,
  get_user, set_user, delete_user, validate_with_api, ask_api, validate_token,
}
use flybeeper_com_map_fanet.Auth.Middleware.{
  Request, Reply, next, is_empty, extract_token, reply_of, authenticate,
}

-- A value with the time that it has left, after some time.
abbrev pub aged : ℕ → Option (List ℕ × ℕ) → Option (List ℕ × ℕ)
aged d none = none
aged d (some (v, left)) = if ltb d left then some (v, left - d) else none

abbrev pub reading : Option (List ℕ × ℕ) → Reading
reading none = missing
reading (some x) = found_bytes x.0

-- The documented behaviour of a Redis that answers: each key has a value and the time that it has
-- left, or nothing. `SET` with a time to live and `DEL` change their own key, and time takes from all.
pub record IsStore {S : Type 0} (redis : Redis S) (wait : ℕ → S → S)
    (view : List ℕ → S → Option (List ℕ × ℕ)) : Type 0 where
  pub get_view : (k : List ℕ) (s : S) → redis.get k s ≡ reading (view k s)
  pub view_set :
      (k v : List ℕ) (ttl : ℕ) (s : S)
      → 1 ≤ ttl
      → (redis.set k v ttl s).1 ≡ true
      → view k (redis.set k v ttl s).0 ≡ some (v, ttl)
  pub view_set_other :
      (k j v : List ℕ) (ttl : ℕ) (s : S) → k ≢ j → view j (redis.set k v ttl s).0 ≡ view j s
  pub view_del : (k : List ℕ) (s : S) → (redis.del k s).1 ≡ true → view k (redis.del k s).0 ≡ none
  pub view_wait : (k : List ℕ) (d : ℕ) (s : S) → view k (wait d s) ≡ aged d (view k s)

-- Decoding undoes encoding.
abbrev pub IsCodec : Outside → Type 0
IsCodec out =
    (u : User) (bytes : List ℕ)
    → out.user_to_json u ≡ some bytes
    → out.user_from_json bytes ≡ some u

-- What may happen after a request: another one, with what the API would answer, and time.
pub data Event : Type 0 where
  asks : Request → (List ℕ → Response) → Event
  waits : ℕ → Event

abbrev pub elapsed : List Event → ℕ
elapsed [] = 0
elapsed (asks r api ∷ events) = elapsed events
elapsed (waits d ∷ events) = d + elapsed events

-- A reply that lets the request through tells the user.
accepted :
    {S : Type 0} (s1 s' : S) (o : Option User) (u : User)
    → ◌≡◌ {A = S × Reply} (s1, reply_of o) (s', next (some u))
    → ◌≡◌ {A = S × Option User} (s1, o) (s', some u)
unfolding reply_of
accepted s1 s' none u e = absurd (ground (arith, ap (λ x. x.1) e))
accepted s1 s' (some v) u e =
    let same : v ≡ u = ground (arith, ap (λ x. x.1) e) in cc (same, ap (λ x. x.0) e)

module _ {S : Type 0} (redis : Redis S) (out : Outside) (wait : ℕ → S → S) where
  -- The cache after the events, one after another.
  unfoldable pub after_events : List Event → S → S
  after_events [] s = s
  after_events (asks r api ∷ events) s = after_events events (authenticate redis out r api s).0
  after_events (waits d ∷ events) s = after_events events (wait d s)

-- The requests have the token, or one with another key in the cache.
abbrev pub AreApart : Outside → List ℕ → List Event → Type 0
AreApart out token [] = Unit
AreApart out token (asks r api ∷ events) =
    ((extract_token r ≡ token) ⊎ (out.token_key (extract_token r) ≢ out.token_key token))
    × AreApart out token events
AreApart out token (waits d ∷ events) = AreApart out token events

module _ {S : Type 0} (redis : Redis S) (out : Outside) (wait : ℕ → S → S)
    (view : List ℕ → S → Option (List ℕ × ℕ)) (store : IsStore redis wait view) where
  -- The cache has the user for the token, for some time.
  abbrev Holds : List ℕ → User → ℕ → S → Type 0
  Holds token u left s =
      (bytes : List ℕ) × (view (out.token_key token) s ≡ some (bytes, left))
      × (out.user_from_json bytes ≡ some u)

  Holds-cached :
      (token : List ℕ) (u : User) (left : ℕ) (s : S)
      → Holds token u left s
      → get_user redis out token s ≡ cached u
  unfolding get_user
  Holds-cached token u left s (bytes, there, decoded) =
      rw (get_user, store.get_view (out.token_key token) s, there, decoded) refl

  set_user-Holds :
      (token : List ℕ) (u : User) (s : S)
      → IsCodec out
      → 1 ≤ out.ttl
      → (set_user redis out token u s).1 ≡ true
      → Holds token u out.ttl (set_user redis out token u s).0
  unfolding set_user
  set_user-Holds token u s codec room ok = elim (Option-cases (out.user_to_json u)) [
    | inl e ↦ absurd (ground (arith, rw (set_user, e) at ok))
    | inr (bytes, e) ↦
        let written = rw (set_user, e) at ok in
        rw (set_user, e)
          (
            bytes,
            store.view_set (out.token_key token) bytes out.ttl s room written,
            codec u bytes e,
          )
  ]

  -- A token that the cache has a user for, or has none for.
  validate_token-cached :
      (token : List ℕ) (answer : Response) (s : S) (u : User)
      → get_user redis out token s ≡ cached u
      → validate_token redis out token answer s ≡ (s, some u)
  unfolding validate_token
  validate_token-cached token answer s u e = rw (validate_token, e) refl

  validate_token-absent :
      (token : List ℕ) (answer : Response) (s : S)
      → get_user redis out token s ≡ absent
      → validate_token redis out token answer s ≡ ask_api redis out token answer s
  unfolding validate_token
  validate_token-absent token answer s e = rw (validate_token, e) refl

  ask_api-user :
      (token : List ℕ) (answer : Response) (s : S)
      → (ask_api redis out token answer s).1 ≡ validate_with_api out answer
  unfolding ask_api
  ask_api-user token answer s = elim (Option-cases (validate_with_api out answer)) [
    | inl n ↦ rw (ask_api, n) refl
    | inr (u, y) ↦ rw (ask_api, y) refl
  ]

  -- An answer of the API about one token leaves the keys of others.
  view-set_user :
      (token other : List ℕ) (u : User) (s : S)
      → out.token_key other ≢ out.token_key token
      → view (out.token_key token) (set_user redis out other u s).0 ≡ view (out.token_key token) s
  unfolding set_user
  view-set_user token other u s apart = elim (Option-cases (out.user_to_json u)) [
    | inl e ↦ rw (set_user, e) refl
    | inr (bytes, e) ↦
        rw (set_user, e)
          (store.view_set_other (out.token_key other) (out.token_key token) bytes out.ttl s apart)
  ]

  view-ask_api :
      (token other : List ℕ) (answer : Response) (s : S)
      → out.token_key other ≢ out.token_key token
      → view (out.token_key token) (ask_api redis out other answer s).0
        ≡ view (out.token_key token) s
  unfolding ask_api
  view-ask_api token other answer s apart = elim (Option-cases (validate_with_api out answer)) [
    | inl n ↦ rw (ask_api, n) refl
    | inr (u, y) ↦ rw (ask_api, y) (view-set_user token other u s apart)
  ]

  view-validate_token :
      (token other : List ℕ) (answer : Response) (s : S) (c : Cached)
      → out.token_key other ≢ out.token_key token
      → get_user redis out other s ≡ c
      → view (out.token_key token) (validate_token redis out other answer s).0
        ≡ view (out.token_key token) s
  unfolding validate_token
  view-validate_token token other answer s (cached u) apart e = rw (validate_token, e) refl
  view-validate_token token other answer s absent apart e =
      rw (validate_token, e) (view-ask_api token other answer s apart)
  view-validate_token token other answer s broken apart e =
      rw (validate_token, e) (view-ask_api token other answer s apart)

  -- A request with the token is let through by the cache, which stays.
  Holds-authenticate :
      (r : Request) (api : List ℕ → Response) (token : List ℕ) (u : User) (left : ℕ) (s : S)
      → is_empty token ≡ false
      → extract_token r ≡ token
      → Holds token u left s
      → authenticate redis out r api s ≡ (s, next (some u))
  unfolding authenticate reply_of
  Holds-authenticate r api token u left s full same h =
      rw
        (
          authenticate,
          same,
          full,
          validate_token-cached token (api token) s u (Holds-cached token u left s h),
        )
        refl

  view-authenticate :
      (r : Request) (api : List ℕ → Response) (token : List ℕ) (s : S)
      → out.token_key (extract_token r) ≢ out.token_key token
      → view (out.token_key token) (authenticate redis out r api s).0 ≡ view (out.token_key token) s
  unfolding authenticate
  view-authenticate r api token s apart = elim (Bool-cases (is_empty (extract_token r))) [
    | inl e ↦ rw (authenticate, e) refl
    | inr e ↦
        rw (authenticate, e)
          (view-validate_token token (extract_token r) (api (extract_token r)) s _ apart refl)
  ]

  Holds-after_events :
      (token : List ℕ) (u : User) (left : ℕ) (events : List Event) (s : S)
      → is_empty token ≡ false
      → AreApart out token events
      → elapsed events < left
      → Holds token u left s
      → (left' : ℕ) × Holds token u left' (after_events redis out wait events s)
  unfolding after_events
  Holds-after_events token u left [] s full apart within h = (left, h)
  Holds-after_events token u left (asks r api ∷ events) s full (inl same, apart) within h =
      rw (Holds-authenticate r api token u left s full same h)
        (Holds-after_events token u left events s full apart within h)
  Holds-after_events token u left (asks r api ∷ events) s full (inr other, apart) within h =
      Holds-after_events token u left events (authenticate redis out r api s).0 full apart within
        (h.0, view-authenticate r api token s other ∙ h.1, h.2)
  Holds-after_events token u left (waits d ∷ events) s full apart within h =
      let later : ltb d left ≡ true = ground arith in
      Holds-after_events token u (left - d) events (wait d s) full apart (omega arith)
        (h.0, store.view_wait (out.token_key token) d s ∙ ap (aged d) h.1 ∙ rw later refl, h.2)

  -- A token of which the cache has nothing is decided by the API.
  none-authenticate :
      (r : Request) (api : List ℕ → Response) (token : List ℕ) (s : S)
      → is_empty token ≡ false
      → extract_token r ≡ token
      → view (out.token_key token) s ≡ none
      → (authenticate redis out r api s).1 ≡ reply_of (validate_with_api out (api token))
  unfolding authenticate get_user
  none-authenticate r api token s full same nothing =
      let unknown : get_user redis out token s ≡ absent =
        rw (get_user, store.get_view (out.token_key token) s, nothing) refl in
      rw (authenticate, same, full, validate_token-absent token (api token) s unknown)
        (ap reply_of (ask_api-user token (api token) s))

  -- What the API said of a token is in the cache.
  ask_api-Holds :
      (token : List ℕ) (answer : Response) (s s' : S) (u : User)
      → IsCodec out
      → 1 ≤ out.ttl
      → ask_api redis out token answer s ≡ (s', some u)
      → (set_user redis out token u s).1 ≡ true
      → Holds token u out.ttl s'
  unfolding ask_api
  ask_api-Holds token answer s s' u codec room e ok =
      elim (Option-cases (validate_with_api out answer)) [
        | inl n ↦ absurd (ground (arith, ap (λ x. x.1) (rw (ask_api, n) at e)))
        | inr (v, y) ↦
            let e' = rw (ask_api, y) at e in
            let same : u ≡ v = ground (arith, ap (λ x. x.1) e') in
            subst (Holds token u out.ttl)
              (ap (λ w. (set_user redis out token w s).0) same ∙ ap (λ x. x.0) e')
              (set_user-Holds token u s codec room ok)
      ]

  -- A token that is not empty and not in the cache was let through.
  authenticate-Holds :
      (r : Request) (api : List ℕ → Response) (s s' : S) (u : User)
      → IsCodec out
      → 1 ≤ out.ttl
      → get_user redis out (extract_token r) s ≡ absent
      → authenticate redis out r api s ≡ (s', next (some u))
      → (set_user redis out (extract_token r) u s).1 ≡ true
      → (is_empty (extract_token r) ≡ false) × Holds (extract_token r) u out.ttl s'
  unfolding authenticate
  authenticate-Holds r api s s' u codec room unknown passed ok =
      let token = extract_token r in
      elim (Bool-cases (is_empty token)) [
        | inl e ↦ absurd (ground (arith, ap (λ x. x.1) (rw (authenticate, e) at passed)))
        | inr e ↦
            let p =
              rw (authenticate, e, validate_token-absent token (api token) s unknown) at passed in
            (e, ask_api-Holds token (api token) s s' u codec room (accepted _ s' _ u p) ok)
      ]

  -- For a Redis that answers, a cache with a time to live, and JSON that is read as it was written: a
  -- token of which the cache has nothing came with a request that the API let through with a user, and
  -- the cache took the user. Then any requests follow, each ended before the next begins, whose tokens
  -- are this one or have other keys, and less time passes than the time to live. A request with the
  -- token is then let through with the same user, whatever the API says by then, and the cache stays.
  -- If the token is deleted from the cache first, such a request is let through exactly if the API
  -- answers with a user, and with that user, else its status is 401; so it is too if, from the first
  -- request on, nothing but the time to live or more passes.
  pub authenticate-remembers :
      (r r' : Request) (api api' : List ℕ → Response) (s s' : S) (u : User) (events : List Event)
      (d : ℕ)
      → IsCodec out
      → 1 ≤ out.ttl
      → get_user redis out (extract_token r) s ≡ absent
      → authenticate redis out r api s ≡ (s', next (some u))
      → (set_user redis out (extract_token r) u s).1 ≡ true
      → AreApart out (extract_token r) events
      → elapsed events < out.ttl
      → extract_token r' ≡ extract_token r
      → out.ttl ≤ d
      → (delete_user redis out (extract_token r) (after_events redis out wait events s')).1 ≡ true
      → let s'' = after_events redis out wait events s' in
        let decided = reply_of (validate_with_api out (api' (extract_token r))) in
        (authenticate redis out r' api' s'' ≡ (s'', next (some u)))
        × ((authenticate redis out r' api' (delete_user redis out (extract_token r) s'').0).1
            ≡ decided)
        × ((authenticate redis out r' api' (wait d s')).1 ≡ decided)
  unfolding delete_user
  authenticate-remembers r r' api api' s s' u events d codec room unknown passed ok apart within
        same over deleted =
      let token = extract_token r in
      let (full, held) = authenticate-Holds r api s s' u codec room unknown passed ok in
      let s'' = after_events redis out wait events s' in
      let (left, holds) = Holds-after_events token u out.ttl events s' full apart within held in
      let old : ltb d out.ttl ≡ false = ground arith in
      (
        Holds-authenticate r' api' token u left s'' full same holds,
        none-authenticate r' api' token (delete_user redis out token s'').0 full same
            (store.view_del (out.token_key token) s'' deleted),
        none-authenticate r' api' token (wait d s') full same
            (store.view_wait (out.token_key token) d s' ∙ ap (aged d) held.1 ∙ rw old refl),
      )
