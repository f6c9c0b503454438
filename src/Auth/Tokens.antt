-- ===== src/Auth/Tokens.antt =====
-- internal/auth/user.go, cache.go and validator.go. Redis, the Laravel API, JSON and SHA-256 are not
-- part of the program: Redis is a store with the answers to its commands, and the others are functions.
-- Texts are bytes. The settings of a user, which nothing reads, are left out, as is logging.
use flybeeper_com_map_fanet.Prelude.{
  ℕ, Bool, true, false, Option, none, some, List, [], ◌∷◌, ◌==◌, ltb, length, if◌then◌else◌,
  bytes_eq,
}

pub record User : Type 0 where
  pub id : ℕ
  pub name : List ℕ
  pub email : List ℕ
  pub email_verified_at : Option ℕ
  pub role : List ℕ

-- "admin"
abbrev admin : List ℕ
admin = 97 ∷ 100 ∷ 109 ∷ 105 ∷ 110 ∷ []

unfoldable pub is_email_verified : User → Bool
is_email_verified u = elim u.email_verified_at [ none ↦ false | some t ↦ true ]

unfoldable pub is_admin : User → Bool
is_admin u = bytes_eq u.role admin

-- What `Get` of Redis answers: `redis.Nil`, another error, or the bytes.
pub data Reading : Type 0 where
  missing failed : Reading
  found_bytes : List ℕ → Reading

-- Redis as the cache uses it; `true` is the nil error. `set` takes a key, a value and a time to live.
pub record Redis (S : Type 0) : Type 0 where
  pub get : List ℕ → S → Reading
  pub set : List ℕ → List ℕ → ℕ → S → S × Bool
  pub del : List ℕ → S → S × Bool
  pub keys : S → Option (List (List ℕ))

-- The response of the API, or that there is none to be read.
pub data Response : Type 0 where
  no_response : Response
  response : ℕ → List ℕ → Response

pub record Outside : Type 0 where
  pub user_to_json : User → Option (List ℕ)
  pub user_from_json : List ℕ → Option User
  -- `fmt.Sprintf("auth:token:%x", hash[:16])` of the SHA-256 of a token.
  pub token_key : List ℕ → List ℕ
  -- `Cache.ttl`, from the configuration, in nanoseconds.
  pub ttl : ℕ

-- The results of `Cache.GetUser`.
pub data Cached : Type 0 where
  absent broken : Cached
  cached : User → Cached

module _ (out : Outside) where
  -- `validateWithAPI`; every error is none.
  unfoldable pub validate_with_api : Response → Option User
  validate_with_api no_response = none
  validate_with_api (response status body) = if status == 200 then out.user_from_json body else none

module _ {S : Type 0} (redis : Redis S) (out : Outside) where
  unfoldable pub get_user : List ℕ → S → Cached
  get_user token s = elim (redis.get (out.token_key token) s) [
    | missing ↦ absent
    | failed ↦ broken
    | found_bytes bytes ↦ elim (out.user_from_json bytes) [ none ↦ broken | some u ↦ cached u ]
  ]

  unfoldable pub set_user : List ℕ → User → S → S × Bool
  set_user token u s = elim (out.user_to_json u) [
    | none ↦ (s, false)
    | some bytes ↦ redis.set (out.token_key token) bytes out.ttl s
  ]

  -- `DeleteUser`, which `InvalidateToken` calls.
  unfoldable pub delete_user : List ℕ → S → S × Bool
  delete_user token s = redis.del (out.token_key token) s

  -- `Del` of several keys.
  unfoldable pub delete_all : List (List ℕ) → S → S × Bool
  delete_all [] s = (s, true)
  delete_all (k ∷ ks) s =
      let (s', ok) = redis.del k s in
      let (s'', rest) = delete_all ks s' in (s'', if ok then rest else false)

  -- `ClearAll`
  unfoldable pub clear_all : S → S × Bool
  unfolding delete_all
  clear_all s = elim (redis.keys s) [
    | none ↦ (s, false)
    | some ks ↦ if ltb 0 (length ks) then delete_all ks s else (s, true)
  ]

  -- The rest of `ValidateToken`, for a token that the cache has no user for.
  unfoldable pub ask_api : List ℕ → Response → S → S × Option User
  unfolding validate_with_api set_user
  ask_api token answer s = elim (validate_with_api out answer) [
    | none ↦ (s, none)
    | some u ↦ ((set_user token u s).0, some u)
  ]

  -- `ValidateToken`, with what the API would answer to the token.
  unfoldable pub validate_token : List ℕ → Response → S → S × Option User
  unfolding get_user ask_api
  validate_token token answer s = elim (get_user token s) [
    | cached u ↦ (s, some u)
    | absent ↦ ask_api token answer s
    | broken ↦ ask_api token answer s
  ]
