-- ===== src/Auth/Middleware.antt =====
-- internal/auth/middleware.go. A request is what the handlers read of it, and its context has the user
-- if one was set; a reply is the status of a request that is aborted, or the context of one that goes
-- on. Texts are bytes; `strings.ToLower` is only compared with "bearer", for which the letters of ASCII
-- are enough.
use flybeeper_com_map_fanet.Prelude.{
  ℕ, ◌+◌, Bool, true, false, ◌&&◌, Option, none, some, List, [], ◌∷◌, map, leb, ◌==◌, if◌then◌else◌,
  bytes_eq,
}
use flybeeper_com_map_fanet.Auth.Tokens.{
  User, Redis, Response, Outside, is_email_verified, is_admin, validate_token,
}

pub record Request : Type 0 where
  pub authorization : List ℕ
  pub query_token : List ℕ
  pub cookie_token : Option (List ℕ)

pub data Reply : Type 0 where
  abort : ℕ → Reply
  next : Option User → Reply

-- "bearer"
abbrev pub bearer : List ℕ
bearer = 98 ∷ 101 ∷ 97 ∷ 114 ∷ 101 ∷ 114 ∷ []

unfoldable pub to_lower : ℕ → ℕ
to_lower c = if leb 65 c && leb c 90 then c + 32 else c

-- A byte more at the front of the first part.
abbrev cons_part : ℕ → List (List ℕ) → List (List ℕ)
cons_part c [] = (c ∷ []) ∷ []
cons_part c (part ∷ parts) = (c ∷ part) ∷ parts

-- `strings.Split(s, " ")`
unfoldable pub split_spaces : List ℕ → List (List ℕ)
split_spaces [] = [] ∷ []
split_spaces (c ∷ cs) =
    let rest = split_spaces cs in if c == 32 then [] ∷ rest else cons_part c rest

abbrev pub is_empty : List ℕ → Bool
is_empty [] = true
is_empty (c ∷ cs) = false

-- The token of the header, if it has two parts with the scheme.
unfoldable pub bearer_of : List (List ℕ) → Option (List ℕ)
bearer_of (scheme ∷ token ∷ []) = if bytes_eq (map to_lower scheme) bearer then some token else none
bearer_of _ = none

-- The query parameter, then the cookie.
unfoldable pub fallback_token : Request → List ℕ
fallback_token r =
    if is_empty r.query_token
    then elim r.cookie_token [ none ↦ [] | some token ↦ token ]
    else r.query_token

-- `extractToken`; a cookie that is empty is as none.
unfoldable pub extract_token : Request → List ℕ
unfolding bearer_of split_spaces fallback_token
extract_token r =
    if is_empty r.authorization
    then fallback_token r
    else elim (bearer_of (split_spaces r.authorization)) [
      | none ↦ fallback_token r
      | some token ↦ token
    ]

-- The user is set, or the token is refused.
unfoldable pub reply_of : Option User → Reply
reply_of none = abort 401
reply_of (some u) = next (some u)

module _ {S : Type 0} (redis : Redis S) (out : Outside) where
  -- `Authenticate`, with what the API answers about a token.
  unfoldable pub authenticate : Request → (List ℕ → Response) → S → S × Reply
  unfolding extract_token reply_of
  authenticate r api s =
      let token = extract_token r in
      if is_empty token
      then (s, abort 401)
      else (let (s', user) = validate_token redis out token (api token) s in (s', reply_of user))

  -- `OptionalAuthenticate`
  unfoldable pub optional_authenticate : Request → (List ℕ → Response) → S → S × Reply
  unfolding extract_token
  optional_authenticate r api s =
      let token = extract_token r in
      if is_empty token
      then (s, next none)
      else (let (s', user) = validate_token redis out token (api token) s in (s', next user))

-- The two checks after it, of the user in the context.
unfoldable pub require_email_verification : Option User → Reply
require_email_verification none = abort 401
require_email_verification (some u) = if is_email_verified u then next (some u) else abort 403

unfoldable pub require_admin : Option User → Reply
require_admin none = abort 401
require_admin (some u) = if is_admin u then next (some u) else abort 403
