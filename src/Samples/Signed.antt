-- ===== src/Samples/Signed.antt =====
-- A store as a function, users of whom only the number is known, and requests with a token.
use flybeeper_com_map_fanet.Prelude.{
  ℕ, ◌≡◌, refl, ap, true, Option, some, none, List, [], ◌∷◌, bytes_eq, bytes_eq→eq, arith,
  Bool-cases, inl, inr, if◌then◌else◌,
}
use flybeeper_com_map_fanet.Auth.Tokens.{
  User, Redis, Response, response, Outside, get_user, set_user, delete_user, validate_with_api,
  ask_api, validate_token,
}
use flybeeper_com_map_fanet.Auth.Middleware.{
  Request, next, authenticate, extract_token, reply_of, bearer_of, split_spaces, fallback_token,
  to_lower,
}
use flybeeper_com_map_fanet.Auth.Remembered.{
  IsStore, IsCodec, Event, asks, waits, AreApart, aged, reading, after_events,
  authenticate-remembers,
}

-- What each key has, and for how long.
abbrev Shelf : Type 0
Shelf = List ℕ → Option (List ℕ × ℕ)

abbrev put : List ℕ → Option (List ℕ × ℕ) → Shelf → Shelf
put k x s j = if bytes_eq k j then x else s j

abbrev shelf : Redis Shelf
shelf = record {
  get = λ k s. reading (s k);
  set = λ k v ttl s. (put k (some (v, ttl)) s, true);
  del = λ k s. (put k none s, true);
  keys = λ s. none;
}

abbrev let_pass : ℕ → Shelf → Shelf
let_pass d s k = aged d (s k)

abbrev look : List ℕ → Shelf → Option (List ℕ × ℕ)
look k s = s k

bytes_eq_self : (k : List ℕ) → bytes_eq k k ≡ true
unfolding bytes_eq
bytes_eq_self [] = refl
bytes_eq_self (x ∷ xs) = ground (arith, bytes_eq_self xs)

shelf-IsStore : IsStore shelf let_pass look
shelf-IsStore = record {
  get_view = λ k s. refl;
  view_set = λ k v ttl s room ok. rw (bytes_eq_self k) refl;
  view_set_other = λ k j v ttl s apart. elim (Bool-cases (bytes_eq k j)) [
    | inl e ↦ absurd (apart (bytes_eq→eq k j e))
    | inr e ↦ rw e refl
  ];
  view_del = λ k s ok. rw (bytes_eq_self k) refl;
  view_wait = λ k d s. refl;
}

abbrev user_of_number : ℕ → User
user_of_number n = record { id = n; name = []; email = []; email_verified_at = none; role = [] }

abbrev to_bytes : ℕ → List ℕ → List ℕ → Option ℕ → List ℕ → Option (List ℕ)
to_bytes n [] [] none [] = some (n ∷ [])
to_bytes n [] [] none (x ∷ role) = none
to_bytes n [] [] (some t) role = none
to_bytes n [] (x ∷ email) verified role = none
to_bytes n (x ∷ name) email verified role = none

abbrev from_bytes : List ℕ → Option User
from_bytes [] = none
from_bytes (n ∷ ns) = some (user_of_number n)

abbrev outside : Outside
outside = record {
  user_to_json = λ u. to_bytes u.id u.name u.email u.email_verified_at u.role;
  user_from_json = from_bytes;
  token_key = λ token. token;
  ttl = 30;
}

from_bytes-to_bytes :
    (n : ℕ) (name email : List ℕ) (verified : Option ℕ) (role : List ℕ) (bytes : List ℕ)
    → to_bytes n name email verified role ≡ some bytes
    → from_bytes bytes
      ≡ some
          (record { id = n; name = name; email = email; email_verified_at = verified; role = role })
from_bytes-to_bytes n [] [] none [] bytes e =
    let same : bytes ≡ n ∷ [] = ground (arith, e) in ap from_bytes same
from_bytes-to_bytes n [] [] none (x ∷ role) bytes e = absurd cc
from_bytes-to_bytes n [] [] (some t) role bytes e = absurd cc
from_bytes-to_bytes n [] (x ∷ email) verified role bytes e = absurd cc
from_bytes-to_bytes n (x ∷ name) email verified role bytes e = absurd cc

outside-IsCodec : IsCodec outside
outside-IsCodec u bytes e =
    from_bytes-to_bytes u.id u.name u.email u.email_verified_at u.role bytes e

-- "Bearer t", and the token "t" in the query.
abbrev with_header : Request
with_header = record {
  authorization = 66 ∷ 101 ∷ 97 ∷ 114 ∷ 101 ∷ 114 ∷ 32 ∷ 116 ∷ [];
  query_token = [];
  cookie_token = none;
}

abbrev with_query : Request
with_query = record { authorization = []; query_token = 116 ∷ []; cookie_token = none }

abbrev accepting : List ℕ → Response
accepting token = response 200 (7 ∷ [])

abbrev refusing : List ℕ → Response
refusing token = response 401 []

abbrev empty_shelf : Shelf
empty_shelf k = none

-- The shelf with the token "t".
abbrev stored : Shelf
stored = put (116 ∷ []) (some (7 ∷ [], 30)) empty_shelf

accepted :
    authenticate shelf outside with_header accepting empty_shelf
    ≡ (stored, next (some (user_of_number 7)))
unfolding authenticate extract_token bearer_of split_spaces to_lower bytes_eq validate_token
    get_user ask_api validate_with_api set_user reply_of
accepted = refl

same_token : extract_token with_query ≡ extract_token with_header
unfolding extract_token bearer_of split_spaces to_lower bytes_eq fallback_token
same_token = refl

-- A request with the token "v", some time, and the token "t" again.
abbrev other_token : Request
other_token = record { authorization = []; query_token = 118 ∷ []; cookie_token = none }

abbrev events : List Event
events = asks other_token accepting ∷ waits 20 ∷ asks with_query refusing ∷ []

events-AreApart : AreApart outside (extract_token with_header) events
unfolding extract_token bearer_of split_spaces to_lower bytes_eq fallback_token
events-AreApart = (inr (λ e. absurd (ground (arith, e))), (inl refl, tt))

authenticate-remembers_example :
    let s'' = after_events shelf outside let_pass events stored in
    let decided = reply_of (validate_with_api outside (refusing (extract_token with_header))) in
    (authenticate shelf outside with_query refusing s'' ≡ (s'', next (some (user_of_number 7))))
    × ((authenticate shelf outside with_query refusing
          (delete_user shelf outside (extract_token with_header) s'').0).1
        ≡ decided)
    × ((authenticate shelf outside with_query refusing (let_pass 40 stored)).1 ≡ decided)
unfolding set_user delete_user get_user
authenticate-remembers_example =
    authenticate-remembers shelf outside let_pass look shelf-IsStore with_header with_query
      accepting refusing empty_shelf stored (user_of_number 7) events 40 outside-IsCodec
      (omega arith) refl accepted refl events-AreApart (omega arith) same_token (omega arith) refl
