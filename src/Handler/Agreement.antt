-- ===== src/Handler/Agreement.antt =====
-- Which clients stand in which groups of internal/handler/broadcast.go, operation by operation.
use flybeeper_com_map_fanet.Prelude.{
  if_both, ℕ, ◌≡◌, refl, Bool, true, false, ◌&&◌, ◌||◌, not, Option, none, some, List, [], ◌∷◌,
  String, arith, str_eq, eq_iff, ◌==◌, length, lookup, insert, delete, found, IsUnique,
  lookup-insert, lookup-delete, insert-IsUnique, delete-IsUnique, Dict,
}
use flybeeper_com_map_fanet.Handler.Groups.{
  Group, ClientInfo, mark_all_cells, join_group, join_groups, leave_group, leave_groups,
  leave_found, with_client,
}

-- The client stands in a group that was looked up.
abbrev pub holds : String → Option Group → Bool
holds client none = false
holds client (some g) = found (lookup client g.clients)

-- The client stands in the group of a cell.
abbrev pub in_group : String → String → Dict Group → Bool
in_group client gh groups = holds client (lookup gh groups)

-- The client is registered, with the cell in its area.
abbrev pub subscribed : {F : Type 0} → String → String → Dict (ClientInfo F) → Bool
subscribed client gh clients = elim (lookup client clients) [
  | none ↦ false
  | some info ↦ found (lookup gh info.geohashes)
]

-- A group that was looked up has no clients.
abbrev pub vacant : Option Group → Bool
vacant none = false
vacant (some g) = length g.clients == 0

-- The cell has a group without clients.
abbrev pub is_vacant : String → Dict Group → Bool
is_vacant gh groups = vacant (lookup gh groups)

abbrev pub listed : String → List String → Bool
listed gh [] = false
listed gh (x ∷ xs) = str_eq x gh || listed gh xs

found-mark_all_cells :
    (gh : String) (cells : List String) (d : Dict Bool)
    → found (lookup gh (mark_all_cells cells d)) ≡ (listed gh cells || found (lookup gh d))
unfolding mark_all_cells
found-mark_all_cells gh [] d = refl
found-mark_all_cells gh (x ∷ xs) d =
    ground
      (arith, found-mark_all_cells gh xs (insert x true d), lookup-insert x gh true d, eq_iff x gh)

-- An empty dictionary has no entry.
pub found-empty :
    {V : Type 0} (k : String) (d : Dict V) → (length d == 0) ≡ true → found (lookup k d) ≡ false
unfolding lookup
found-empty k [] e = refl
found-empty k (x ∷ d) e = ground arith

holds-with_client :
    (client c : String) (now : ℕ) (o : Option Group)
    → holds c (some (with_client client now o)) ≡ (str_eq client c || holds c o)
unfolding with_client lookup
holds-with_client client c now none = unfold insert in ground arith
holds-with_client client c now (some g) = ground (arith, lookup-insert client c true g.clients)

in_group-join_group :
    (client c : String) (now : ℕ) (cell gh : String) (groups : Dict Group)
    → in_group c gh (join_group client now cell groups)
      ≡ ((str_eq client c && str_eq cell gh) || in_group c gh groups)
unfolding join_group
in_group-join_group client c now cell gh groups = ground (
  arith,
  lookup-insert cell gh (with_client client now (lookup cell groups)) groups,
  holds-with_client client c now (lookup cell groups),
  eq_iff cell gh,
)

pub in_group-join_groups :
    (client c : String) (now : ℕ) (cells : List String) (gh : String) (groups : Dict Group)
    → in_group c gh (join_groups client now cells groups)
      ≡ ((str_eq client c && listed gh cells) || in_group c gh groups)
unfolding join_groups
in_group-join_groups client c now [] gh groups = ground arith
in_group-join_groups client c now (x ∷ xs) gh groups = ground (
  arith,
  in_group-join_groups client c now xs gh (join_group client now x groups),
  in_group-join_group client c now x gh groups,
)

in_group-leave_found :
    (client c cell gh : String) (groups : Dict Group) (o : Option Group)
    → lookup cell groups ≡ o
    → in_group c gh (leave_found client cell groups o)
      ≡ (in_group c gh groups && not (str_eq client c && str_eq cell gh))
unfolding leave_found
in_group-leave_found client c cell gh groups none e = ground (arith, e, eq_iff cell gh)
in_group-leave_found client c cell gh groups (some g) e =
    let shrunk : Group = record g { clients = delete client g.clients } in
    ground (
      arith,
      e,
      lookup-insert cell gh shrunk groups,
      lookup-delete cell gh groups,
      lookup-delete client c g.clients,
      found-empty c (delete client g.clients),
      eq_iff cell gh,
    )

in_group-leave_group :
    (client c cell gh : String) (groups : Dict Group)
    → in_group c gh (leave_group client cell groups)
      ≡ (in_group c gh groups && not (str_eq client c && str_eq cell gh))
unfolding leave_group
in_group-leave_group client c cell gh groups =
    in_group-leave_found client c cell gh groups (lookup cell groups) refl

pub in_group-leave_groups :
    (client c : String) (cells : Dict Bool) (gh : String) (groups : Dict Group)
    → in_group c gh (leave_groups client cells groups)
      ≡ (in_group c gh groups && not (str_eq client c && found (lookup gh cells)))
unfolding leave_groups lookup
in_group-leave_groups client c [] gh groups = ground arith
in_group-leave_groups client c ((x, v) ∷ xs) gh groups = ground (
  arith,
  in_group-leave_groups client c xs gh (leave_group client x groups),
  in_group-leave_group client c x gh groups,
)

-- A group that a client joined has one, and one that is left is deleted when it has none.
insert-full : {V : Type 0} (k : String) (v : V) (d : Dict V) → (length (insert k v d) == 0) ≡ false
unfolding insert
insert-full k v [] = ground arith
insert-full k v ((j, w) ∷ d) = ground arith

with_client-full :
    (client : String) (now : ℕ) (o : Option Group)
    → (length (with_client client now o).clients == 0) ≡ false
unfolding with_client
with_client-full client now none = insert-full client true []
with_client-full client now (some g) = insert-full client true g.clients

leave_found-full :
    (client cell gh : String) (groups : Dict Group) (o : Option Group)
    → is_vacant gh groups ≡ false
    → is_vacant gh (leave_found client cell groups o) ≡ false
unfolding leave_found
leave_found-full client cell gh groups none h = h
leave_found-full client cell gh groups (some g) h =
    let shrunk : Group = record g { clients = delete client g.clients } in
    ground (arith, lookup-insert cell gh shrunk groups, lookup-delete cell gh groups)

is_vacant-join_group :
    (client : String) (now : ℕ) (cell gh : String) (groups : Dict Group)
    → is_vacant gh groups ≡ false
    → is_vacant gh (join_group client now cell groups) ≡ false
unfolding join_group
is_vacant-join_group client now cell gh groups h = ground (
  arith,
  lookup-insert cell gh (with_client client now (lookup cell groups)) groups,
  with_client-full client now (lookup cell groups),
)

pub is_vacant-join_groups :
    (client : String) (now : ℕ) (cells : List String) (gh : String) (groups : Dict Group)
    → is_vacant gh groups ≡ false
    → is_vacant gh (join_groups client now cells groups) ≡ false
unfolding join_groups
is_vacant-join_groups client now [] gh groups h = h
is_vacant-join_groups client now (x ∷ xs) gh groups h =
    is_vacant-join_groups client now xs gh (join_group client now x groups)
      (is_vacant-join_group client now x gh groups h)

is_vacant-leave_group :
    (client cell gh : String) (groups : Dict Group)
    → is_vacant gh groups ≡ false
    → is_vacant gh (leave_group client cell groups) ≡ false
unfolding leave_group leave_found
is_vacant-leave_group client cell gh groups h =
    leave_found-full client cell gh groups (lookup cell groups) h

pub is_vacant-leave_groups :
    (client : String) (cells : Dict Bool) (gh : String) (groups : Dict Group)
    → is_vacant gh groups ≡ false
    → is_vacant gh (leave_groups client cells groups) ≡ false
unfolding leave_groups
is_vacant-leave_groups client [] gh groups h = h
is_vacant-leave_groups client ((x, v) ∷ xs) gh groups h =
    is_vacant-leave_groups client xs gh (leave_group client x groups)
      (is_vacant-leave_group client x gh groups h)

pub join_groups-IsUnique :
    (client : String) (now : ℕ) (cells : List String) (groups : Dict Group)
    → IsUnique groups
    → IsUnique (join_groups client now cells groups)
unfolding join_groups join_group
join_groups-IsUnique client now [] groups h = h
join_groups-IsUnique client now (x ∷ xs) groups h =
    join_groups-IsUnique client now xs _
      (insert-IsUnique x (with_client client now (lookup x groups)) groups h)

leave_found-IsUnique :
    (client gh : String) (groups : Dict Group) (o : Option Group)
    → IsUnique groups
    → IsUnique (leave_found client gh groups o)
unfolding leave_found
leave_found-IsUnique client gh groups none h = h
leave_found-IsUnique client gh groups (some g) h =
    if_both IsUnique (length (delete client g.clients) == 0) (delete-IsUnique gh groups h)
      (insert-IsUnique gh (record g { clients = delete client g.clients }) groups h)

pub leave_groups-IsUnique :
    (client : String) (cells : Dict Bool) (groups : Dict Group)
    → IsUnique groups
    → IsUnique (leave_groups client cells groups)
unfolding leave_groups leave_group
leave_groups-IsUnique client [] groups h = h
leave_groups-IsUnique client ((x, v) ∷ xs) groups h =
    leave_groups-IsUnique client xs _ (leave_found-IsUnique client x groups (lookup x groups) h)

pub found-marked :
    (gh : String) (cells : List String)
    → found (lookup gh (mark_all_cells cells [])) ≡ listed gh cells
unfolding lookup
found-marked gh cells = ground (arith, found-mark_all_cells gh cells [])
