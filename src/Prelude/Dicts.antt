-- ===== src/Prelude/Dicts.antt =====
-- Go's `map[string]V` as an association list: a later write of a key replaces the entry.
use Prim.Native.String.{String}
use Prim.Native.Nat.{◌+◌}
use mathlib.Core.Path.{◌≡◌, refl}
use mathlib.Core.Bool.{true, false, Bool}
use mathlib.Core.List.{List, [], ◌∷◌}
use mathlib.Core.Option.{Option, none, some}
use native.Mathlib.Omega.{arith}
use text.Mathlib.Text.{◌==◌ as str_eq}
use text.Mathlib.TextEquality.{eq_iff}
use flybeeper_com_map_fanet.Prelude.Tests.{if◌then◌else◌}
use flybeeper_com_map_fanet.Prelude.Lists.{length, keep_if}

abbrev pub Dict {ℓ} : Type ℓ → Type ℓ
Dict V = List (String × V)

module _ {ℓ} {V : Type ℓ} where
  unfoldable pub lookup : String → List (String × V) → Option V
  lookup k [] = none
  lookup k ((j, v) ∷ m) = if str_eq j k then some v else lookup k m

  -- `m[key] = new`
  unfoldable pub insert : String → V → List (String × V) → List (String × V)
  insert key new [] = (key, new) ∷ []
  insert key new ((q, old) ∷ rest) =
      if str_eq q key then (key, new) ∷ rest else (q, old) ∷ insert key new rest

  -- `delete(m, k)`
  unfoldable pub delete : String → List (String × V) → List (String × V)
  delete k [] = []
  delete k ((j, v) ∷ m) = if str_eq j k then delete k m else (j, v) ∷ delete k m

  pub lookup-insert :
      (key probe : String) (new : V) (dict : List (String × V))
      → lookup probe (insert key new dict)
        ≡ (if str_eq key probe then some new else lookup probe dict)
  unfolding lookup insert
  lookup-insert key probe new [] = refl
  lookup-insert key probe new ((q, old) ∷ rest) =
      ground
        (arith, lookup-insert key probe new rest, eq_iff key probe, eq_iff q key, eq_iff q probe)

  pub lookup-insert_self :
      (k : String) (v : V) (m : List (String × V)) → lookup k (insert k v m) ≡ some v
  lookup-insert_self k v m = ground (arith, eq_iff k k, lookup-insert k k v m)

  pub lookup-delete :
      (k j : String) (m : List (String × V))
      → lookup j (delete k m) ≡ (if str_eq k j then none else lookup j m)
  unfolding lookup delete
  lookup-delete k j [] = ground arith
  lookup-delete k j ((i, w) ∷ m) =
      ground (arith, eq_iff k j, eq_iff i k, eq_iff i j, lookup-delete k j m)

module _ {ℓ} {V : Type ℓ} where
  -- Every key stands once: what the runtime keeps of a Go map.
  abbrev pub IsUnique : List (String × V) → Type ℓ
  IsUnique [] = Unit
  IsUnique ((k, v) ∷ m) = (lookup k m ≡ none) × IsUnique m

  pub insert-IsUnique :
      (k : String) (v : V) (m : List (String × V)) → IsUnique m → IsUnique (insert k v m)
  unfolding insert
  insert-IsUnique k v [] h = (unfold lookup in refl, tt)
  insert-IsUnique k v ((j, w) ∷ m) h =
      ground (arith, eq_iff j k, eq_iff k j, lookup-insert k j v m, insert-IsUnique k v m)

  pub lookup-keep_if :
      (p : V → Bool) (k : String) (m : List (String × V))
      → IsUnique m
      → lookup k (keep_if (λ e. p e.1) m)
        ≡ elim (lookup k m) [ none ↦ none | some v ↦ if p v then some v else none ]
  unfolding lookup
  lookup-keep_if p k [] h = refl
  lookup-keep_if p k ((j, v) ∷ m) h = ground (arith, eq_iff j k, lookup-keep_if p k m)

-- Whether a key is found.
abbrev pub found {ℓ} : {V : Type ℓ} → Option V → Bool
found none = false
found (some v) = true

module _ {ℓ} {V : Type ℓ} where
  pub delete-IsUnique : (k : String) (m : List (String × V)) → IsUnique m → IsUnique (delete k m)
  unfolding delete
  delete-IsUnique k [] h = tt
  delete-IsUnique k ((j, v) ∷ m) h =
      ground (arith, eq_iff j k, eq_iff k j, lookup-delete k j m, delete-IsUnique k m)

  -- A deletion of a key that is not there changes nothing.
  delete-absent : (k : String) (m : List (String × V)) → lookup k m ≡ none → delete k m ≡ m
  unfolding lookup delete
  delete-absent k [] h = refl
  delete-absent k ((j, v) ∷ m) h = ground (arith, delete-absent k m)

  pub length-delete :
      (k : String) (m : List (String × V))
      → IsUnique m
      → length (delete k m) + (if found (lookup k m) then 1 else 0) ≡ length m
  unfolding lookup delete
  length-delete k [] h = omega arith
  length-delete k ((j, v) ∷ m) h = ground (arith, eq_iff j k, length-delete k m, delete-absent k m)

  pub length-insert :
      (k : String) (v : V) (m : List (String × V))
      → length (insert k v m) ≡ length m + (if found (lookup k m) then 0 else 1)
  unfolding lookup insert
  length-insert k v [] = omega arith
  length-insert k v ((j, w) ∷ m) = ground (arith, eq_iff j k, length-insert k v m)

  pub keep_if-IsUnique :
      (p : V → Bool) (m : List (String × V)) → IsUnique m → IsUnique (keep_if (λ e. p e.1) m)
  keep_if-IsUnique p [] h = tt
  keep_if-IsUnique p ((j, v) ∷ m) h =
      ground (arith, lookup-keep_if p j m h.1, keep_if-IsUnique p m h.1)
