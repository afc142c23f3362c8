-- ===== src/Prelude/Maps.antt =====
-- A map keyed by texts: `HashMap<String, V>` as the list of its entries, whose order nothing reads.
use mathlib.Core.Path.{◌≡◌, refl}
use mathlib.Core.Bool.{Bool}
use mathlib.Core.Option.{Option, none, some}
use mathlib.Core.List.{List, [], ◌∷◌}
use native.Mathlib.Omega.{arith}
use lastpass_ssh_agent.Prelude.Tests.{if◌then◌else◌}
use lastpass_ssh_agent.Prelude.Slices.{Text, bytes_eq, bytes_eq_iff}

module _ {ℓ} {V : Type ℓ} where
  unfoldable pub lookup : Text → List (Text × V) → Option V
  lookup k [] = none
  lookup k ((j, v) ∷ m) = if bytes_eq j k then some v else lookup k m

  unfoldable pub insert : Text → V → List (Text × V) → List (Text × V)
  insert k v [] = (k, v) ∷ []
  insert k v ((j, w) ∷ m) = if bytes_eq j k then (k, v) ∷ m else (j, w) ∷ insert k v m

  -- `retain` by a test of the value.
  unfoldable pub retain_values : (V → Bool) → List (Text × V) → List (Text × V)
  retain_values p [] = []
  retain_values p ((j, v) ∷ m) = let rest = retain_values p m in if p v then (j, v) ∷ rest else rest

  pub lookup-insert :
      (k j : Text) (v : V) (m : List (Text × V))
      → lookup j (insert k v m) ≡ (if bytes_eq k j then some v else lookup j m)
  unfolding lookup insert
  lookup-insert k j v [] = refl
  lookup-insert k j v ((i, w) ∷ m) =
      ground (arith, bytes_eq_iff k j, bytes_eq_iff i k, bytes_eq_iff i j, lookup-insert k j v m)

  -- One entry for each key.
  abbrev pub IsMap : List (Text × V) → Type ℓ
  IsMap [] = Unit
  IsMap ((k, v) ∷ m) = (lookup k m ≡ none) × IsMap m

  abbrev pub keep : (V → Bool) → Option V → Option V
  keep p none = none
  keep p (some v) = if p v then some v else none

  pub lookup-retain_values :
      (p : V → Bool) (j : Text) (m : List (Text × V))
      → IsMap m
      → lookup j (retain_values p m) ≡ keep p (lookup j m)
  unfolding lookup retain_values
  lookup-retain_values p j [] h = refl
  lookup-retain_values p j ((i, w) ∷ m) h =
      ground (arith, bytes_eq_iff i j, lookup-retain_values p j m h.1)

  pub IsMap-retain_values :
      (p : V → Bool) (m : List (Text × V)) → IsMap m → IsMap (retain_values p m)
  unfolding retain_values
  IsMap-retain_values p [] h = tt
  IsMap-retain_values p ((i, w) ∷ m) h =
      ground (arith, lookup-retain_values p i m h.1, IsMap-retain_values p m h.1)

  pub IsMap-insert : (k : Text) (v : V) (m : List (Text × V)) → IsMap m → IsMap (insert k v m)
  unfolding insert lookup
  IsMap-insert k v [] h = (refl, tt)
  IsMap-insert k v ((i, w) ∷ m) h =
      ground
        (arith, bytes_eq_iff i k, bytes_eq_iff k i, lookup-insert k i v m, IsMap-insert k v m h.1)
