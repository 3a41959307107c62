-- ===== src/Base/Assoc.antt =====
-- Maps with text keys, as association lists.
use Prim.Native.String.{String}
use mathlib.Core.Path.{◌≡◌, refl}
use mathlib.Core.Option.{Option, none, some}
use mathlib.Core.List.{List, [], ◌∷◌}
use native.Mathlib.Omega.{arith}
use text.Mathlib.Text.{◌==◌}
use text.Mathlib.TextEquality.{eq_iff}
use text.Mathlib.TextPositions.{eq_refl}
use artifact_registry_servic.Base.Tests.{if◌then◌else◌}

module _ {ℓ} {V : Type ℓ} where
  unfoldable pub lookup : String → List (String × V) → Option V
  lookup wanted [] = none
  lookup wanted ((name, value) ∷ rest) = if name == wanted then some value else lookup wanted rest

  unfoldable pub remove : String → List (String × V) → List (String × V)
  remove k [] = []
  remove k ((j, v) ∷ m) = let rest = remove k m in if j == k then rest else (j, v) ∷ rest

  unfoldable pub insert : String → V → List (String × V) → List (String × V)
  unfolding remove
  insert k v m = (k, v) ∷ remove k m

  pub lookup-remove :
      (k j : String) (m : List (String × V))
      → lookup j (remove k m) ≡ (if k == j then none else lookup j m)
  unfolding lookup remove
  lookup-remove k j [] = ground arith
  lookup-remove k j ((i, v) ∷ m) =
      ground (arith, lookup-remove k j m, eq_iff i k, eq_iff i j, eq_iff k j)

  pub lookup-insert :
      (name wanted : String) (value : V) (entries : List (String × V))
      → lookup wanted (insert name value entries)
        ≡ (if name == wanted then some value else lookup wanted entries)
  unfolding insert
  lookup-insert name wanted value entries =
      let front : lookup wanted ((name, value) ∷ remove name entries)
          ≡ (if name == wanted then some value else lookup wanted (remove name entries)) =
        unfold lookup in refl in
      ground (arith, lookup-remove name wanted entries, front)

  remove_idempotent : (k : String) (m : List (String × V)) → remove k (remove k m) ≡ remove k m
  unfolding remove
  remove_idempotent k [] = refl
  remove_idempotent k ((j, v) ∷ m) = ground (arith, remove_idempotent k m)

  pub insert-insert :
      (k : String) (v u : V) (m : List (String × V)) → insert k v (insert k u m) ≡ insert k v m
  unfolding insert remove
  insert-insert k v u m = ground (arith, eq_refl k, remove_idempotent k m)
