-- ===== src/Base/Dict.antt =====
-- A Python dict with text keys, in insertion order.
use Prim.Native.String.{String}
use mathlib.Core.Path.{◌≡◌, refl}
use Prim.Native.Nat.{suc, ◌≤◌}
use mathlib.Core.Option.{Option, none, some}
use mathlib.Core.List.{List, [], ◌∷◌}
use native.Mathlib.Omega.{arith}
use text.Mathlib.Text.{◌==◌}
use text.Mathlib.TextEquality.{eq_iff}
use runtime_assistant_agent.Base.Tests.{if◌then◌else◌, is_some}
use runtime_assistant_agent.Base.Lists.{length}

abbrev pub Dict {ℓ} : Type ℓ → Type ℓ
Dict V = List (String × V)

module _ {ℓ} {V : Type ℓ} where
  -- `d.get(k)`
  unfoldable pub lookup : String → Dict V → Option V
  lookup k [] = none
  lookup k ((j, v) ∷ d) = if j == k then some v else lookup k d

  -- `d[k] = v`: an old key keeps its place, a new one goes to the end.
  unfoldable pub insert : String → V → Dict V → Dict V
  insert k v [] = (k, v) ∷ []
  insert k v ((j, w) ∷ d) = if j == k then (j, v) ∷ d else (j, w) ∷ insert k v d

  -- `d.pop(k, None)`, as the dict that is left. A dict holds a key once; every entry is dropped.
  unfoldable pub remove : String → Dict V → Dict V
  remove k [] = []
  remove k ((j, v) ∷ d) = let rest = remove k d in if j == k then rest else (j, v) ∷ rest

  pub lookup-insert :
      (k j : String) (v : V) (d : Dict V)
      → lookup j (insert k v d) ≡ (if k == j then some v else lookup j d)
  unfolding lookup insert
  lookup-insert k j v [] = refl
  lookup-insert k j v ((i, w) ∷ d) =
      ground (arith, lookup-insert k j v d, eq_iff i k, eq_iff i j, eq_iff k j)

  pub lookup-remove :
      (k j : String) (d : Dict V) → lookup j (remove k d) ≡ (if k == j then none else lookup j d)
  unfolding lookup remove
  lookup-remove k j [] = ground arith
  lookup-remove k j ((i, w) ∷ d) =
      ground (arith, lookup-remove k j d, eq_iff i k, eq_iff i j, eq_iff k j)

  pub length-insert :
      (k : String) (v : V) (d : Dict V)
      → length (insert k v d) ≡ (if is_some (lookup k d) then length d else suc (length d))
  unfolding lookup insert
  length-insert k v [] = refl
  length-insert k v ((i, w) ∷ d) = ground (arith, length-insert k v d)

  pub length-remove-le : (k : String) (d : Dict V) → length (remove k d) ≤ length d
  unfolding remove
  length-remove-le k [] = omega arith
  length-remove-le k ((i, w) ∷ d) = ground (arith, length-remove-le k d)

  -- no key stands twice
  abbrev pub IsDict : Dict V → Type ℓ
  IsDict [] = Unit
  IsDict ((k, v) ∷ d) = (lookup k d ≡ none) × IsDict d

  pub insert-IsDict : (k : String) (v : V) (d : Dict V) → IsDict d → IsDict (insert k v d)
  unfolding lookup insert
  insert-IsDict k v [] h = (refl, tt)
  insert-IsDict k v ((i, w) ∷ d) h =
      ground (arith, insert-IsDict k v d h.1, lookup-insert k i v d, eq_iff k i, eq_iff i k)

  pub remove-IsDict : (k : String) (d : Dict V) → IsDict d → IsDict (remove k d)
  unfolding lookup remove
  remove-IsDict k [] h = tt
  remove-IsDict k ((i, w) ∷ d) h =
      ground (arith, remove-IsDict k d h.1, lookup-remove k i d, eq_iff k i, eq_iff i k)
