-- ===== src/Base/Maps.antt =====
-- Go's map[string]T as an association list. Nothing in the program depends on the order in which
-- such a map is traversed, where it is modelled by this one.
use mathlib.Core.Path.{◌≡◌, refl}
use mathlib.Core.Logic.{◌≢◌}
use mathlib.Core.Bool.{true}
use mathlib.Core.List.{List, [], ◌∷◌}
use mathlib.Core.Option.{Option, none, some}
use native.Mathlib.Omega.{arith}
use my_queue.Base.Tests.{if◌then◌else◌}
use my_queue.Base.Strings.{Str, str_eq, str_eq→eq, str_eq_self}

abbrev pub Assoc {ℓ} : Type ℓ → Type ℓ
Assoc V = List (Str × V)

module _ {ℓ} {V : Type ℓ} where
  -- v, ok := m[k]
  unfoldable pub lookup : Str → Assoc V → Option V
  lookup k [] = none
  lookup k ((j, v) ∷ m) = if str_eq j k then some v else lookup k m

  -- delete(m, k)
  unfoldable pub delete : Str → Assoc V → Assoc V
  delete k [] = []
  delete k ((j, v) ∷ m) = let rest = delete k m in if str_eq j k then rest else (j, v) ∷ rest

  -- m[k] = v
  abbrev pub insert : Str → V → Assoc V → Assoc V
  insert k v m = (k, v) ∷ delete k m

  pub lookup-delete_self : (k : Str) (m : Assoc V) → lookup k (delete k m) ≡ none
  unfolding lookup delete
  lookup-delete_self k [] = refl
  lookup-delete_self k ((j, v) ∷ m) = ground (arith, lookup-delete_self k m)

  pub lookup-delete_ne :
      (k j : Str) (m : Assoc V) → str_eq k j ≢ true → lookup j (delete k m) ≡ lookup j m
  unfolding lookup delete
  lookup-delete_ne k j [] h = refl
  lookup-delete_ne k j ((i, v) ∷ m) h =
      ground (arith, lookup-delete_ne k j m h, str_eq→eq i k, str_eq→eq i j)

  pub lookup-insert_self : (k : Str) (v : V) (m : Assoc V) → lookup k (insert k v m) ≡ some v
  unfolding lookup
  lookup-insert_self k v m = ground (arith, str_eq_self k)
