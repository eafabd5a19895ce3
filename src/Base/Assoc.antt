-- ===== src/Base/Assoc.antt =====
-- A Go `map[string]V` as an association list. The order of iteration, which Go leaves open, is
-- the order of the list.
use mathlib.Core.Path.{◌≡◌, refl}
use mathlib.Core.Bool.{Bool, true, false}
use mathlib.Core.Bool.{Bool, true, false}
use mathlib.Core.Option.{Option, none, some}
use mathlib.Core.List.{List, [], ◌∷◌}
use native.Mathlib.Omega.{arith}
use aftercredits_backend.Base.Tests.{if◌then◌else◌}
use aftercredits_backend.Base.Lists.{All}
use aftercredits_backend.Base.Text.{Str, str_eq, str_eq_iff}

abbrev pub Map {ℓ} : Type ℓ → Type ℓ
Map V = List (Str × V)

module _ {ℓ} {V : Type ℓ} where
  -- v, ok := m[k]
  unfoldable pub lookup : Str → Map V → Option V
  lookup k [] = none
  lookup k ((j, v) ∷ m) = if str_eq j k then some v else lookup k m

  -- m[k] = v
  unfoldable pub insert : Str → V → Map V → Map V
  insert k v [] = (k, v) ∷ []
  insert k v ((j, w) ∷ m) = if str_eq j k then (j, v) ∷ m else (j, w) ∷ insert k v m

  -- delete(m, k)
  unfoldable pub delete : Str → Map V → Map V
  delete k [] = []
  delete k ((j, w) ∷ m) = let rest = delete k m in if str_eq j k then rest else (j, w) ∷ rest

  pub lookup-insert :
      (k j : Str) (v : V) (m : Map V)
      → lookup j (insert k v m) ≡ (if str_eq k j then some v else lookup j m)
  unfolding lookup insert
  lookup-insert k j v [] = refl
  lookup-insert k j v ((i, w) ∷ m) =
      ground (arith, str_eq_iff k j, str_eq_iff i k, str_eq_iff i j, lookup-insert k j v m)

  pub lookup-delete :
      (k j : Str) (m : Map V) → lookup j (delete k m) ≡ (if str_eq k j then none else lookup j m)
  unfolding lookup delete
  lookup-delete k j [] = ground arith
  lookup-delete k j ((i, w) ∷ m) =
      ground (arith, lookup-delete k j m, str_eq_iff i k, str_eq_iff i j, str_eq_iff k j)

module _ {ℓ κ} {V : Type ℓ} (P : V → Type κ) where
  abbrev pub AllValues : Map V → Type κ
  AllValues m = All (λ e. P e.1) m

  pub AllValues-insert :
      (k : Str) (v : V) (m : Map V) → P v → AllValues m → AllValues (insert k v m)
  unfolding insert
  AllValues-insert k v [] h a = (h, tt)
  AllValues-insert k v ((j, w) ∷ m) h a = put (str_eq j k) (AllValues-insert k v m h a.1)
    where
      put :
          (b : Bool)
          → AllValues (insert k v m)
          → AllValues (if b then (j, v) ∷ m else (j, w) ∷ insert k v m)
      put true r = (h, a.1)
      put false r = (a.0, r)

  pub AllValues-delete : (k : Str) (m : Map V) → AllValues m → AllValues (delete k m)
  unfolding delete
  AllValues-delete k [] a = tt
  AllValues-delete k ((j, w) ∷ m) a = drop (str_eq j k) (AllValues-delete k m a.1)
    where
      drop :
          (b : Bool)
          → AllValues (delete k m)
          → AllValues (if b then delete k m else (j, w) ∷ delete k m)
      drop true r = r
      drop false r = (a.0, r)
