-- ===== src/Base/Shuffling.antt =====
-- The order in which a Go map is ranged over, told by a number.
use Prim.Native.Nat.{ℕ, zero, suc, ◌/◌, ◌%◌}
use mathlib.Core.Path.{◌≡◌, refl, ap, ◌∙◌}
use mathlib.Core.List.{List, [], ◌∷◌}
use aftercredits_backend.Base.Lists.{All, length}

module _ {A : Type 0} where
  abbrev insert_at : ℕ → A → List A → List A
  insert_at zero x xs = x ∷ xs
  insert_at (suc n) x [] = x ∷ []
  insert_at (suc n) x (y ∷ ys) = y ∷ insert_at n x ys

  -- Each order of the list is that of some number.
  unfoldable pub shuffled : ℕ → List A → List A
  shuffled order [] = []
  shuffled order (x ∷ xs) =
      insert_at (order % suc (length xs)) x (shuffled (order / suc (length xs)) xs)

  All-insert_at :
      (P : A → Type 0) (n : ℕ) (x : A) (xs : List A) → P x → All P xs → All P (insert_at n x xs)
  All-insert_at P zero x xs h a = (h, a)
  All-insert_at P (suc n) x [] h a = (h, tt)
  All-insert_at P (suc n) x (y ∷ ys) h a = (a.0, All-insert_at P n x ys h a.1)

  pub All-shuffled :
      (P : A → Type 0) (order : ℕ) (xs : List A) → All P xs → All P (shuffled order xs)
  unfolding shuffled
  All-shuffled P order [] a = tt
  All-shuffled P order (x ∷ xs) a =
      All-insert_at P _ x _ a.0 (All-shuffled P (order / suc (length xs)) xs a.1)

  length-insert_at : (n : ℕ) (x : A) (xs : List A) → length (insert_at n x xs) ≡ suc (length xs)
  length-insert_at zero x xs = refl
  length-insert_at (suc n) x [] = refl
  length-insert_at (suc n) x (y ∷ ys) = ap suc (length-insert_at n x ys)

  pub length-shuffled : (order : ℕ) (xs : List A) → length (shuffled order xs) ≡ length xs
  unfolding shuffled
  length-shuffled order [] = refl
  length-shuffled order (x ∷ xs) =
      length-insert_at _ x _ ∙ ap suc (length-shuffled (order / suc (length xs)) xs)
