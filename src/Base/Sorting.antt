-- ===== src/Base/Sorting.antt =====
-- ORDER BY as a stable insertion sort, LIMIT as `take`, and lists in strictly descending order.
use Prim.Native.Nat.{ℕ, zero, suc, ◌≤◌, ◌<◌}
use mathlib.Core.Path.{◌≡◌, refl}
use mathlib.Core.Bool.{Bool, true, false, ◌||◌}
use mathlib.Core.List.{List, [], ◌∷◌, ◌++◌}
use native.Mathlib.Omega.{arith}
use aftercredits_backend.Base.Tests.{if◌then◌else◌, ltb, ◌==◌}
use aftercredits_backend.Base.Lists.{All, length, any, filter}
use aftercredits_backend.Base.Distinct.{Distinct}

module _ {ℓ} {A : Type ℓ} where
  abbrev pub take : ℕ → List A → List A
  take zero xs = []
  take (suc n) [] = []
  take (suc n) (x ∷ xs) = x ∷ take n xs

  abbrev pub drop : ℕ → List A → List A
  drop zero xs = xs
  drop (suc n) [] = []
  drop (suc n) (x ∷ xs) = drop n xs

  -- `lt x y` says that x is to stand before y.
  unfoldable pub insert_sorted : (A → A → Bool) → A → List A → List A
  insert_sorted lt e [] = e ∷ []
  insert_sorted lt e (x ∷ xs) = if lt x e then x ∷ insert_sorted lt e xs else e ∷ x ∷ xs

  unfoldable pub sort : (A → A → Bool) → List A → List A
  unfolding insert_sorted
  sort lt [] = []
  sort lt (x ∷ xs) = insert_sorted lt x (sort lt xs)

  length-filter-insert_sorted :
      (lt : A → A → Bool) (p : A → Bool) (e : A) (xs : List A)
      → length (filter p (insert_sorted lt e xs)) ≡ length (filter p (e ∷ xs))
  unfolding insert_sorted filter
  length-filter-insert_sorted lt p e [] = refl
  length-filter-insert_sorted lt p e (x ∷ xs) =
      ground (arith, length-filter-insert_sorted lt p e xs)

  -- Sorting changes no count.
  pub length-filter-sort :
      (lt : A → A → Bool) (p : A → Bool) (xs : List A)
      → length (filter p (sort lt xs)) ≡ length (filter p xs)
  unfolding sort filter
  length-filter-sort lt p [] = refl
  length-filter-sort lt p (x ∷ xs) =
      ground (arith, length-filter-insert_sorted lt p x (sort lt xs), length-filter-sort lt p xs)

  length-insert_sorted :
      (lt : A → A → Bool) (e : A) (xs : List A) → length (insert_sorted lt e xs) ≡ suc (length xs)
  unfolding insert_sorted
  length-insert_sorted lt e [] = refl
  length-insert_sorted lt e (x ∷ xs) = ground (arith, length-insert_sorted lt e xs)

  pub length-sort : (lt : A → A → Bool) (xs : List A) → length (sort lt xs) ≡ length xs
  unfolding sort
  length-sort lt [] = refl
  length-sort lt (x ∷ xs) =
      ground (arith, length-insert_sorted lt x (sort lt xs), length-sort lt xs)

  any-insert_sorted :
      (lt : A → A → Bool) (p : A → Bool) (e : A) (xs : List A)
      → any p (insert_sorted lt e xs) ≡ (p e || any p xs)
  unfolding insert_sorted any
  any-insert_sorted lt p e [] = refl
  any-insert_sorted lt p e (x ∷ xs) = ground (arith, any-insert_sorted lt p e xs)

  pub any-sort : (lt : A → A → Bool) (p : A → Bool) (xs : List A) → any p (sort lt xs) ≡ any p xs
  unfolding sort any
  any-sort lt p [] = refl
  any-sort lt p (x ∷ xs) = ground (arith, any-insert_sorted lt p x (sort lt xs), any-sort lt p xs)

  pub take-all : (n : ℕ) (xs : List A) → length xs ≤ n → take n xs ≡ xs
  take-all zero [] h = refl
  take-all zero (x ∷ xs) h = absurd (omega arith)
  take-all (suc n) [] h = refl
  take-all (suc n) (x ∷ xs) h = ground (arith, take-all n xs)

  pub take-append-drop : (n : ℕ) (xs : List A) → take n xs ++ drop n xs ≡ xs
  take-append-drop zero xs = refl
  take-append-drop (suc n) [] = refl
  take-append-drop (suc n) (x ∷ xs) = ground (arith, take-append-drop n xs)

module _ {ℓ} {A : Type ℓ} (key : A → ℕ) where
  -- ORDER BY key DESC
  abbrev pub descending : A → A → Bool
  descending x y = ltb (key y) (key x)

  abbrev pub Descending : List A → Type 0
  Descending [] = Unit
  Descending (x ∷ xs) = All (λ y. key y < key x) xs × Descending xs

  All-insert_sorted :
      (P : A → Type 0) (lt : A → A → Bool) (e : A) (xs : List A)
      → P e
      → All P xs
      → All P (insert_sorted lt e xs)
  unfolding insert_sorted
  All-insert_sorted P lt e [] h a = (h, tt)
  All-insert_sorted P lt e (x ∷ xs) h a = put (lt x e) (All-insert_sorted P lt e xs h a.1)
    where
      put :
          (b : Bool)
          → All P (insert_sorted lt e xs)
          → All P (if b then x ∷ insert_sorted lt e xs else e ∷ x ∷ xs)
      put true r = (a.0, r)
      put false r = (h, a)

  All-below : (c d : ℕ) (xs : List A) → c ≤ d → All (λ y. key y < c) xs → All (λ y. key y < d) xs
  All-below c d [] h a = tt
  All-below c d (x ∷ xs) h a = (omega arith, All-below c d xs h a.1)

  insert_sorted-Descending :
      (e : A) (xs : List A)
      → any (λ y. key y == key e) xs ≡ false
      → Descending xs
      → Descending (insert_sorted descending e xs)
  unfolding insert_sorted any
  insert_sorted-Descending e [] n d = (tt, tt)
  insert_sorted-Descending e (x ∷ xs) n d =
      put (ltb (key e) (key x)) refl (insert_sorted-Descending e xs (ground arith) d.1)
    where
      put :
          (b : Bool)
          → ltb (key e) (key x) ≡ b
          → Descending (insert_sorted descending e xs)
          → Descending (if b then x ∷ insert_sorted descending e xs else e ∷ x ∷ xs)
      put true q r = (All-insert_sorted (λ y. key y < key x) descending e xs (ground arith) d.0, r)
      put false q r = ((ground arith, All-below (key x) (key e) xs (ground arith) d.0), d)

  -- What is sorted by a key that is distinct is in strictly descending order.
  pub sort-Descending :
      (xs : List A) → Distinct (λ y x. key y == key x) xs → Descending (sort descending xs)
  unfolding sort
  sort-Descending [] d = tt
  sort-Descending (x ∷ xs) d =
      insert_sorted-Descending x (sort descending xs)
        (rw (any-sort descending (λ y. key y == key x) xs) d.0) (sort-Descending xs d.1)

  filter-insert_sorted :
      (c : ℕ) (e : A) (xs : List A)
      → filter (λ x. ltb (key x) c) (insert_sorted descending e xs) ≡ (
          if ltb (key e) c
          then insert_sorted descending e (filter (λ x. ltb (key x) c) xs)
          else filter (λ x. ltb (key x) c) xs)
  unfolding insert_sorted filter
  filter-insert_sorted c e [] = refl
  filter-insert_sorted c e (x ∷ xs) = ground (arith, filter-insert_sorted c e xs)

  -- The rows below a cursor, sorted, are the sorted rows below it.
  pub filter-sort :
      (c : ℕ) (xs : List A)
      → filter (λ x. ltb (key x) c) (sort descending xs)
        ≡ sort descending (filter (λ x. ltb (key x) c) xs)
  unfolding sort filter
  filter-sort c [] = refl
  filter-sort c (x ∷ xs) =
      ground (arith, filter-insert_sorted c x (sort descending xs), filter-sort c xs)

  none_below : (c : ℕ) (xs : List A) → All (λ y. key y < c) xs → filter (λ x. ltb (key x) c) xs ≡ xs
  unfolding filter
  none_below c [] a = refl
  none_below c (x ∷ xs) a = ground (arith, none_below c xs a.1)

  -- Of a list in descending order, what lies below a member is what stands after it.
  pub filter-after :
      (pre : List A) (x : A) (rest : List A)
      → Descending (pre ++ x ∷ rest)
      → filter (λ y. ltb (key y) (key x)) (pre ++ x ∷ rest) ≡ rest
  unfolding filter
  filter-after [] x rest d = ground (arith, none_below (key x) rest d.0)
  filter-after (p ∷ pre) x rest d =
      let above : key x < key p = All-middle (λ y. key y < key p) pre x rest d.0 in
      ground (arith, filter-after pre x rest d.1)
    where
      All-middle : (P : A → Type 0) (ys : List A) (y : A) (zs : List A) → All P (ys ++ y ∷ zs) → P y
      All-middle P [] y zs a = a.0
      All-middle P (z ∷ ys) y zs a = All-middle P ys y zs a.1
