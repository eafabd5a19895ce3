-- ===== src/Base/Distinct.antt =====
-- Tests over a table that changes, and keys: no row of a table clashes with an earlier one.
use mathlib.Core.Path.{◌≡◌, refl, ap, ◌∙◌, fun_ext}
use mathlib.Core.Bool.{Bool, true, false, not, ◌||◌}
use mathlib.Core.Option.{some}
use mathlib.Core.List.{List, [], ◌∷◌, ◌++◌}
use native.Mathlib.Omega.{arith}
use aftercredits_backend.Base.Tests.{if◌then◌else◌}
use aftercredits_backend.Base.Lists.{All, any, filter, update_where, find}

module _ {ℓ} {A : Type ℓ} where
  pub filter-not-any :
      (p : A → Bool) (xs : List A) → any p xs ≡ false → filter (λ x. not (p x)) xs ≡ xs
  unfolding any filter
  filter-not-any p [] h = refl
  filter-not-any p (x ∷ xs) h = ground (arith, filter-not-any p xs)

  pub any-append : (p : A → Bool) (xs ys : List A) → any p (xs ++ ys) ≡ (any p xs || any p ys)
  unfolding any
  any-append p [] ys = refl
  any-append p (x ∷ xs) ys = ground (arith, any-append p xs ys)

  -- What a filter drops is not among what passes.
  pub any-filter-false :
      (p q : A → Bool) (xs : List A) → any p xs ≡ false → any p (filter q xs) ≡ false
  unfolding any filter
  any-filter-false p q [] h = refl
  any-filter-false p q (x ∷ xs) h = ground (arith, any-filter-false p q xs)

  -- What passes a weaker test stays.
  pub any-filter-true :
      (p q : A → Bool) (xs : List A)
      → ((x : A) → p x ≡ true → q x ≡ true)
      → any p xs ≡ true
      → any p (filter q xs) ≡ true
  unfolding any filter
  any-filter-true p q [] k h = h
  any-filter-true p q (x ∷ xs) k h = ground (arith, any-filter-true p q xs k, k x)

  pub any-update_where :
      (p q : A → Bool) (f : A → A) (xs : List A)
      → ((x : A) → p (f x) ≡ p x)
      → any p (update_where q f xs) ≡ any p xs
  unfolding any update_where
  any-update_where p q f [] k = refl
  any-update_where p q f (x ∷ xs) k = ground (arith, any-update_where p q f xs k, k x)

  pub any-part :
      (p q : A → Bool) (xs : List A) → any (λ x. p x || q x) xs ≡ false → any q xs ≡ false
  unfolding any
  any-part p q [] h = refl
  any-part p q (x ∷ xs) h = ground (arith, any-part p q xs)

  pub any-first_part :
      (p q : A → Bool) (xs : List A) → any (λ x. p x || q x) xs ≡ false → any p xs ≡ false
  unfolding any
  any-first_part p q [] h = refl
  any-first_part p q (x ∷ xs) h = ground (arith, any-first_part p q xs)

  pub filter-none_match : (p : A → Bool) (xs : List A) → any p xs ≡ false → filter p xs ≡ []
  unfolding any filter
  filter-none_match p [] h = refl
  filter-none_match p (x ∷ xs) h = ground (arith, filter-none_match p xs)

  -- A row at the end is found when no earlier one passes.
  pub find-append :
      (p : A → Bool) (xs : List A) (y : A)
      → any p xs ≡ false
      → p y ≡ true
      → find p (xs ++ y ∷ []) ≡ some y
  unfolding any find
  find-append p [] y h e = rw e refl
  find-append p (x ∷ xs) y h e = ground (arith, find-append p xs y)

  -- No row clashes with an earlier one: a key over the table.
  abbrev pub Distinct : (A → A → Bool) → List A → Type 0
  Distinct clashes [] = Unit
  Distinct clashes (x ∷ xs) = (any (λ y. clashes y x) xs ≡ false) × Distinct clashes xs

  pub Distinct-append :
      (clashes : A → A → Bool) (xs : List A) (y : A)
      → Distinct clashes xs
      → any (clashes y) xs ≡ false
      → Distinct clashes (xs ++ y ∷ [])
  unfolding any
  Distinct-append clashes [] y d h = (refl, tt)
  Distinct-append clashes (x ∷ xs) y d h = (
    rw (any-append (λ z. clashes z x) xs (y ∷ [])) (ground arith),
    Distinct-append clashes xs y d.1 (ground arith),
  )

  pub Distinct-filter :
      (clashes : A → A → Bool) (q : A → Bool) (xs : List A)
      → Distinct clashes xs
      → Distinct clashes (filter q xs)
  unfolding filter
  Distinct-filter clashes q [] d = tt
  Distinct-filter clashes q (x ∷ xs) d = kept (q x) (Distinct-filter clashes q xs d.1)
    where
      kept :
          (b : Bool)
          → Distinct clashes (filter q xs)
          → Distinct clashes (if b then x ∷ filter q xs else filter q xs)
      kept true r = (any-filter-false (λ y. clashes y x) q xs d.0, r)
      kept false r = r

  -- An update that leaves the key columns alone.
  pub Distinct-update_where :
      (clashes : A → A → Bool) (q : A → Bool) (f : A → A) (xs : List A)
      → ((x y : A) → clashes (f y) x ≡ clashes y x)
      → ((x y : A) → clashes y (f x) ≡ clashes y x)
      → Distinct clashes xs
      → Distinct clashes (update_where q f xs)
  unfolding update_where
  Distinct-update_where clashes q f [] l r d = tt
  Distinct-update_where clashes q f (x ∷ xs) l r d =
      kept (q x) (any-update_where (λ y. clashes y x) q f xs (λ y. l x y))
        (any-update_where (λ y. clashes y (f x)) q f xs (λ y. l (f x) y))
        (Distinct-update_where clashes q f xs l r d.1)
    where
      same : any (λ y. clashes y (f x)) xs ≡ any (λ y. clashes y x) xs
      same = ap (λ p. any p xs) (fun_ext (λ y. r x y))

      kept :
          (b : Bool)
          → any (λ y. clashes y x) (update_where q f xs) ≡ any (λ y. clashes y x) xs
          → any (λ y. clashes y (f x)) (update_where q f xs) ≡ any (λ y. clashes y (f x)) xs
          → Distinct clashes (update_where q f xs)
          → Distinct clashes (if b then f x ∷ update_where q f xs else x ∷ update_where q f xs)
      kept true e e' k = (e' ∙ same ∙ d.0, k)
      kept false e e' k = (e ∙ d.0, k)

module _ {ℓ κ} {A : Type ℓ} (P Q : A → Type κ) where
  pub All-map : (xs : List A) → ((a : A) → P a → Q a) → All P xs → All Q xs
  All-map [] k h = tt
  All-map (x ∷ xs) k h = (k x h.0, All-map xs k h.1)

  -- Of the rows that pass, it may be used that they pass.
  pub All-filter_map :
      (p : A → Bool) (xs : List A)
      → ((a : A) → p a ≡ true → P a → Q a)
      → All P xs
      → All Q (filter p xs)
  unfolding filter
  All-filter_map p [] k h = tt
  All-filter_map p (x ∷ xs) k h = kept (p x) (λ e. k x e h.0) (All-filter_map p xs k h.1)
    where
      kept :
          (b : Bool)
          → (b ≡ true → Q x)
          → All Q (filter p xs)
          → All Q (if b then x ∷ filter p xs else filter p xs)
      kept true q r = (q refl, r)
      kept false q r = r
