-- ===== src/Base/Cutting.antt =====
-- A list cut into a page and the rest.
use Prim.Native.Nat.{ℕ, zero, suc, ◌≤◌, ◌<◌}
use mathlib.Core.Path.{◌≡◌, refl, ap}
use mathlib.Core.List.{List, [], ◌∷◌, ◌++◌, map}
use native.Mathlib.Omega.{arith}
use aftercredits_backend.Base.Lists.{length}
use aftercredits_backend.Base.Sorting.{take}

pub take-map :
    {A B : Type 0} (f : A → B) (n : ℕ) (xs : List A) → take n (map f xs) ≡ map f (take n xs)
take-map f zero xs = refl
take-map f (suc n) [] = refl
take-map f (suc n) (x ∷ xs) = ap (λ ys. f x ∷ ys) (take-map f n xs)

pub take-take : {A : Type 0} (n : ℕ) (xs : List A) → take n (take (suc n) xs) ≡ take n xs
take-take zero xs = refl
take-take (suc n) [] = refl
take-take (suc n) (x ∷ xs) = ap (λ ys. x ∷ ys) (take-take n xs)

pub length-take : {A : Type 0} (n : ℕ) (xs : List A) → n ≤ length xs → length (take n xs) ≡ n
length-take zero xs h = refl
length-take (suc n) [] h = absurd (omega arith)
length-take (suc n) (x ∷ xs) h = ap suc (length-take n xs (omega arith))

-- A list that is longer than a page: the page, whose last member is `last`, and the rest.
pub record Cut {A : Type 0} (k : ℕ) (xs : List A) : Type 0 where
  pub init : List A
  pub last : A
  pub rest : List A
  pub whole : xs ≡ init ++ last ∷ rest
  pub page : take (suc k) xs ≡ init ++ last ∷ []

pub cut : {A : Type 0} (k : ℕ) (xs : List A) → k < length xs → Cut k xs
cut k [] h = absurd (omega arith)
cut zero (x ∷ xs) h = record { init = []; last = x; rest = xs; whole = refl; page = refl }
cut (suc k) (x ∷ xs) h =
    let c = cut k xs (omega arith) in
    record {
      init = x ∷ c.init;
      last = c.last;
      rest = c.rest;
      whole = ap (λ ys. x ∷ ys) c.whole;
      page = ap (λ ys. x ∷ ys) c.page;
    }
