-- ===== src/Database/Rules.antt =====
-- How actions compose: Hoare triples over the tables (for any environment), and the rules for
-- three shapes that the services' actions have: `Keeps` an invariant of the tables, `ReadOnly`,
-- and `Atomic` (an error leaves the tables as they were).
use aftercredits_backend.Base.{ℕ, ◌≡◌, refl, Bool, true, false, if◌then◌else◌}
use aftercredits_backend.Models.{Error, query_failed}
use aftercredits_backend.Database.Exec.{
  Tables, World, Result, ok, err, Exec, pure, raise, select, statement, in_tx, attempt, map_err,
  with_error, now, ◌>>=◌, applied, committed, continue, next,
}

-- What holds of a result and of the tables it comes with.
abbrev pub Outcome :
    {A : Type 0} → (A → Tables → Type 0) → (Error → Tables → Type 0) → Result A × World → Type 0
Outcome Q E (ok a, w) = Q a w.db
Outcome Q E (err e, w) = E e w.db

pub record Hoare {A : Type 0} (P : Tables → Type 0) (m : Exec A) (Q : A → Tables → Type 0)
    (E : Error → Tables → Type 0) : Type 0 where
  pub at : (w : World) → P w.db → Outcome Q E (m w)

-- The outcome of a statement that computes its result and the new tables.
abbrev pub Applied :
    {A : Type 0}
    → (A → Tables → Type 0)
    → (Error → Tables → Type 0)
    → Tables
    → Result (A × Tables)
    → Type 0
Applied Q E t (ok (a, t')) = Q a t'
Applied Q E t (err e) = E e t

abbrev pub Selected :
    {A : Type 0} → (A → Tables → Type 0) → (Error → Tables → Type 0) → Tables → Result A → Type 0
Selected Q E t (ok a) = Q a t
Selected Q E t (err e) = E e t

module _ {A : Type 0} (Q : A → Tables → Type 0) (E : Error → Tables → Type 0) where
  applied_outcome :
      (r : Result (A × Tables)) (w : World) → Applied Q E w.db r → Outcome Q E (applied r w)
  applied_outcome (ok (a, t)) w h = h
  applied_outcome (err e) w h = h

  selected_outcome : (r : Result A) (w : World) → Selected Q E w.db r → Outcome Q E (r, w)
  selected_outcome (ok a) w h = h
  selected_outcome (err e) w h = h

  fault_outcome :
      (b : Bool) (x y : Result A × World)
      → (b ≡ true → Outcome Q E x)
      → (b ≡ false → Outcome Q E y)
      → Outcome Q E (if b then x else y)
  fault_outcome true x y hx hy = hx refl
  fault_outcome false x y hx hy = hy refl

  committed_outcome :
      (before : Tables) (x : Result A × World)
      → ((e : Error) → E e before)
      → Outcome Q (λ _ _. Unit {0}) x
      → Outcome Q E (committed before x)
  committed_outcome before (err e, w) undo h = undo e
  committed_outcome before (ok a, w) undo h =
      fault_outcome (w.env.fails w.tick) _ _ (λ _. undo query_failed) (λ _. h)

module _ {A : Type 0} {P : Tables → Type 0} {Q : A → Tables → Type 0}
    {E : Error → Tables → Type 0} where
  pub Hoare-statement :
      (f : Tables → Result (A × Tables))
      → ((t : Tables) → P t → E query_failed t)
      → ((t : Tables) → P t → Applied Q E t (f t))
      → Hoare P (statement f) Q E
  unfolding statement
  Hoare-statement f fail step = record {
    at = λ w p.
        fault_outcome Q E (w.env.fails w.tick) _ _ (λ _. fail w.db p)
          (λ _. applied_outcome Q E (f w.db) (next w) (step w.db p));
  }

  pub Hoare-select :
      (f : Tables → Result A)
      → ((t : Tables) → P t → E query_failed t)
      → ((t : Tables) → P t → Selected Q E t (f t))
      → Hoare P (select f) Q E
  unfolding select
  Hoare-select f fail step = record {
    at = λ w p.
        fault_outcome Q E (w.env.fails w.tick) _ _ (λ _. fail w.db p)
          (λ _. selected_outcome Q E (f w.db) (next w) (step w.db p));
  }

  -- A transaction that fails, at any point, leaves what it began with.
  pub Hoare-in_tx :
      (m : Exec A)
      → ((t : Tables) → P t → (e : Error) → E e t)
      → Hoare P m Q (λ _ _. Unit {0})
      → Hoare P (in_tx m) Q E
  unfolding in_tx
  Hoare-in_tx m undo h = record {
    at = λ w p.
        fault_outcome Q E (w.env.fails w.tick) _ _ (λ _. undo w.db p query_failed)
          (λ _. committed_outcome Q E w.db (m (next w)) (undo w.db p) (h.at (next w) p));
  }

  pub Hoare-pure : (a : A) → ((t : Tables) → P t → Q a t) → Hoare P (pure a) Q E
  unfolding pure
  Hoare-pure a h = record { at = λ w p. h w.db p }

  pub Hoare-raise : (e : Error) → ((t : Tables) → P t → E e t) → Hoare P (raise e) Q E
  unfolding raise
  Hoare-raise e h = record { at = λ w p. h w.db p }

  pub Hoare-if :
      (b : Bool) (m n : Exec A)
      → (b ≡ true → Hoare P m Q E)
      → (b ≡ false → Hoare P n Q E)
      → Hoare P (if b then m else n) Q E
  Hoare-if true m n hm hn = hm refl
  Hoare-if false m n hm hn = hn refl

  pub Hoare-map_err :
      (f : Error → Error) (m : Exec A) → Hoare P m Q (λ e. E (f e)) → Hoare P (map_err f m) Q E
  unfolding map_err
  Hoare-map_err f m h = record { at = λ w p. go (m w) (h.at w p) }
    where
      go : (x : Result A × World) → Outcome Q (λ e. E (f e)) x → Outcome Q E (with_error f x.0, x.1)
      go (ok a, w) o = o
      go (err e, w) o = o

  pub Hoare-attempt :
      {F : Error → Tables → Type 0} (m : Exec A)
      → Hoare P m Q E
      → Hoare P (attempt m) (λ r t. Selected Q E t r) F
  unfolding attempt
  Hoare-attempt {F} m h = record { at = λ w p. go (m w) (h.at w p) }
    where
      go :
          (x : Result A × World) → Outcome Q E x → Outcome (λ r t. Selected Q E t r) F (ok x.0, x.1)
      go (ok a, w) o = o
      go (err e, w) o = o

module _ {P : Tables → Type 0} {Q : ℕ → Tables → Type 0} {E : Error → Tables → Type 0} where
  pub Hoare-now : ((t : Tables) → P t → (n : ℕ) → Q n t) → Hoare P now Q E
  unfolding now
  Hoare-now h = record { at = λ w p. h w.db p _ }

module _ {A B : Type 0} {P : Tables → Type 0} {R : A → Tables → Type 0} {Q : B → Tables → Type 0}
    {E : Error → Tables → Type 0} where
  pub Hoare-bind :
      (m : Exec A) (f : A → Exec B)
      → Hoare P m R E
      → ((a : A) → Hoare (R a) (f a) Q E)
      → Hoare P (m >>= f) Q E
  unfolding ◌>>=◌
  Hoare-bind m f hm hf = record { at = λ w p. go (m w) (hm.at w p) }
    where
      go : (x : Result A × World) → Outcome R E x → Outcome Q E (continue f x)
      go (ok a, w) o = (hf a).at w o
      go (err e, w) o = o

module _ {A : Type 0} {P P' : Tables → Type 0} {Q Q' : A → Tables → Type 0}
    {E E' : Error → Tables → Type 0} where
  pub Hoare-weaken :
      (m : Exec A)
      → ((t : Tables) → P' t → P t)
      → ((a : A) (t : Tables) → Q a t → Q' a t)
      → ((e : Error) (t : Tables) → E e t → E' e t)
      → Hoare P m Q E
      → Hoare P' m Q' E'
  Hoare-weaken m fp fq fe h = record { at = λ w p. go (m w) (h.at w (fp w.db p)) }
    where
      go : (x : Result A × World) → Outcome Q E x → Outcome Q' E' x
      go (ok a, w) o = fq a w.db o
      go (err e, w) o = fe e w.db o
