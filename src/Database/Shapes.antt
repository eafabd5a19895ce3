-- ===== src/Database/Shapes.antt =====
-- Three shapes of actions, with a rule for each way to build an action: `Keeps` an invariant of the
-- tables, `ReadOnly`, and `Atomic` (an error leaves the tables as they were).
use aftercredits_backend.Base.{◌≡◌, refl, Bool, true, false, if◌then◌else◌}
use aftercredits_backend.Models.{Error}
use aftercredits_backend.Database.Exec.{
  Tables, World, Result, ok, err, Exec, pure, raise, select, statement, in_tx, attempt, map_err,
  now, new_string, nextval, collation, range_order, ◌>>=◌,
}
use aftercredits_backend.Database.Rules.{
  Hoare, Applied, Selected, Outcome, Hoare-statement, Hoare-select, Hoare-in_tx, Hoare-pure,
  Hoare-raise, Hoare-map_err, Hoare-attempt, Hoare-bind, Hoare-weaken,
}

pub record Keeps {A : Type 0} (P : Tables → Type 0) (m : Exec A) : Type 0 where
  pub hoare : Hoare P m (λ _. P) (λ _. P)

Selected-keeps :
    {A : Type 0} (P : Tables → Type 0) (t : Tables) (r : Result A)
    → P t
    → Selected (λ _. P) (λ _. P) t r
Selected-keeps P t (ok a) p = p
Selected-keeps P t (err e) p = p

module _ {A : Type 0} {P : Tables → Type 0} where
  pub Keeps-pure : (a : A) → Keeps P (pure a)
  Keeps-pure a = record { hoare = Hoare-pure a (λ t p. p) }

  pub Keeps-raise : (e : Error) → Keeps P (raise {A = A} e)
  Keeps-raise e = record { hoare = Hoare-raise e (λ t p. p) }

  pub Keeps-select : (f : Tables → Result A) → Keeps P (select f)
  Keeps-select f = record { hoare = Hoare-select f (λ t p. p) (λ t p. Selected-keeps P t (f t) p) }

  pub Keeps-statement :
      (f : Tables → Result (A × Tables))
      → ((t : Tables) → P t → Applied (λ _. P) (λ _. P) t (f t))
      → Keeps P (statement f)
  Keeps-statement f h = record { hoare = Hoare-statement f (λ t p. p) h }

  pub Keeps-in_tx : (m : Exec A) → Keeps P m → Keeps P (in_tx m)
  Keeps-in_tx m k = record {
    hoare =
        Hoare-in_tx m (λ t p e. p) (Hoare-weaken m (λ t p. p) (λ a t q. q) (λ e t q. tt) k.hoare);
  }

  pub Keeps-map_err : (f : Error → Error) (m : Exec A) → Keeps P m → Keeps P (map_err f m)
  Keeps-map_err f m k = record { hoare = Hoare-map_err f m k.hoare }

  pub Keeps-attempt : (m : Exec A) → Keeps P m → Keeps P (attempt m)
  Keeps-attempt m k = record {
    hoare =
        Hoare-weaken (attempt m) (λ t p. p) (λ r t s. go r t s) (λ e t s. s)
          (Hoare-attempt m k.hoare);
  }
    where
      go : (r : Result A) (t : Tables) → Selected (λ _. P) (λ _. P) t r → P t
      go (ok a) t s = s
      go (err e) t s = s

  pub Keeps-if :
      (b : Bool) (m n : Exec A)
      → (b ≡ true → Keeps P m)
      → (b ≡ false → Keeps P n)
      → Keeps P (if b then m else n)
  Keeps-if true m n hm hn = hm refl
  Keeps-if false m n hm hn = hn refl

module _ {P : Tables → Type 0} where
  pub Keeps-now : Keeps P now
  unfolding now
  Keeps-now = record { hoare = record { at = λ w p. p } }

  pub Keeps-new_string : Keeps P new_string
  unfolding new_string
  Keeps-new_string = record { hoare = record { at = λ w p. p } }

  pub Keeps-nextval : Keeps P nextval
  unfolding nextval
  Keeps-nextval = record { hoare = record { at = λ w p. p } }

  pub Keeps-collation : Keeps P collation
  unfolding collation
  Keeps-collation = record { hoare = record { at = λ w p. p } }

  pub Keeps-range_order : Keeps P range_order
  unfolding range_order
  Keeps-range_order = record { hoare = record { at = λ w p. p } }

module _ {A B : Type 0} {P : Tables → Type 0} where
  pub Keeps-bind :
      (m : Exec A) (f : A → Exec B) → Keeps P m → ((a : A) → Keeps P (f a)) → Keeps P (m >>= f)
  Keeps-bind m f km kf = record { hoare = Hoare-bind m f km.hoare (λ a. (kf a).hoare) }

pub ruleset keeps_rules = (
  Keeps-pure, Keeps-raise, Keeps-select, Keeps-in_tx, Keeps-map_err, Keeps-attempt, Keeps-if,
  Keeps-now, Keeps-new_string, Keeps-nextval, Keeps-collation, Keeps-range_order, Keeps-bind,
)

-- Whatever the result.
pub kept :
    {A : Type 0} (P : Tables → Type 0) (m : Exec A) (w : World) → Keeps P m → P w.db → P (m w).1.db
kept {A} P m w k h = go (m w) (k.hoare.at w h)
  where
    go : (x : Result A × World) → Outcome (λ _. P) (λ _. P) x → P x.1.db
    go (ok a, w') o = o
    go (err e, w') o = o

-- What writes nothing keeps every property of the tables.
abbrev pub ReadOnly : {A : Type 0} → Exec A → Type 1
ReadOnly m = (P : Tables → Type 0) → Keeps P m

-- From the tables `t`, an error leaves `t`.
pub record Atomic {A : Type 0} (t : Tables) (m : Exec A) : Type 0 where
  pub hoare : Hoare (λ s. s ≡ t) m (λ _ _. Unit {0}) (λ _ s. s ≡ t)

module _ {A : Type 0} {t : Tables} where
  pub Atomic-of-Keeps : (m : Exec A) → Keeps (λ s. s ≡ t) m → Atomic t m
  Atomic-of-Keeps m k = record {
    hoare = Hoare-weaken m (λ s p. p) (λ a s q. tt) (λ e s q. q) k.hoare;
  }

  pub Atomic-pure : (a : A) → Atomic t (pure a)
  Atomic-pure a = Atomic-of-Keeps (pure a) (Keeps-pure a)

  pub Atomic-raise : (e : Error) → Atomic t (raise {A = A} e)
  Atomic-raise e = Atomic-of-Keeps (raise e) (Keeps-raise e)

  Applied-atomic :
      (s : Tables) (r : Result (A × Tables))
      → s ≡ t
      → Applied (λ _ _. Unit {0}) (λ _ s'. s' ≡ t) s r
  Applied-atomic s (ok (a, s')) e = tt
  Applied-atomic s (err x) e = e

  pub Atomic-statement : (f : Tables → Result (A × Tables)) → Atomic t (statement f)
  Atomic-statement f = record {
    hoare = Hoare-statement f (λ s e. e) (λ s e. Applied-atomic s (f s) e);
  }

  pub Atomic-in_tx : (m : Exec A) → Atomic t (in_tx m)
  Atomic-in_tx m = record {
    hoare = Hoare-in_tx m (λ s e _. e) (record { at = λ w e. always (m w) });
  }
    where
      always : (x : Result A × World) → Outcome (λ _ _. Unit {0}) (λ _ _. Unit {0}) x
      always (ok a, w) = tt
      always (err e, w) = tt

  pub Atomic-map_err : (f : Error → Error) (m : Exec A) → Atomic t m → Atomic t (map_err f m)
  Atomic-map_err f m k = record { hoare = Hoare-map_err f m k.hoare }

  pub Atomic-if :
      (b : Bool) (m n : Exec A)
      → (b ≡ true → Atomic t m)
      → (b ≡ false → Atomic t n)
      → Atomic t (if b then m else n)
  Atomic-if true m n hm hn = hm refl
  Atomic-if false m n hm hn = hn refl

module _ {A B : Type 0} {t : Tables} where
  -- Reads first, then one write.
  pub Atomic-bind :
      (m : Exec A) (f : A → Exec B)
      → Keeps (λ s. s ≡ t) m
      → ((a : A) → Atomic t (f a))
      → Atomic t (m >>= f)
  Atomic-bind m f km kf = record { hoare = Hoare-bind m f km.hoare (λ a. (kf a).hoare) }

  -- A write, then what cannot fail.
  pub Atomic-bind_pure : (m : Exec A) (f : A → B) → Atomic t m → Atomic t (m >>= λ a. pure (f a))
  Atomic-bind_pure m f k = record {
    hoare = Hoare-bind m (λ a. pure (f a)) k.hoare (λ a. Hoare-pure (f a) (λ s u. u));
  }

outcome_error :
    {A : Type 0} (t : Tables) (x : Result A × World) {e : Error}
    → Outcome (λ _ _. Unit {0}) (λ _ s. s ≡ t) x
    → x.0 ≡ err e
    → x.1.db ≡ t
outcome_error t (ok a, w) o h = cc
outcome_error t (err e, w) o h = o

pub unchanged_on_error :
    {A : Type 0} (m : Exec A) (w : World) {e : Error}
    → Atomic w.db m
    → (m w).0 ≡ err e
    → (m w).1.db ≡ w.db
unchanged_on_error m w k h = outcome_error w.db (m w) (k.hoare.at w refl) h

pub ruleset atomic_rules = (
  Atomic-pure, Atomic-raise, Atomic-statement, Atomic-in_tx, Atomic-map_err, Atomic-if, Atomic-bind,
  Atomic-bind_pure, keeps_rules,
)
