-- ===== src/Services/Ratings/Precision.antt =====
-- Which notes validateNote takes for a whole number of tenths.
use native.Mathlib.Nat.{
  mul_comm, mul-le-mul_left, lt_of_mul-lt-mul_left, div-mul-le_self, lt-div-mul-add,
}
use aftercredits_backend.Base.{
  ℕ, ◌+◌, ◌-◌, ◌*◌, ◌/◌, ◌≤◌, ◌<◌, ◌≡◌, refl, sym, ap, ◌∙◌, not, ltb, leb, Bool, true, false,
  if◌then◌else◌, ◌⊎◌, inl, inr, Bool-cases, ◌||◌, ltb_ℤ, pos, pos_part, neg_part, round_div, arith,
}
use aftercredits_backend.Base.Float.{
  float_one, float_one-positive, nearest_float, float_of, times_float,
}
use aftercredits_backend.Base.Float.Error.{Near, nearest_float-Near, float_one-above}
use aftercredits_backend.Models.{tenth, invalid_note_value, note_too_precise}
use aftercredits_backend.Database.Exec.{Result, ok, err}
use aftercredits_backend.Services.Ratings.{
  one, to_float, round_float, is_precise, note_precision_tolerance, validate_note,
}

-- The distance of two numbers is at most `e`.
abbrev pub Apart : ℕ → ℕ → ℕ → Type 0
Apart a b e = (a ≤ b + e) × (b ≤ a + e)

-- The floats of validateNote on the note `n`: the note, ten times the note, the distance of that
-- from the whole number `k`, and the tolerance.
record Floats (n : ℕ) : Type 0 where
  f : ℕ
  s : ℕ
  k : ℕ
  d : ℕ
  near_f : Near f (float_one * n) one
  near_s : Near s (10 * f) 1
  e : ℕ
  near_d : Near d e 1
  apart : (e + float_one * k ≡ s) ⊎ (e + s ≡ float_one * k)
  rounds : (2 * (float_one * k) ≤ 2 * s + float_one) × (2 * s < 2 * (float_one * k) + float_one)
  tolerance : ℕ
  near_t : Near tolerance float_one 1000
  precise : is_precise (times_float 10 (to_float (pos n))) ≡ not (ltb tolerance d)

abbrev gap : ℕ → ℕ → ℕ
gap a b =
    let x = pos_part (pos a) + neg_part (pos b) in
    let y = pos_part (pos b) + neg_part (pos a) in if leb x y then y - x else x - y

gap-apart : (a b : ℕ) → (gap a b + b ≡ a) ⊎ (gap a b + a ≡ b)
gap-apart a b = elim (Bool-cases (leb (a + 0) (b + 0))) [
  | inl e ↦ inr (rw e (ground arith))
  | inr e ↦ inl (rw e (ground arith))
]

gap_fits :
    (a b : ℕ)
    → 2 * b ≤ 2 * a + float_one
    → 2 * a < 2 * b + float_one
    → gap a b ≤ 128 * (float_one * 1)
gap_fits a b h l = elim (gap-apart a b) [ inl e ↦ omega arith | inr e ↦ omega arith ]

note_fits : (n : ℕ) → n ≤ 10_000_000 → float_one * n ≤ 128 * (float_one * one)
note_fits n h = let top = mul-le-mul_left float_one h in omega arith

scaled_fits :
    (n f : ℕ) → n ≤ 10_000_000 → Near f (float_one * n) one → 10 * f ≤ 128 * (float_one * 1)
scaled_fits n f h near = let top = mul-le-mul_left float_one h in omega (arith, float_one-above)

-- The whole number nearest to a float.
abbrev whole : ℕ → ℕ
whole s = (2 * s + float_one) / (2 * float_one)

abbrev Rounds : ℕ → ℕ → Type 0
Rounds s k = (2 * (float_one * k) ≤ 2 * s + float_one) × (2 * s < 2 * (float_one * k) + float_one)

whole-Rounds : (s : ℕ) → Rounds s (whole s)
whole-Rounds s =
    let low = div-mul-le_self (2 * s + float_one) (2 * float_one) in
    let high =
      lt-div-mul-add {a = 2 * s + float_one} {b = 2 * float_one}
        (omega (arith, float_one-positive)) in
    let order = mul_comm float_one (whole s) in (omega arith, omega arith)

distance-Near :
    (s k : ℕ)
    → Rounds s k
    → Near (nearest_float (gap s (float_one * k)) 1) (gap s (float_one * k)) 1
distance-Near s k r =
    nearest_float-Near (gap s (float_one * k)) 1 (omega arith) (gap_fits s (float_one * k) r.0 r.1)

tolerance-Near : Near (nearest_float float_one 1000) float_one 1000
tolerance-Near = nearest_float-Near float_one 1000 (omega arith) (omega arith)

floats : (n : ℕ) → n ≤ 10_000_000 → Floats n
unfolding to_float times_float float_of is_precise round_float round_div note_precision_tolerance
floats n h =
    let f = nearest_float (float_one * n) one in
    let near_f = nearest_float-Near (float_one * n) one (omega arith) (note_fits n h) in
    let s = nearest_float (10 * f) 1 in
    record {
      f = f;
      s = s;
      k = whole s;
      d = nearest_float (gap s (float_one * whole s)) 1;
      e = gap s (float_one * whole s);
      near_f = near_f;
      near_s = nearest_float-Near (10 * f) 1 (omega arith) (scaled_fits n f h near_f);
      near_d = distance-Near s (whole s) (whole-Rounds s);
      apart = gap-apart s (float_one * whole s);
      rounds = whole-Rounds s;
      tolerance = nearest_float float_one 1000;
      near_t = tolerance-Near;
      precise = refl;
    }

-- A note within 99 millionths of a whole number of tenths is precise.
accepts : (n : ℕ) (x : Floats n) (k : ℕ) → Apart n (k * tenth) 99 → not (ltb x.tolerance x.d) ≡ true
accepts n x k a =
    let up = mul-le-mul_left float_one a.0 in
    let down = mul-le-mul_left float_one a.1 in
    let below : float_one * x.k < float_one * (k + 1) = omega (arith, float_one-above) in
    let above : float_one * k < float_one * (x.k + 1) = omega (arith, float_one-above) in
    let same : x.k ≡ k =
      (let l = lt_of_mul-lt-mul_left float_one below in
        let g = lt_of_mul-lt-mul_left float_one above in omega arith) in
    let product = ap (λ y. float_one * y) same in
    let close : x.d ≤ x.tolerance = elim x.apart [
      | inl e ↦ omega (arith, float_one-above)
      | inr e ↦ omega (arith, float_one-above)
    ] in
    ground arith

-- A note that is precise is within 100 millionths of a whole number of tenths.
accepted : (n : ℕ) (x : Floats n) → x.d ≤ x.tolerance → (k : ℕ) × Apart n (k * tenth) 100
accepted n x h = (
  x.k,
  (
    (let l = lt_of_mul-lt-mul_left float_one {m = n} {n = x.k * tenth + 101} (elim x.apart [
      | inl e ↦ omega (arith, float_one-above)
      | inr e ↦ omega (arith, float_one-above)
    ]) in
        omega arith),
    (let l = lt_of_mul-lt-mul_left float_one {m = x.k * tenth} {n = n + 101} (elim x.apart [
      | inl e ↦ omega (arith, float_one-above)
      | inr e ↦ omega (arith, float_one-above)
    ]) in
        omega arith),
  ),
)

-- What validateNote says of a note that is not negative.
pub data Verdict (n : ℕ) : Result (Unit {0}) → Type 0 where
  taken : n ≤ 10_000_000 → (k : ℕ) → Apart n (k * tenth) 100 → Verdict n (ok tt)
  too_great : 10_000_000 < n → Verdict n (err invalid_note_value)
  too_fine :
      n ≤ 10_000_000 → ((k : ℕ) → ¬ Apart n (k * tenth) 99) → Verdict n (err note_too_precise)

-- A note that is not negative is accepted, and then lies within 10 and within 100 millionths of
-- a whole number of tenths; or it is refused as invalid, and then is above 10; or it is refused
-- as too precise, and then lies within 10 and within 99 millionths of no whole number of tenths.
pub validate_note-Verdict : (n : ℕ) → Verdict n (validate_note (pos n))
unfolding validate_note
validate_note-Verdict n =
    go (ltb_ℤ (pos n) (pos 0) || ltb_ℤ (pos (10 * one)) (pos n)) refl
      (is_precise (times_float 10 (to_float (pos n)))) refl
  where
    go :
        (a : Bool)
        → (ltb_ℤ (pos n) (pos 0) || ltb_ℤ (pos (10 * one)) (pos n)) ≡ a
        → (b : Bool) → is_precise (times_float 10 (to_float (pos n))) ≡ b
        → Verdict n
            (if a then err invalid_note_value else if not b then err note_too_precise else ok tt)
    go true e b p = too_great (ground arith)
    go false e true p =
        let h : n ≤ 10_000_000 = ground arith in
        let x = floats n h in
        let (k, a) = accepted n x (within x (sym x.precise ∙ p)) in taken h k a
      where
        within : {n : ℕ} (x : Floats n) → not (ltb x.tolerance x.d) ≡ true → x.d ≤ x.tolerance
        within x e = ground arith
    go false e false p =
        let h : n ≤ 10_000_000 = ground arith in
        let x = floats n h in
        too_fine h (λ k a. (let q = x.precise ∙ accepts n x k a in ground arith))
