-- ===== src/Base/Float/Error.antt =====
-- How far a float is from the value that it rounds.
use Prim.Native.Nat.{ℕ, zero, suc, ◌+◌, ◌*◌, ◌/◌, ◌%◌, ◌≤◌, ◌<◌}
use mathlib.Core.Path.{◌≡◌, refl, ap, ◌∙◌, sym}
use mathlib.Core.Logic.{◌⊎◌, inl, inr}
use mathlib.Core.Bool.{Bool, true, false}
use native.Mathlib.Omega.{arith}
use native.Mathlib.Nat.{
  mul_comm, mul_assoc, div-add-mod, mod-lt, mul-pos, mul-le-mul_right, mul-le-mul_left,
}
use aftercredits_backend.Base.Tests.{ltb, if◌then◌else◌}
use aftercredits_backend.Base.Float.{
  doubled, float_one, nearest_even, spacing, nearest_float, spacing-Divides,
}

nearest_even-near :
    (n m : ℕ) → 0 < m → (m * nearest_even n m ≤ n + m) × (n ≤ m * nearest_even n m + m)
unfolding nearest_even
nearest_even-near n m h = go (n / m) (n % m) (div-add-mod n m) (mod-lt n h)
  where
    lift :
        (q r x : ℕ) → m * q + r ≡ n → r < m → q ≤ x → x ≤ q + 1 → (m * x ≤ n + m) × (n ≤ m * x + m)
    lift q r x e l a b =
        let low = mul-le-mul_left m a in
        let high = mul-le-mul_left m b in (omega arith, omega arith)

    go :
        (q r : ℕ)
        → m * q + r ≡ n
        → r < m
        → (m * (if ltb (2 * r) m then q else if ltb m (2 * r) then q + 1 else q + q % 2) ≤ n + m)
          × (n ≤ m * (if ltb (2 * r) m then q else if ltb m (2 * r) then q + 1 else q + q % 2) + m)
    go q r e l = lift q r _ e l (ground arith) (ground (arith, mod-lt q {m = 2}))

-- 53 bits are left, or the spacing is the least.
spacing-or_least :
    (fuel s n d : ℕ) → (spacing fuel s n d ≡ s) ⊎ (spacing fuel s n d * 4503599627370496 * d ≤ n)
unfolding spacing
spacing-or_least zero s n d = inl refl
spacing-or_least (suc fuel) s n d =
    go (ltb n (s * 9007199254740992 * d)) refl (spacing-or_least fuel (2 * s) n d)
  where
    go :
        (b : Bool)
        → ltb n (s * 9007199254740992 * d) ≡ b
        → (spacing fuel (2 * s) n d ≡ 2 * s) ⊎ (spacing fuel (2 * s) n d * 4503599627370496 * d ≤ n)
        → ((elim b [ true ↦ s | false ↦ spacing fuel (2 * s) n d ]) ≡ s)
          ⊎ ((elim b [ true ↦ s | false ↦ spacing fuel (2 * s) n d ]) * 4503599627370496 * d ≤ n)
    go true e r = inl refl
    go false e (inl q) = inr (rw q (ground arith))
    go false e (inr q) = inr q

doubled-above : (n x : ℕ) → x ≤ doubled n x
unfolding doubled
doubled-above zero x = omega arith
doubled-above (suc n) x = omega (arith, doubled-above n (2 * x))

pub float_one-above : 35184372088832 ≤ float_one
unfolding float_one doubled
float_one-above = doubled-above 1029 35184372088832

-- A value up to 128 is rounded by at most 2^-45.
abbrev pub Near : ℕ → ℕ → ℕ → Type 0
Near r n d =
    (35184372088832 * (r * d) ≤ 35184372088832 * n + float_one * d)
    × (35184372088832 * n ≤ 35184372088832 * (r * d) + float_one * d)

pub nearest_float-Near :
    (n d : ℕ) → 0 < d → n ≤ 128 * (float_one * d) → Near (nearest_float n d) n d
unfolding nearest_float
nearest_float-Near n d h l =
    go (spacing 1074 1 n d) (spacing-Divides 1074 1 n d (omega arith)).2
      (spacing-or_least 1074 1 n d)
  where
    regroup : (s x : ℕ) → s * x * d ≡ s * d * x
    regroup s x = mul_assoc s x d ∙ ap (λ y. s * y) (mul_comm x d) ∙ sym (mul_assoc s d x)

    go :
        (s : ℕ)
        → 0 < s
        → (s ≡ 1) ⊎ (s * 4503599627370496 * d ≤ n)
        → Near (s * nearest_even n (s * d)) n d
    go s p (inl e) =
        let near = nearest_even-near n (s * d) (mul-pos p h) in
        let same = ap (λ x. x * d) e in
        let unit = mul-le-mul_right d float_one-above in
        let order = regroup s (nearest_even n (s * d)) in (omega arith, omega arith)
    go s p (inr q) =
        let near = nearest_even-near n (s * d) (mul-pos p h) in
        let order = regroup s (nearest_even n (s * d)) in (omega arith, omega arith)
