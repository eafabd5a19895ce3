-- ===== src/Base/Float.antt =====
-- float64 arithmetic: a float64 is a whole number of units of 2^-1074, and an operation is the exact
-- one rounded to 53 significant bits, ties to even (IEEE 754). From 2^53 on, a value is rounded to
-- a whole number, where a float64 is coarser: no note, and no sum of notes, comes near that.
pub mod Error
use Prim.Native.Nat.{ℕ, zero, suc, ◌+◌, ◌*◌, ◌/◌, ◌%◌, ◌≤◌, ◌<◌}
use mathlib.Core.Path.{◌≡◌, ap, ◌∙◌, sym}
use mathlib.Core.Bool.{Bool, true, false}
use native.Mathlib.Omega.{arith}
use native.Mathlib.Nat.{
  mul_comm, mul_assoc, le-div_iff_mul-le, div-lt_iff_lt-mul, div-add-mod, mul_left_comm,
  mul-le-mul_left, mod-lt, mul-pos,
}
use aftercredits_backend.Base.Tests.{ltb, if◌then◌else◌}
use aftercredits_backend.Base.Int.{ℤ, pos, negsuc, neg_ℕ, scale_ℤ, ◌+ℤ◌}

-- x * 2^n
unfoldable pub doubled : ℕ → ℕ → ℕ
doubled zero x = x
doubled (suc n) x = doubled n (2 * x)

-- 1.0 in units
unfoldable pub float_one : ℕ
unfolding doubled
float_one = doubled 1074 1

-- n / d to the nearest whole number, ties to even
unfoldable pub nearest_even : ℕ → ℕ → ℕ
nearest_even n d =
    let q = n / d in
    let r = 2 * (n % d) in if ltb r d then q else if ltb d r then q + 1 else q + q % 2

-- The distance of two neighbouring floats at n / d: the least power of two that leaves 53 bits.
unfoldable pub spacing : ℕ → ℕ → ℕ → ℕ → ℕ
spacing zero s n d = s
spacing (suc fuel) s n d = elim (ltb n (s * 9007199254740992 * d)) [
  | true ↦ s
  | false ↦ spacing fuel (2 * s) n d
]

abbrev nearest_at : ℕ → ℕ → ℕ → ℕ
nearest_at fuel n d = let s = spacing fuel 1 n d in s * nearest_even n (s * d)

-- The float nearest to n / d units.
unfoldable pub nearest_float : ℕ → ℕ → ℕ
unfolding spacing nearest_even
nearest_float n d = nearest_at 1074 n d

unfoldable pub float_of : ℤ → ℕ → ℤ
unfolding nearest_float
float_of (pos n) d = pos (nearest_float n d)
float_of (negsuc n) d = neg_ℕ (nearest_float (suc n) d)

unfoldable pub add_float : ℤ → ℤ → ℤ
unfolding float_of
add_float a b = float_of (a +ℤ b) 1

unfoldable pub times_float : ℕ → ℤ → ℤ
unfolding float_of
times_float k a = float_of (scale_ℤ k a) 1

doubled-multiple : (n x : ℕ) → (j : ℕ) × (x * j ≡ doubled n x)
unfolding doubled
doubled-multiple zero x = (1, omega arith)
doubled-multiple (suc n) x =
    let (j, e) = doubled-multiple n (2 * x) in
    (2 * j, sym (mul_assoc x 2 j) ∙ ap (λ y. y * j) (mul_comm x 2) ∙ e)

-- The spacing divides 1.0.
abbrev pub Divides : ℕ → ℕ → Type 0
Divides u s = (j : ℕ) × (s * j ≡ u) × (0 < s)

pub spacing-Divides : (fuel s n d : ℕ) → 0 < s → Divides (doubled fuel s) (spacing fuel s n d)
unfolding spacing doubled
spacing-Divides zero s n d h = (1, omega arith, h)
spacing-Divides (suc fuel) s n d h =
    go (ltb n (s * 9007199254740992 * d)) (spacing-Divides fuel (2 * s) n d (omega arith))
  where
    go :
        (b : Bool)
        → Divides (doubled fuel (2 * s)) (spacing fuel (2 * s) n d)
        → Divides (doubled fuel (2 * s)) (elim b [ true ↦ s | false ↦ spacing fuel (2 * s) n d ])
    go true r =
        let (j, e) = doubled-multiple fuel (2 * s) in
        (2 * j, sym (mul_assoc s 2 j) ∙ ap (λ y. y * j) (mul_comm s 2) ∙ e, h)
    go false r = r

nearest_even-above : (n m j : ℕ) → 0 < m → m * j ≤ n → j ≤ nearest_even n m
unfolding nearest_even
nearest_even-above n m j h k =
    let q = (le-div_iff_mul-le {x = j} {y = n} h).1 (omega (arith, mul_comm m j)) in ground arith

nearest_even-below : (n m j : ℕ) → 0 < m → n ≤ m * j → nearest_even n m ≤ j
unfolding nearest_even
nearest_even-below n m j h k =
    go (n / m) (n % m) (div-add-mod n m)
      ((div-lt_iff_lt-mul {x = n} {y = j + 1} h).1 (omega (arith, mul_comm m j)))
  where
    go :
        (q r : ℕ)
        → m * q + r ≡ n
        → q < j + 1
        → (if ltb (2 * r) m then q else if ltb m (2 * r) then q + 1 else q + q % 2) ≤ j
    go q r e l =
        let low : j ≤ q → r ≤ 0 = λ b. (let f = mul-le-mul_left m b in omega arith) in
        ground (arith, mod-lt q {m = 2}, low)

doubled-positive : (n x : ℕ) → 0 < x → 0 < doubled n x
unfolding doubled
doubled-positive zero x h = h
doubled-positive (suc n) x h = doubled-positive n (2 * x) (omega arith)

pub float_one-positive : 0 < float_one
unfolding float_one
float_one-positive = doubled-positive 1074 1 (omega arith)

regroup : (k s j u d : ℕ) → s * j ≡ u → k * u * d ≡ s * d * (k * j)
regroup k s j u d e =
    ap (λ x. k * x * d) (sym e)
    ∙ ap (λ x. x * d) (mul_left_comm k s j)
    ∙ mul_assoc s (k * j) d
    ∙ ap (λ x. s * x) (mul_comm (k * j) d)
    ∙ sym (mul_assoc s d (k * j))

-- Rounding does not cross a whole number.
below_at :
    (fuel n d k : ℕ) → 0 < d → n ≤ k * doubled fuel 1 * d → nearest_at fuel n d ≤ k * doubled fuel 1
below_at fuel n d k h l =
    let (j, e, p) = spacing-Divides fuel 1 n d (omega arith) in
    go (spacing fuel 1 n d) (doubled fuel 1) j e p l
  where
    go : (s u j : ℕ) → s * j ≡ u → 0 < s → n ≤ k * u * d → s * nearest_even n (s * d) ≤ k * u
    go s u j e p l =
        let inside =
          nearest_even-below n (s * d) (k * j) (mul-pos p h) (omega (arith, regroup k s j u d e)) in
        let scaled = mul-le-mul_left s inside in
        omega (arith, ap (λ x. k * x) (sym e), mul_left_comm k s j)

above_at :
    (fuel n d k : ℕ) → 0 < d → k * doubled fuel 1 * d ≤ n → k * doubled fuel 1 ≤ nearest_at fuel n d
above_at fuel n d k h l =
    let (j, e, p) = spacing-Divides fuel 1 n d (omega arith) in
    go (spacing fuel 1 n d) (doubled fuel 1) j e p l
  where
    go : (s u j : ℕ) → s * j ≡ u → 0 < s → k * u * d ≤ n → k * u ≤ s * nearest_even n (s * d)
    go s u j e p l =
        let inside =
          nearest_even-above n (s * d) (k * j) (mul-pos p h) (omega (arith, regroup k s j u d e)) in
        let scaled = mul-le-mul_left s inside in
        omega (arith, ap (λ x. k * x) (sym e), mul_left_comm k s j)

pub nearest_float-below :
    (n d k : ℕ) → 0 < d → n ≤ k * float_one * d → nearest_float n d ≤ k * float_one
unfolding nearest_float float_one
nearest_float-below n d k h l = below_at 1074 n d k h l

pub nearest_float-above :
    (n d k : ℕ) → 0 < d → k * float_one * d ≤ n → k * float_one ≤ nearest_float n d
unfolding nearest_float float_one
nearest_float-above n d k h l = above_at 1074 n d k h l
