-- ===== src/Services/Ratings/Notes.antt =====
-- The notes of ratings.go: which are accepted, and what an overall note is.
use native.Mathlib.Nat.{mul_comm, div-lt_iff_lt-mul, le-div_iff_mul-le, mul-le-mul_right}
use aftercredits_backend.Base.{
  Str, ℕ, ◌+◌, ◌*◌, ◌/◌, ◌≤◌, ◌<◌, ◌≡◌, refl, ap, some, [], ◌∷◌, All, length, ℤ, pos, negsuc, ◌≤ℤ◌,
  round_div, scale_ℤ, subst, arith,
}
use aftercredits_backend.Base.Int.{◌+ℤ◌}
use aftercredits_backend.Base.Float.{
  float_one, nearest_float, float_of, add_float, times_float, nearest_float-below,
  nearest_float-above, float_one-positive,
}
use aftercredits_backend.Base.Shuffling.{shuffled, All-shuffled, length-shuffled}
use aftercredits_backend.Models.{Note, tenth, SeasonsRatings, SeasonRatingItem}
use aftercredits_backend.Database.Exec.{ok}
use aftercredits_backend.Services.Ratings.{
  one, to_float, validate_note, overall_note, round_to_one_decimal, sum_ratings,
}

pub validate_note-InRange :
    (note : Note) → validate_note note ≡ ok tt → (pos 0 ≤ℤ note) × (note ≤ℤ pos 10_000_000)
unfolding validate_note
validate_note-InRange (pos n) h = (ground arith, ground arith)
validate_note-InRange (negsuc n) h = (ground arith, ground arith)

-- From `lo` to `hi`, whole points both.
abbrev pub Between : ℕ → ℕ → Note → Type 0
Between lo hi x = (pos (lo * one) ≤ℤ x) × (x ≤ℤ pos (hi * one))

abbrev pub RatedBetween : ℕ → ℕ → SeasonsRatings → Type 0
RatedBetween lo hi = All (λ e. Between lo hi e.1.rating)

-- A float from `lo` to `hi` points.
abbrev Within : ℕ → ℕ → ℤ → Type 0
Within lo hi z = (f : ℕ) × (z ≡ pos f) × (lo * float_one ≤ f) × (f ≤ hi * float_one)

-- Rounding keeps a fraction between two whole numbers.
rounded :
    (lo hi n d : ℕ)
    → 0 < d
    → lo * float_one * d ≤ n
    → n ≤ hi * float_one * d
    → Within lo hi (float_of (pos n) d)
unfolding float_of
rounded lo hi n d p a b =
    (nearest_float n d, refl, nearest_float-above n d lo p a, nearest_float-below n d hi p b)

to_float-Within : (lo hi : ℕ) (x : Note) → Between lo hi x → Within lo hi (to_float x)
unfolding to_float
to_float-Within lo hi (negsuc n) h = absurd (omega arith)
to_float-Within lo hi (pos n) h =
    rounded lo hi (float_one * n) one (omega arith)
      (let k = mul-le-mul_right float_one h.0 in omega (arith, k, mul_comm float_one n))
      (let k = mul-le-mul_right float_one h.1 in omega (arith, k, mul_comm float_one n))

pos_add : (f g : ℕ) → pos f +ℤ pos g ≡ pos (f + g)
unfolding ◌+ℤ◌
pos_add f g = ground arith

add_float-Within :
    (a b c d : ℕ) (x y : ℤ) → Within a b x → Within c d y → Within (a + c) (b + d) (add_float x y)
unfolding add_float
add_float-Within a b c d x y (f, e, l, h) (g, e', l', h') =
    rw (e, e', pos_add f g)
      (rounded (a + c) (b + d) (f + g) 1 (omega arith) (omega arith) (omega arith))

sum_ratings-Within :
    (lo hi a b : ℕ) (s : ℤ) (m : SeasonsRatings)
    → Within a b s
    → RatedBetween lo hi m
    → Within (a + length m * lo) (b + length m * hi) (sum_ratings s m)
unfolding sum_ratings
sum_ratings-Within lo hi a b s [] (f, e, low, high) h = (f, e, omega arith, omega arith)
sum_ratings-Within lo hi a b s ((k, item) ∷ m) w h =
    let (f, e, low, high) =
      sum_ratings-Within lo hi (a + lo) (b + hi) _ m
        (add_float-Within a b lo hi s _ w (to_float-Within lo hi item.rating h.0)) h.1 in
    (f, e, omega arith, omega arith)

mean-Within :
    (lo hi n : ℕ) (s : ℤ) → 0 < n → Within (n * lo) (n * hi) s → Within lo hi (float_of s n)
mean-Within lo hi n s p (f, e, low, high) = rw e (rounded lo hi f n p (omega arith) (omega arith))

times_float-Within :
    (lo hi : ℕ) (z : ℤ) → Within lo hi z → Within (lo * 10) (hi * 10) (times_float 10 z)
unfolding times_float
times_float-Within lo hi z (f, e, low, high) =
    rw e (rounded (lo * 10) (hi * 10) (10 * f) 1 (omega arith) (omega arith) (omega arith))

-- A whole number of tenths, from `lo` to `hi` of them.
abbrev pub Tenths : ℕ → ℕ → Note → Type 0
Tenths lo hi x = (k : ℕ) × (x ≡ pos (k * tenth)) × (lo ≤ k) × (k ≤ hi)

round_div-Tenths :
    (lo hi : ℕ) (z : ℤ) → Within lo hi z → Tenths lo hi (scale_ℤ tenth (round_div z float_one))
unfolding round_div
round_div-Tenths lo hi z (f, e, low, high) =
    let p = float_one-positive in
    let top =
      (div-lt_iff_lt-mul {k = 2 * float_one} {x = 2 * f + float_one} {y = hi + 1} (omega arith)).1
        (omega arith) in
    let bottom =
      (le-div_iff_mul-le {k = 2 * float_one} {x = lo} {y = 2 * f + float_one} (omega arith)).1
        (omega arith) in
    rw e ((2 * f + float_one) / (2 * float_one), ap pos (mul_comm _ _), bottom, omega arith)

-- If every rating of at least one season lies between two whole numbers, the overall note is a
-- whole number of tenths between the same two numbers, in whatever order the ratings are summed.
pub overall_note-Between :
    (lo hi order : ℕ) (x : Str × SeasonRatingItem) (m : SeasonsRatings)
    → RatedBetween lo hi (x ∷ m)
    → Tenths (lo * 10) (hi * 10) (overall_note order (some (x ∷ m)))
unfolding overall_note round_to_one_decimal
overall_note-Between lo hi order x m h =
    let ranged = All-shuffled (λ e. Between lo hi e.1.rating) order (x ∷ m) h in
    let len = length-shuffled order (x ∷ m) in
    let sum : Within (length (x ∷ m) * lo) (length (x ∷ m) * hi)
        (sum_ratings (pos 0) (shuffled order (x ∷ m))) =
      subst (λ n. Within (n * lo) (n * hi) (sum_ratings (pos 0) (shuffled order (x ∷ m)))) len
        (from_zero lo hi _ _ (
          sum_ratings-Within lo hi 0 0 (pos 0) (shuffled order (x ∷ m))
            (0, refl, omega arith, omega arith) ranged)) in
    round_div-Tenths (lo * 10) (hi * 10) _
      (times_float-Within lo hi _ (mean-Within lo hi (length (x ∷ m)) _ (omega arith) sum))
  where
    from_zero :
        (lo hi n : ℕ) (s : ℤ) → Within (0 + n * lo) (0 + n * hi) s → Within (n * lo) (n * hi) s
    from_zero lo hi n s (f, e, low, high) = (f, e, omega arith, omega arith)
