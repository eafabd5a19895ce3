-- ===== src/Postgres/Paging.antt =====
-- internal/postgres/store.go: pageOffset. An int64 keeps its wrap-around.
use aftercredits_backend.Base.{
  ◌==◌, not, ℕ, suc, ◌-◌, ◌*◌, ◌/◌, ◌%◌, ◌≤◌, ◌<◌, ◌≡◌, refl, ap, Bool, true, false, Option, none,
  some, leb, if◌then◌else◌, ℤ, pos, negsuc, ltb_ℤ, scale_ℤ, arith, leb→le,
}
use aftercredits_backend.Base.Int.{◌+ℤ◌}
use native.Mathlib.Nat.{le-div_iff_mul-le, mul_comm}

-- math.MaxInt64
abbrev pub max_int64 : ℕ
max_int64 = 9223372036854775807

-- The int64 that a whole number wraps to.
unfoldable pub to_int64 : ℤ → ℤ
to_int64 (pos n) =
    let r = n % 18446744073709551616 in
    if leb r max_int64 then pos r else negsuc (18446744073709551615 - r)
to_int64 (negsuc n) =
    let r = n % 18446744073709551616 in
    if leb r max_int64 then negsuc r else pos (18446744073709551615 - r)

-- The offset, for the page before it in 0-based counting; size is positive.
unfoldable pub offset_of : ℕ → ℤ → Option ℤ
unfolding to_int64
offset_of size before =
    if ltb_ℤ (pos (max_int64 / size)) before then none else some (to_int64 (scale_ℤ size before))

unfoldable pub page_offset : ℤ → ℤ → Option ℤ
unfolding offset_of
page_offset (negsuc n) page = none
page_offset (pos size) page =
    if size == 0 then none else offset_of size (to_int64 (page +ℤ negsuc 0))

pub to_int64-small : (n : ℕ) → n ≤ max_int64 → to_int64 (pos n) ≡ pos n
unfolding to_int64
to_int64-small n h = let m : n % 18446744073709551616 ≡ n = omega arith in rw m (ground arith)

-- The guard before the multiplication tells whether the product fits.
fits :
    (size before : ℕ)
    → 0 < size
    → ltb_ℤ (pos (max_int64 / size)) (pos before) ≡ not (leb (size * before) max_int64)
fits size before h =
    let bound = le-div_iff_mul-le {x = before} {y = max_int64} h in
    let comm = mul_comm before size in
    go (max_int64 / size) (size * before) bound.0 (λ l. bound.1 (omega (arith, comm, l))) comm
  where
    go :
        (q p : ℕ)
        → (before ≤ q → before * size ≤ max_int64)
        → (p ≤ max_int64 → before ≤ q)
        → before * size ≡ p
        → ltb_ℤ (pos q) (pos before) ≡ not (leb p max_int64)
    go q p l r e = ground arith

by_fit :
    (n : ℕ) (b : Bool)
    → (b ≡ true → to_int64 (pos n) ≡ pos n)
    → (if not b then none else some (to_int64 (pos n))) ≡ (if b then some (pos n) else none)
by_fit n true h = ap some (h refl)
by_fit n false h = refl

offset_of-exact :
    (size before : ℕ)
    → 0 < size
    → offset_of size (pos before)
      ≡ (if leb (size * before) max_int64 then some (pos (size * before)) else none)
unfolding offset_of
offset_of-exact size before h = rw (fits size before h) (
    by_fit (size * before) (leb (size * before) max_int64)
      (λ e. to_int64-small (size * before) (leb→le _ _ e)))

before_page : (before : ℕ) → pos (suc before) +ℤ negsuc 0 ≡ pos before
unfolding ◌+ℤ◌
before_page before = ground arith

-- For a positive size and a positive page of 64 bits, the offset is the exact product of the
-- size and the page before it where that product is an int64, and is refused where it is not.
pub page_offset-exact :
    (size before : ℕ)
    → suc before ≤ max_int64
    → page_offset (pos (suc size)) (pos (suc before))
      ≡ (if leb (suc size * before) max_int64 then some (pos (suc size * before)) else none)
unfolding page_offset
page_offset-exact size before h =
    let nonzero : (suc size == 0) ≡ false = ground arith in
    rw (nonzero, before_page before, to_int64-small before (omega arith))
      (offset_of-exact (suc size) before (omega arith))
