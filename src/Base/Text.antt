-- ===== src/Base/Text.antt =====
-- Go strings as their bytes, with what the code uses of `strings` and `strconv`.
use Prim.Native.Nat.{ℕ, zero, suc, ◌+◌, ◌-◌, ◌*◌, ◌/◌, ◌%◌}
use Prim.Native.Char.{code}
use Prim.Native.String.{String}
use mathlib.Core.Path.{◌≡◌, refl}
use mathlib.Core.Logic.{◌↔◌}
use mathlib.Core.Bool.{Bool, true, false, ◌&&◌, ◌||◌}
use mathlib.Core.Option.{Option, none, some}
use mathlib.Core.List.{List, [], ◌∷◌, reverse}
use native.Mathlib.Omega.{arith}
use aftercredits_backend.Base.Lists.{length}
use aftercredits_backend.Base.Tests.{ltb, leb, ◌==◌, if◌then◌else◌}
use aftercredits_backend.Base.Int.{ℤ, pos, negsuc, neg_ℕ}

abbrev pub Str : Type 0
Str = List ℕ

-- The bytes of an ASCII literal.
abbrev pub codes : String → Str
codes String.[] = []
codes (String.◌∷◌ c s) = code c ∷ codes s

unfoldable pub str_eq : Str → Str → Bool
str_eq [] [] = true
str_eq [] (y ∷ ys) = false
str_eq (x ∷ xs) [] = false
str_eq (x ∷ xs) (y ∷ ys) = x == y && str_eq xs ys

pub str_eq_iff : (a b : Str) → (str_eq a b ≡ true) ↔ (a ≡ b)
unfolding str_eq
str_eq_iff [] [] = ground arith
str_eq_iff [] (y ∷ ys) = ground arith
str_eq_iff (x ∷ xs) [] = ground arith
str_eq_iff (x ∷ xs) (y ∷ ys) = ground (arith, str_eq_iff xs ys)

pub str_eq_refl : (a : Str) → str_eq a a ≡ true
str_eq_refl a = (str_eq_iff a a).1 refl

unfoldable pub is_space : ℕ → Bool
is_space c = c == 32 || leb 9 c && leb c 13

-- The white space beyond ASCII, in UTF-8: U+0085 and U+00A0 in two bytes, U+1680, U+2000 to
-- U+200A, U+2028, U+2029, U+202F, U+205F and U+3000 in three.
unfoldable pub is_space_2 : ℕ → ℕ → Bool
is_space_2 a b = a == 194 && (b == 133 || b == 160)

unfoldable pub is_space_3 : ℕ → ℕ → ℕ → Bool
is_space_3 a b c =
    a == 225 && b == 154 && c == 128
    || a == 226
      && (b == 128 && (leb 128 c && leb c 138 || c == 168 || c == 169 || c == 175)
          || b == 129 && c == 159)
    || a == 227 && b == 128 && c == 128

-- The text without the white space of one character at its front; none if there is none.
abbrev cut_2 : (ℕ → ℕ → Bool) → Str → Option Str
cut_2 two (a ∷ b ∷ s) = if two a b then some s else none
cut_2 two s = none

abbrev cut_3 : (ℕ → ℕ → ℕ → Bool) → Str → Option Str
cut_3 three (a ∷ b ∷ c ∷ s) = if three a b c then some s else none
cut_3 three s = none

abbrev cut_1 : Str → Option Str
cut_1 [] = none
cut_1 (c ∷ s) = if is_space c then some s else none

abbrev or_else : Option Str → Option Str → Option Str
or_else none o = o
or_else (some s) o = some s

-- Each round cuts one character: as many as the text has bytes are enough.
unfoldable pub trim_front : ℕ → (ℕ → ℕ → Bool) → (ℕ → ℕ → ℕ → Bool) → Str → Str
unfolding is_space
trim_front zero two three s = s
trim_front (suc fuel) two three s =
    elim (or_else (cut_1 s) (or_else (cut_2 two s) (cut_3 three s))) [
      | none ↦ s
      | some rest ↦ trim_front fuel two three rest
    ]

-- strings.TrimLeft and, on the reversed text, strings.TrimRight, of white space
unfoldable pub trim_left : Str → Str
unfolding trim_front is_space_2 is_space_3
trim_left s = trim_front (length s) is_space_2 is_space_3 s

unfoldable pub trim_right : Str → Str
unfolding trim_front is_space_2 is_space_3
trim_right s =
    reverse (trim_front (length s) (λ b a. is_space_2 a b) (λ c b a. is_space_3 a b c) (reverse s))

-- strings.TrimSpace
unfoldable pub trim_space : Str → Str
unfolding trim_left trim_right
trim_space s = trim_right (trim_left s)

unfoldable pub itoa_go : ℕ → ℕ → Str → Str
itoa_go zero n acc = acc
itoa_go (suc f) n acc = elim (ltb n 10) [
  | true ↦ (b'0' + n) ∷ acc
  | false ↦ itoa_go f (n / 10) ((b'0' + n % 10) ∷ acc)
]

-- strconv.Itoa; `n + 1` rounds are enough for the digits of `n`
unfoldable pub itoa : ℤ → Str
unfolding itoa_go
itoa (pos n) = itoa_go (suc n) n []
itoa (negsuc n) = b'-' ∷ itoa_go (suc (suc n)) (suc n) []

unfoldable pub atoi_go : ℕ → Str → Option ℕ
atoi_go acc [] = some acc
atoi_go acc (c ∷ s) = if leb b'0' c && leb c b'9' then atoi_go (acc * 10 + (c - b'0')) s else none

abbrev ranged : Bool → Option ℕ → Option ℤ
ranged negative none = none
ranged false (some n) = if ltb n 9223372036854775808 then some (pos n) else none
ranged true (some n) = if leb n 9223372036854775808 then some (neg_ℕ n) else none

unfoldable pub atoi_digits : Bool → Str → Option ℤ
unfolding atoi_go
atoi_digits negative [] = none
atoi_digits negative (c ∷ s) = ranged negative (atoi_go 0 (c ∷ s))

-- strconv.Atoi on a 64-bit machine: an optional sign and decimal digits, in range
unfoldable pub atoi : Str → Option ℤ
unfolding atoi_digits
atoi [] = none
atoi (c ∷ s) =
    if c == b'-'
    then atoi_digits true s
    else if c == b'+'
    then atoi_digits false s
    else atoi_digits false (c ∷ s)

itoa_runs : itoa (pos 120) ≡ codes "120"
unfolding itoa
itoa_runs = refl

atoi_runs :
    (atoi (codes "+01") ≡ some (pos 1))
    × (atoi (codes "-") ≡ none)
    × (atoi (codes "-12") ≡ some (negsuc 11))
unfolding atoi
atoi_runs = (refl, refl, refl)

trim_runs :
    (trim_space (codes "  a b ") ≡ codes "a b")
    × (trim_space (194 ∷ 160 ∷ b'a' ∷ 227 ∷ 128 ∷ 128 ∷ []) ≡ codes "a")
unfolding trim_space
trim_runs = (refl, refl)
