-- ===== src/Config.antt =====
-- internal/config/config.go: the pagination settings. The environment, os.Getenv, is an argument;
-- an `int` has 64 bits.
pub mod Bounds
use aftercredits_backend.Base.{
  ℕ, Bool, true, false, not, Option, none, some, Str, str_eq, codes, if◌then◌else◌, ℤ, pos, ltb_ℤ,
  [],
}
use aftercredits_backend.Base.Text.{atoi, trim_space}

abbrev pub positive_or : ℤ → Option ℤ → ℤ
positive_or def none = def
positive_or def (some n) = if ltb_ℤ (pos 0) n then n else def

unfoldable pub env_int : (Str → Str) → Str → ℤ → ℤ
env_int getenv key def =
    let v = trim_space (getenv key) in if str_eq v [] then def else positive_or def (atoi v)

unfoldable pub default_page_size : (Str → Str) → ℤ
default_page_size getenv = env_int getenv (codes "DEFAULT_PAGE_SIZE") (pos 20)

unfoldable pub max_page_size : (Str → Str) → ℤ
max_page_size getenv = env_int getenv (codes "MAX_PAGE_SIZE") (pos 100)

abbrev pub or_default : (Str → Str) → ℤ → ℤ
or_default getenv size = if ltb_ℤ size (pos 1) then default_page_size getenv else size

abbrev pub clamp : ℤ → ℤ → ℤ
clamp top size = if ltb_ℤ top size then top else size

abbrev pub first_or : ℤ → ℤ
first_or page = if ltb_ℤ page (pos 1) then pos 1 else page

unfoldable pub normalize_page_params : (Str → Str) → ℤ → ℤ → ℤ × ℤ
normalize_page_params getenv size page =
    (clamp (max_page_size getenv) (or_default getenv size), first_or page)
