-- ===== src/Config/Bounds.antt =====
-- What a page's parameters are once they are normalized.
use aftercredits_backend.Base.{
  Bool, true, false, Option, none, some, Str, str_eq, if◌then◌else◌, ℤ, pos, ltb_ℤ, ◌≤ℤ◌, arith, [],
  codes,
}
use aftercredits_backend.Base.Text.{atoi, trim_space}
use aftercredits_backend.Config.{
  positive_or, env_int, default_page_size, max_page_size, or_default, clamp, first_or,
  normalize_page_params,
}

positive_or-positive : (def : ℤ) (o : Option ℤ) → pos 1 ≤ℤ def → pos 1 ≤ℤ positive_or def o
positive_or-positive def none h = h
positive_or-positive def (some n) h = ground arith

env_int-positive :
    (getenv : Str → Str) (key : Str) (def : ℤ) → pos 1 ≤ℤ def → pos 1 ≤ℤ env_int getenv key def
unfolding env_int
env_int-positive getenv key def h = by_blank (str_eq (trim_space (getenv key)) [])
  where
    by_blank :
        (b : Bool) → pos 1 ≤ℤ (if b then def else positive_or def (atoi (trim_space (getenv key))))
    by_blank true = h
    by_blank false = positive_or-positive def (atoi (trim_space (getenv key))) h

clamp-bounds :
    (top size : ℤ)
    → pos 1 ≤ℤ top
    → pos 1 ≤ℤ size
    → (pos 1 ≤ℤ clamp top size) × (clamp top size ≤ℤ top)
clamp-bounds top size t s = ground arith

or_default-positive : (getenv : Str → Str) (size : ℤ) → pos 1 ≤ℤ or_default getenv size
unfolding default_page_size
or_default-positive getenv size =
    let d = env_int-positive getenv (codes "DEFAULT_PAGE_SIZE") (pos 20) (omega arith) in
    by_size (env_int getenv (codes "DEFAULT_PAGE_SIZE") (pos 20)) d
  where
    by_size : (def : ℤ) → pos 1 ≤ℤ def → pos 1 ≤ℤ (if ltb_ℤ size (pos 1) then def else size)
    by_size def d = ground arith

first_or-positive : (page : ℤ) → pos 1 ≤ℤ first_or page
first_or-positive page = ground arith

-- For any environment and any request, the normalized page size lies from 1 to the maximum page
-- size, and the normalized page is at least 1.
pub normalize_page_params-bounds :
    (getenv : Str → Str) (size page : ℤ)
    → (pos 1 ≤ℤ (normalize_page_params getenv size page).0)
      × ((normalize_page_params getenv size page).0 ≤ℤ max_page_size getenv)
      × (pos 1 ≤ℤ (normalize_page_params getenv size page).1)
unfolding normalize_page_params max_page_size
normalize_page_params-bounds getenv size page =
    let top = env_int-positive getenv (codes "MAX_PAGE_SIZE") (pos 100) (omega arith) in
    let (low, high) =
      clamp-bounds _ (or_default getenv size) top (or_default-positive getenv size) in
    (low, high, first_or-positive page)
