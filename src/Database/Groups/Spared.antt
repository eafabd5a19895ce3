-- ===== src/Database/Groups/Spared.antt =====
-- The queries on the titles of a group leave its owner and members alone.
use aftercredits_backend.Base.{refl, Bool, true, false, Option, none, some, Str, any, if◌then◌else◌}
use aftercredits_backend.Models.{Time, foreign_key_violation}
use aftercredits_backend.Database.Exec.{GroupTitleRow, GroupTitleSeasonRow, Tables, ok, err}
use aftercredits_backend.Database.Rules.{Applied}
use aftercredits_backend.Database.Shapes.{Keeps, Keeps-statement, keeps_rules}
use aftercredits_backend.Database.Ratings.{has_group}
use aftercredits_backend.Database.Groups.{
  title_of, this_season, update_group_title_watched_row, marked, upsert_group_title_season,
  upserted,
}
use aftercredits_backend.Database.Groups.Entries.{
  upsert_group_title, title_upserted, delete_group_title,
}
use aftercredits_backend.Database.Groups.Owners.{
  Test, Spares, Spares-same, Spares-touch_group, Spares-add_group_member,
  Spares-update_group_info_row,
}

module _ (test : Test) where
  pub Spares-delete_group_title :
      (id title_id : Str) → Keeps (Spares test) (delete_group_title id title_id)
  unfolding delete_group_title
  Spares-delete_group_title id title_id = Keeps-statement _ λ t h. Spares-same test t _ refl refl h

  pub Spares-update_group_title_watched_row :
      (group_id title_id : Str) (watched : Bool) (watched_at : Option Time) (at : Time)
      → Keeps (Spares test) (update_group_title_watched_row group_id title_id watched watched_at at)
  unfolding update_group_title_watched_row
  Spares-update_group_title_watched_row group_id title_id watched watched_at at =
      Keeps-statement _ λ t h. go t h _
    where
      go :
          (t : Tables) (h : Spares test t) (o : Option GroupTitleRow)
          → Applied
              (λ _. Spares test)
              (λ _. Spares test)
              t
              (marked group_id title_id watched watched_at at t o)
      go t h none = h
      go t h (some r) = Spares-same test t _ refl refl h

  -- Three ways that an upsert ends.
  upsert_cases :
      (t u v : Tables) (known allowed : Bool)
      → Spares test u
      → Spares test v
      → Spares test t
      → Applied {A = Unit {0}}
          (λ _. Spares test)
          (λ _. Spares test)
          t
          (if known then ok (tt, u) else if allowed then ok (tt, v) else err foreign_key_violation)
  upsert_cases t u v true allowed hu hv h = hu
  upsert_cases t u v false true hu hv h = hv
  upsert_cases t u v false false hu hv h = h

  pub Spares-upsert_group_title :
      (row : GroupTitleRow) → Keeps (Spares test) (upsert_group_title row)
  unfolding upsert_group_title title_upserted
  Spares-upsert_group_title row = Keeps-statement _ λ t h.
      upsert_cases t _ _ (any (title_of row.group_id row.title_id) t.group_titles)
        (has_group row.group_id t) (Spares-same test t _ refl refl h)
        (Spares-same test t _ refl refl h) h

  pub Spares-upsert_group_title_season :
      (row : GroupTitleSeasonRow) → Keeps (Spares test) (upsert_group_title_season row)
  unfolding upsert_group_title_season upserted
  Spares-upsert_group_title_season row = Keeps-statement _ λ t h.
      upsert_cases t _ _
        (any (this_season row.group_id row.title_id row.season) t.group_title_seasons)
        (any (title_of row.group_id row.title_id) t.group_titles) (Spares-same test t _ refl refl h)
        (Spares-same test t _ refl refl h) h

pub ruleset spares = (
  keeps_rules, Spares-touch_group, Spares-add_group_member, Spares-update_group_info_row,
  Spares-delete_group_title, Spares-update_group_title_watched_row, Spares-upsert_group_title,
  Spares-upsert_group_title_season,
)
