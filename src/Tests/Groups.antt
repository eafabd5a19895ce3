-- ===== src/Tests/Groups.antt =====
-- The watched state of a series in a group, and requests on groups.
use aftercredits_backend.Base.{
  ◌≡◌, refl, false, none, some, List, [], ◌∷◌, Str, codes, pos, any, find, filter, str_eq,
  update_where,
}
use aftercredits_backend.Base.Text.{itoa}
use aftercredits_backend.Base.Assoc.{insert}
use aftercredits_backend.Models.{is_record_not_found, GroupTitleItem}
use aftercredits_backend.Database.Exec.{
  World, Result, ok, pure, raise, select, statement, in_tx, attempt, map_err, now, ◌>>=◌,
}
use aftercredits_backend.Database.Groups as Q
use aftercredits_backend.Postgres.Titles.{not_found}
use aftercredits_backend.Postgres.Groups.{
  update_group_title_watched_for_tv_series, group_title_row_to_model, assemble_seasons_watched,
}
use aftercredits_backend.Postgres.Groups.Recompute.{
  TitleAgrees, update_group_title_watched_for_tv_series-TitleAgrees,
}
use aftercredits_backend.Database.Users.{member}
use aftercredits_backend.Database.Groups.Owners.{HasOwners}
use aftercredits_backend.Services.Groups.Access.{invite, leave, remove}
use aftercredits_backend.Services.Groups.Requests.{
  GroupCall, create, on, serve_calls, serve_calls-HasOwners,
}
use aftercredits_backend.Tests.Fixtures.{ann, bob, friends, group_world}

-- The season was watched and is no longer.
abbrev unwatched : Result GroupTitleItem × World
unwatched =
    update_group_title_watched_for_tv_series friends (codes "s") (some false) (some none) (pos 1)
      ann group_world

abbrev item_after : GroupTitleItem
item_after = record {
  title_id = codes "s";
  seasons_watched = some (
      (codes "1", record { watched = false; watched_at = none; added_at = 1; updated_at = 3 })
      ∷ []);
  watched = false;
  added_at = 1;
  updated_at = 3;
  watched_at = none;
}

unwatched_runs : unwatched.0 ≡ ok item_after
unfolding update_group_title_watched_for_tv_series ◌>>=◌ pure raise select statement in_tx attempt
    map_err now any find filter str_eq update_where not_found is_record_not_found itoa insert
    Q.get_group_row Q.get_group_title_row Q.get_group_title_season_row
    Q.get_group_title_season_rows_for_title Q.upsert_group_title_season
    Q.update_group_title_watched_row Q.touch_group Q.title_of Q.season_of_title Q.this_season
    group_title_row_to_model assemble_seasons_watched
unwatched_runs = refl

update_group_title_watched_for_tv_series-TitleAgrees_example :
    TitleAgrees friends (codes "s") unwatched.1.db
update_group_title_watched_for_tv_series-TitleAgrees_example =
    update_group_title_watched_for_tv_series-TitleAgrees friends (codes "s") (some false)
      (some none) (pos 1) ann group_world unwatched_runs

-- Ann founds a group, invites Bob and tries to leave; Bob leaves, and Ann deletes a group.
abbrev requests : List (Str × GroupCall)
requests =
    (ann, create (record { name = codes "films"; description = [] }))
    ∷ (ann, on friends (invite bob))
    ∷ (ann, on friends leave)
    ∷ (bob, on friends leave)
    ∷ (ann, on friends remove)
    ∷ []

group_world-HasOwners : HasOwners group_world.db
unfolding any str_eq member
group_world-HasOwners = record { ids = (refl, tt); owners = (refl, tt) }

serve_calls-HasOwners_example : HasOwners (serve_calls group_world requests).db
serve_calls-HasOwners_example = serve_calls-HasOwners group_world requests group_world-HasOwners
