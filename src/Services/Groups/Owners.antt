-- ===== src/Services/Groups/Owners.antt =====
-- The owner of a group stays one of its members.
use aftercredits_backend.Base.{
  ◌≡◌, Bool, true, not, ◌||◌, Option, none, some, List, [], ◌∷◌, Str, str_eq, ℤ, arith,
}
use aftercredits_backend.Models.{Time, Title, GroupTitleItem}
use aftercredits_backend.Database.Exec.{GroupRow, GroupTitleSeasonRow, Result, ok, err}
use aftercredits_backend.Database.Shapes.{Keeps, Keeps-bind, keeps_rules}
use aftercredits_backend.Database.Users as U
use aftercredits_backend.Database.Groups as Q
use aftercredits_backend.Database.Groups.Members
use aftercredits_backend.Database.Groups.Entries
use aftercredits_backend.Database.Groups.Owners.{Test, passes, Spares, Spares-remove_group_member}
use aftercredits_backend.Database.Groups.Spared.{spares}
use aftercredits_backend.Postgres.Users as PU
use aftercredits_backend.Postgres.Groups as P
use aftercredits_backend.Postgres.Groups.{update_movie}
use aftercredits_backend.Postgres.Groups.Members as Store
use aftercredits_backend.Services.Users.{update_user_group}
use aftercredits_backend.Services.Groups.{
  load_group, update_group_info, add_user_to_group, add_title_to_group, remove_title_from_group,
  remove_group_from_users,
}
use aftercredits_backend.Services.Groups.Watched.{
  movie_in_group, season_in_group, store_movie, store_season, update_group_title_watched,
  update_group_title_watched_for_movie, update_group_title_watched_for_tv_series,
}

module _ (test : Test) where
  pub Spares-load : (group_id user_id : Str) → Keeps (Spares test) (load_group group_id user_id)
  unfolding load_group Store.get_group_by_id Store.assemble_group_titles Q.get_group_row
      Members.get_group_member_ids Entries.get_group_title_rows Entries.get_group_title_season_rows
  Spares-load group_id user_id = search keeps_rules depth 14

  pub Spares-store_rename :
      (id name description : Str)
      → Keeps (Spares test) (Store.update_group_info id name description)
  unfolding Store.update_group_info
  Spares-store_rename id name description = search spares depth 9

  pub Spares-rename :
      (group_id user_id name description : Str)
      → Keeps (Spares test) (update_group_info group_id user_id name description)
  unfolding update_group_info
  Spares-rename group_id user_id name description =
      search (keeps_rules, Spares-load, Spares-store_rename) depth 12

  pub Spares-joined_user :
      (user_id group_id : Str) → Keeps (Spares test) (update_user_group user_id group_id)
  unfolding update_user_group PU.update_user_group PU.get_user_by_id PU.load_user U.get_user_by_id
      U.get_user_group_ids
  Spares-joined_user user_id group_id = search spares depth 14

  pub Spares-store_invite :
      (group_id user_id other : Str)
      → Keeps (Spares test) (Store.add_user_to_group group_id user_id other)
  unfolding Store.add_user_to_group Store.add_user_tx Members.group_has_member
  Spares-store_invite group_id user_id other = search spares depth 12

  pub Spares-invite :
      (group_id user_id other : Str)
      → Keeps (Spares test) (add_user_to_group group_id user_id other)
  unfolding add_user_to_group
  Spares-invite group_id user_id other =
      search (keeps_rules, Spares-load, Spares-store_invite, Spares-joined_user) depth 12

  pub Spares-add_title :
      (group_id title_id user_id : Str)
      → Keeps (Spares test) (add_title_to_group group_id title_id user_id)
  unfolding add_title_to_group Store.add_new_group_title Store.add_title_tx
  Spares-add_title group_id title_id user_id = search (spares, Spares-load) depth 14

  pub Spares-drop_title :
      (group_id title_id user_id : Str)
      → Keeps (Spares test) (remove_title_from_group group_id title_id user_id)
  unfolding remove_title_from_group Store.remove_title_from_group Store.remove_title_tx
      Members.group_has_member
  Spares-drop_title group_id title_id user_id = search (spares, Spares-load) depth 16

  pub Spares-update_movie :
      (group_id title_id : Str) (watched : Option Bool) (watched_at : Option (Option Time))
      → Keeps
          (Spares test)
          (P.update_group_title_watched_for_movie group_id title_id watched watched_at)
  unfolding P.update_group_title_watched_for_movie P.update_movie_tx Q.get_group_title_row
      Q.get_group_title_season_rows_for_title
  Spares-update_movie group_id title_id none none = search spares depth 14
  Spares-update_movie group_id title_id (some b) at = search spares depth 14
  Spares-update_movie group_id title_id none (some d) = search spares depth 14

  pub Spares-movie :
      (group_id title_id : Str) (watched : Option Bool) (watched_at : Option (Option Time))
      (o : Option GroupTitleItem)
      → Keeps (Spares test) (movie_in_group group_id title_id watched watched_at o)
  unfolding store_movie
  Spares-movie group_id title_id watched watched_at none = search keeps_rules
  Spares-movie group_id title_id watched watched_at (some item) =
      search (keeps_rules, Spares-update_movie) depth 9

  pub Spares-stored_season :
      (group_id title_id season : Str) (at : Time) (r : Result GroupTitleSeasonRow)
      → Keeps (Spares test) (P.stored_season group_id title_id season at r)
  unfolding P.stored_season
  Spares-stored_season group_id title_id season at (ok row) = search keeps_rules
  Spares-stored_season group_id title_id season at (err e) = search keeps_rules depth 9

  pub Spares-recompute :
      (group_id title_id : Str) (at : Time)
      → Keeps (Spares test) (P.recompute_title group_id title_id at)
  unfolding P.recompute_title Q.get_group_title_season_rows_for_title
  Spares-recompute group_id title_id at = search spares depth 14

  pub Spares-update_season :
      (group_id title_id : Str) (watched : Option Bool) (watched_at : Option (Option Time))
      (season : ℤ) (user_id : Str)
      → Keeps (Spares test) (
          P.update_group_title_watched_for_tv_series group_id title_id watched watched_at season
            user_id)
  unfolding P.update_group_title_watched_for_tv_series P.update_season_tx Q.get_group_row
      Q.get_group_title_row Q.get_group_title_season_row
  Spares-update_season group_id title_id watched watched_at season user_id =
      search (spares, Spares-stored_season, Spares-recompute) depth 20

  pub Spares-season :
      (group_id title_id : Str) (watched : Option Bool) (watched_at : Option (Option Time))
      (season : ℤ) (user_id : Str) (o : Option GroupTitleItem)
      → Keeps (Spares test) (season_in_group group_id title_id watched watched_at season user_id o)
  unfolding store_season
  Spares-season group_id title_id watched watched_at season user_id none = search keeps_rules
  Spares-season group_id title_id watched watched_at season user_id (some item) =
      search (keeps_rules, Spares-update_season) depth 9

  pub Spares-watch :
      (group_id user_id : Str) (title : Title) (watched : Option Bool)
      (watched_at : Option (Option Time)) (season : Option ℤ)
      → Keeps
          (Spares test)
          (update_group_title_watched group_id title user_id watched watched_at season)
  unfolding update_group_title_watched update_group_title_watched_for_movie
      update_group_title_watched_for_tv_series
  Spares-watch group_id user_id title watched watched_at none =
      search (keeps_rules, Spares-load, Spares-movie) depth 9
  Spares-watch group_id user_id title watched watched_at (some season) =
      search (keeps_rules, Spares-load, Spares-season) depth 12

  -- Members who own no undeleted group of that id may go.
  pub Spares-remove_members :
      (group_id : Str) (users : List Str)
      → ((g : GroupRow) → passes test g ≡ true → (g.deleted || not (str_eq g.id group_id)) ≡ true)
      → Keeps (Spares test) (remove_group_from_users group_id users)
  unfolding remove_group_from_users PU.remove_group_from_user
  Spares-remove_members group_id [] free = search keeps_rules
  Spares-remove_members group_id (user_id ∷ users) free =
      let rest = Spares-remove_members group_id users free in
      Keeps-bind _ _
        (Spares-remove_group_member test group_id user_id (λ g p. ground (arith, free g p)))
        (λ _. rest)
