-- ===== src/Services/Comments.antt =====
-- internal/services/comments/comments.go, types.go and mapper.go
pub mod Atomicity
pub mod Keyed
pub mod Isolation
use aftercredits_backend.Base.{
  ℕ, Bool, true, false, not, ◌||◌, Option, none, some, List, [], ◌∷◌, Str, if◌then◌else◌, is_some,
  ◌==◌, ℤ, pos, ltb_ℤ, str_eq, length,
}
use aftercredits_backend.Base.Text.{itoa, trim_space}
use aftercredits_backend.Base.Assoc.{Map, lookup, insert, delete}
use aftercredits_backend.Models as M
use aftercredits_backend.Models.{
  is_record_not_found, Error, record_not_found, duplicated_record, comment_already_exists,
  comment_not_found, comment_is_null, season_comment_already_exists, comment_season_required,
  comment_invalid_season, comment_season_does_not_exist, Time, SeasonCommentItem, SeasonsComments,
  Title,
}
use aftercredits_backend.Database.Exec.{
  Result, ok, err, Exec, pure, raise, attempt, map_err, now, ◌>>=◌, ◌>>◌,
}
use aftercredits_backend.Postgres.Comments
use aftercredits_backend.Services.Ratings.{is_series, has_season, season_not_positive}

pub record SeasonComment : Type 0 where
  pub comment : Str
  pub added_at : Time
  pub updated_at : Time

pub record Comment : Type 0 where
  pub id : Str
  pub title_id : Str
  pub user_id : Str
  pub group_id : Str
  pub comment : Option Str
  pub seasons_comments : Option (Map SeasonComment)
  pub created_at : Time
  pub updated_at : Time

pub record NewComment : Type 0 where
  pub group_id : Str
  pub title_id : Str
  pub comment : Str
  pub season : Option ℤ

pub record UpdateCommentRequest : Type 0 where
  pub comment : Str
  pub season : Option ℤ

abbrev pub convert_items : SeasonsComments → Map SeasonComment
convert_items [] = []
convert_items ((k, item) ∷ m) =
    (k, record { comment = item.comment; added_at = item.added_at; updated_at = item.updated_at })
    ∷ convert_items m

abbrev pub convert_seasons_comments : Option SeasonsComments → Option (Map SeasonComment)
convert_seasons_comments none = none
convert_seasons_comments (some m) = some (convert_items m)

unfoldable pub map_db_comment_to_api_comment : M.Comment → Comment
map_db_comment_to_api_comment c = record {
  id = c.id;
  title_id = c.title_id;
  user_id = c.user_id;
  group_id = c.group_id;
  comment = c.comment;
  seasons_comments = convert_seasons_comments c.seasons_comments;
  created_at = c.created_at;
  updated_at = c.updated_at;
}

abbrev map_comments : List M.Comment → List Comment
map_comments [] = []
map_comments (c ∷ cs) = map_db_comment_to_api_comment c ∷ map_comments cs

unfoldable pub get_comments_by_title_id : Str → Str → Exec (List Comment)
get_comments_by_title_id group_id title_id = do
  comments_db ← Comments.get_comments_by_title_id title_id group_id
  pure (map_comments comments_db)

unfoldable pub missing_comment : Error → Error
missing_comment record_not_found = comment_not_found
missing_comment e = e

unfoldable pub existing_comment : Error → Error
existing_comment duplicated_record = comment_already_exists
existing_comment e = e

unfoldable pub existing_season : Error → Error
existing_season duplicated_record = season_comment_already_exists
existing_season e = e

-- strings.TrimSpace(text) == ""
unfoldable pub is_blank : Str → Bool
is_blank text = str_eq (trim_space text) []

abbrev pub empty_comment : M.Comment
empty_comment = record {
  id = [];
  title_id = [];
  user_id = [];
  group_id = [];
  comment = none;
  seasons_comments = none;
  created_at = 0;
  updated_at = 0;
}

unfoldable pub add_comment_for_movie : NewComment → Str → Exec Comment
add_comment_for_movie new user_id = do
  comment ← map_err existing_comment (
      Comments.add_comment (record empty_comment {
        title_id = new.title_id;
        user_id = user_id;
        group_id = new.group_id;
        comment = some new.comment;
      }))
  pure (map_db_comment_to_api_comment comment)

abbrev pub new_item : Str → Time → SeasonCommentItem
new_item text at = record { comment = text; added_at = at; updated_at = at }

abbrev pub commented : Str → Option SeasonsComments → Bool
commented key none = false
commented key (some m) = is_some (lookup key m)

-- The seasons with one more: a new map, or the one that was read.
abbrev pub with_season : Str → SeasonCommentItem → Option SeasonsComments → SeasonsComments
with_season key item none = (key, item) ∷ []
with_season key item (some m) = insert key item m

-- Step 4
unfoldable pub create_with_season : NewComment → Str → Str → Exec Comment
create_with_season new user_id key = do
  at ← now
  comment ← map_err existing_season (
      Comments.add_comment (record empty_comment {
        title_id = new.title_id;
        user_id = user_id;
        group_id = new.group_id;
        seasons_comments = some (with_season key (new_item new.comment at) none);
      }))
  pure (map_db_comment_to_api_comment comment)

-- Step 5
unfoldable pub extend_with_season : NewComment → Str → Str → M.Comment → Exec Comment
extend_with_season new user_id key existing = do
  at ← now
  if commented key existing.seasons_comments then raise season_comment_already_exists else do
    comment ←
        Comments.update_comment
          (record existing {
            seasons_comments =
                some (with_season key (new_item new.comment at) existing.seasons_comments);
          })
          user_id
    pure (map_db_comment_to_api_comment comment)

-- The steps after the lookup; its error is returned before the season is checked.
unfoldable pub add_season : NewComment → Str → Title → Str → Result M.Comment → Exec Comment
unfolding create_with_season extend_with_season
add_season new user_id title key (ok existing) =
    if not (has_season key title)
    then raise comment_season_does_not_exist
    else extend_with_season new user_id key existing
add_season new user_id title key (err e) =
    if not (is_record_not_found e)
    then raise e
    else if not (has_season key title)
    then raise comment_season_does_not_exist
    else create_with_season new user_id key

unfoldable pub add_comment_for_season : NewComment → Str → Title → Option ℤ → Exec Comment
unfolding add_season
add_comment_for_season new user_id title none = raise comment_season_required
add_comment_for_season new user_id title (some n) = do
  existing ← attempt (Comments.get_user_comment_by_title_id new.title_id user_id new.group_id)
  add_season new user_id title (itoa n) existing

unfoldable pub add_comment_for_tv_series : NewComment → Str → Title → Exec Comment
unfolding add_comment_for_season
add_comment_for_tv_series new user_id title = add_comment_for_season new user_id title new.season

unfoldable pub add_comment : NewComment → Str → Title → Exec Comment
unfolding add_comment_for_tv_series add_comment_for_movie
add_comment new user_id title =
    if is_blank new.comment
    then raise comment_is_null
    else if season_not_positive new.season
    then raise comment_invalid_season
    else if is_series title
    then add_comment_for_tv_series new user_id title
    else add_comment_for_movie new user_id

unfoldable pub update_comment_for_movie :
    Str → Str → Str → UpdateCommentRequest → Title → Exec Comment
update_comment_for_movie group_id comment_id user_id req title = do
  existing ←
      map_err missing_comment (Comments.get_user_comment_by_title_id title.id user_id group_id)
  if not (str_eq existing.id comment_id) then raise comment_not_found else do
    updated ← map_err missing_comment (
        Comments.update_comment
          (record empty_comment { id = existing.id; comment = some req.comment }) user_id)
    pure (map_db_comment_to_api_comment updated)

abbrev pub season_item : Str → Option SeasonsComments → Option SeasonCommentItem
season_item key none = none
season_item key (some m) = lookup key m

abbrev pub seasons_or_empty : Option SeasonsComments → SeasonsComments
seasons_or_empty none = []
seasons_or_empty (some m) = m

-- Steps 5 and 6, from the season's stored item.
unfoldable pub rewrite_season :
    Str → Str → Str → M.Comment → Option SeasonCommentItem → Exec Comment
rewrite_season user_id text key existing none = raise comment_not_found
rewrite_season user_id text key existing (some item) = do
  at ← now
  updated ←
      Comments.update_comment
        (record empty_comment {
          id = existing.id;
          seasons_comments = some (
              insert key (record { comment = text; added_at = item.added_at; updated_at = at })
                (seasons_or_empty existing.seasons_comments));
        })
        user_id
  pure (map_db_comment_to_api_comment updated)

unfoldable pub update_comment_season :
    Str → Str → Str → UpdateCommentRequest → Title → Option ℤ → Exec Comment
unfolding rewrite_season
update_comment_season group_id comment_id user_id req title none = raise comment_season_required
update_comment_season group_id comment_id user_id req title (some n) = do
  existing ←
      map_err missing_comment (Comments.get_user_comment_by_title_id title.id user_id group_id)
  if not (str_eq existing.id comment_id)
      then raise comment_not_found
      else rewrite_season user_id req.comment (itoa n) existing
          (season_item (itoa n) existing.seasons_comments)

unfoldable pub update_comment_for_tv_series :
    Str → Str → Str → UpdateCommentRequest → Title → Exec Comment
unfolding update_comment_season
update_comment_for_tv_series group_id comment_id user_id req title =
    update_comment_season group_id comment_id user_id req title req.season

unfoldable pub update_comment : Str → Str → Str → UpdateCommentRequest → Title → Exec Comment
unfolding update_comment_for_tv_series update_comment_for_movie
update_comment group_id comment_id user_id req title =
    if is_blank req.comment
    then raise comment_is_null
    else if season_not_positive req.season
    then raise comment_invalid_season
    else if is_series title
    then update_comment_for_tv_series group_id comment_id user_id req title
    else update_comment_for_movie group_id comment_id user_id req title

unfoldable pub delete_comment : Str → Str → Str → Exec ℕ
delete_comment comment_id user_id group_id = Comments.delete_comment comment_id user_id group_id

-- The seasons that are left: the comment goes with the last one.
unfoldable pub store_remaining : Str → Str → M.Comment → SeasonsComments → Exec (Unit {0})
store_remaining user_id group_id existing [] = do
  deleted ← Comments.delete_comment existing.id user_id group_id
  if deleted == 0 then raise comment_not_found else pure tt
store_remaining user_id group_id existing (x ∷ m) = do
  map_err missing_comment (
      Comments.update_comment
        (record empty_comment {
          id = existing.id;
          comment = existing.comment;
          seasons_comments = some (x ∷ m);
        })
        user_id)
  pure tt

unfoldable pub delete_comment_season : Str → Str → Str → ℤ → Title → Exec (Unit {0})
unfolding store_remaining
delete_comment_season group_id comment_id user_id season title =
    if ltb_ℤ season (pos 1)
    then raise comment_invalid_season
    else if not (is_series title)
    then raise comment_season_does_not_exist
    else if not (has_season (itoa season) title)
    then raise comment_season_does_not_exist
    else do
      existing ←
          map_err missing_comment (Comments.get_user_comment_by_title_id title.id user_id group_id)
      if not (str_eq existing.id comment_id)
          then raise comment_not_found
          else if not (commented (itoa season) existing.seasons_comments)
          then raise comment_not_found
          else store_remaining user_id group_id existing
              (delete (itoa season) (seasons_or_empty existing.seasons_comments))
