-- ===== src/Models.antt =====
-- internal/models, internal/store/errors.go and the sentinel errors of the services. Ids, names
-- and season keys are Go strings; a time is a number of microseconds; a pointer is an `Option`.
use aftercredits_backend.Base.{ℕ, ℤ, Str, Bool, true, false, Option, List}
use aftercredits_backend.Base.Assoc.{Map}

pub data Error : Type 0 where
  -- the driver's errors
  query_failed no_rows unique_violation foreign_key_violation numeric_overflow : Error
  -- store.ErrRecordNotFound, store.ErrDuplicatedRecord, fmt.Errorf("no fields to update")
  record_not_found duplicated_record no_fields_to_update : Error
  -- internal/services/ratings/utils.go
  rating_already_exists rating_not_found invalid_note_value note_too_precise : Error
  season_required invalid_season_value season_does_not_exist season_rating_already_exists : Error
  -- internal/services/comments/utils.go
  comment_already_exists comment_not_found comment_is_null season_comment_already_exists : Error
  comment_season_required comment_invalid_season comment_season_does_not_exist : Error
  -- internal/services/groups/utils.go
  group_not_found group_duplicated_name group_name_invalid group_not_owned_by_user : Error
  owner_cannot_leave_group title_not_in_group title_already_in_group : Error
  updating_watched_at_when_watched_is_false : Error
  group_invalid_season group_season_does_not_exist : Error
  -- internal/services/activity/utils.go
  event_not_found invalid_ticket : Error
  -- internal/services/users/utils.go
  credentials_already_exists invalid_email invalid_username_size invalid_username : Error
  invalid_password user_not_found : Error

-- errors.Is(err, store.ErrRecordNotFound)
unfoldable pub is_record_not_found : Error → Bool
is_record_not_found record_not_found = true
is_record_not_found _ = false

-- A note in millionths, which stands for the float64 nearest to it: one decimal place is `tenth`.
abbrev pub Note : Type 0
Note = ℤ

abbrev pub tenth : ℕ
tenth = 100_000

abbrev pub Time : Type 0
Time = ℕ

-- models.SeasonRatingItem
pub record SeasonRatingItem : Type 0 where
  pub rating : Note
  pub added_at : Time
  pub updated_at : Time

abbrev pub SeasonsRatings : Type 0
SeasonsRatings = Map SeasonRatingItem

-- models.UserRating
pub record UserRating : Type 0 where
  pub id : Str
  pub title_id : Str
  pub seasons_ratings : Option SeasonsRatings
  pub user_id : Str
  pub group_id : Str
  pub note : Note
  pub created_at : Time
  pub updated_at : Time

-- models.SeasonCommentItem
pub record SeasonCommentItem : Type 0 where
  pub comment : Str
  pub added_at : Time
  pub updated_at : Time

abbrev pub SeasonsComments : Type 0
SeasonsComments = Map SeasonCommentItem

-- models.Comment
pub record Comment : Type 0 where
  pub id : Str
  pub title_id : Str
  pub user_id : Str
  pub group_id : Str
  pub comment : Option Str
  pub seasons_comments : Option SeasonsComments
  pub created_at : Time
  pub updated_at : Time

-- models.Seasons, models.Title: the fields that the services of this development read
pub record Season : Type 0 where
  pub season : Str
  pub episode_count : ℕ

pub record Title : Type 0 where
  pub id : Str
  pub type : Str
  pub primary_title : Str
  pub seasons : List Season

-- models.SeasonWatchedItem
pub record SeasonWatchedItem : Type 0 where
  pub watched : Bool
  pub watched_at : Option Time
  pub added_at : Time
  pub updated_at : Time

abbrev pub SeasonsWatched : Type 0
SeasonsWatched = Map SeasonWatchedItem

-- models.GroupTitleItem
pub record GroupTitleItem : Type 0 where
  pub title_id : Str
  pub seasons_watched : Option SeasonsWatched
  pub watched : Bool
  pub added_at : Time
  pub updated_at : Time
  pub watched_at : Option Time

abbrev pub GroupTitles : Type 0
GroupTitles = Map GroupTitleItem

-- models.Group
pub record Group : Type 0 where
  pub id : Str
  pub name : Str
  pub description : Str
  pub owner_id : Str
  pub users : List Str
  pub titles : GroupTitles
  pub created_at : Time
  pub updated_at : Time
  pub deleted : Bool
  pub deleted_at : Option Time

-- models.User
pub record User : Type 0 where
  pub id : Str
  pub name : Str
  pub email : Str
  pub username : Str
  pub password_hash : Str
  pub avatar_url : Option Str
  pub groups : List Str
  pub role : Str
  pub is_active : Bool
  pub last_login_at : Option Time
  pub created_at : Time
  pub updated_at : Time
