-- ===== src/Tests/Fixtures.antt =====
-- A small database: one group, a movie and a series.
use aftercredits_backend.Base.{
  ℕ, true, false, none, some, [], ◌∷◌, Str, codes, ◌==◌, pos, any, str_eq, refl, arith,
}
use aftercredits_backend.Models.{Title}
use aftercredits_backend.Database.Exec.{
  RatingRow, RatingSeasonRow, CommentRow, CommentSeasonRow, GroupRow, Tables, World,
}
use aftercredits_backend.Database.Ratings.Notes.{HasNotes}
use aftercredits_backend.Database.Comments as C
use aftercredits_backend.Database.Comments.Keys.{HasCommentKeys}

abbrev pub ann : Str
ann = codes "ann"

abbrev pub bob : Str
bob = codes "bob"

abbrev pub friends : Str
friends = codes "g1"

abbrev pub movie : Title
movie = record { id = codes "m"; type = codes "movie"; primary_title = codes "Alien"; seasons = [] }

abbrev pub series : Title
series = record {
  id = codes "s";
  type = codes "tvSeries";
  primary_title = codes "Lost";
  seasons = record { season = codes "1"; episode_count = 9 } ∷ [];
}

abbrev pub group_row : GroupRow
group_row = record {
  id = friends;
  name = codes "friends";
  description = [];
  owner_id = ann;
  deleted = false;
  deleted_at = none;
  created_at = 0;
  updated_at = 0;
}

abbrev pub rating_row : RatingRow
rating_row = record {
  id = codes "r1";
  title_id = codes "s";
  user_id = ann;
  note = pos 7_000_000;
  created_at = 1;
  updated_at = 1;
  group_id = friends;
}

abbrev pub rating_season_row : RatingSeasonRow
rating_season_row = record {
  rating_id = codes "r1";
  season = codes "1";
  rating = pos 7_000_000;
  added_at = 1;
  updated_at = 1;
}

abbrev pub comment_row : CommentRow
comment_row = record {
  id = codes "c1";
  title_id = codes "s";
  user_id = ann;
  comment = none;
  created_at = 1;
  updated_at = 1;
  group_id = friends;
}

abbrev pub comment_season_row : CommentSeasonRow
comment_season_row = record {
  comment_id = codes "c1";
  season = codes "1";
  comment = codes "good";
  added_at = 1;
  updated_at = 1;
}

abbrev pub tables : Tables
tables = record {
  titles = movie ∷ series ∷ [];
  ratings = rating_row ∷ [];
  rating_seasons = rating_season_row ∷ [];
  comments = comment_row ∷ [];
  comment_seasons = comment_season_row ∷ [];
  groups = group_row ∷ [];
  group_members = [];
  group_titles = [];
  group_title_seasons = [];
  users = [];
  activity_events = [];
  activity_event_reads = [];
  activity_read_floors = [];
  notified = [];
}

-- The database's call number `fault` fails.
abbrev pub world : ℕ → World
world fault = record {
  db = tables;
  env = record {
    now = λ n. n;
    new_string = λ n. n ∷ [];
    nextval = λ n. n;
    text_lt = λ a b. false;
    range_order = λ n. n;
    fails = λ n. n == fault;
  };
  tick = 0;
}

pub tables-HasNotes : HasNotes tables
tables-HasNotes = record {
  notes = ((70, refl, omega arith), tt);
  seasons = ((70, refl, omega arith), tt);
}

pub tables-HasCommentKeys : HasCommentKeys tables
unfolding any str_eq C.same_key C.season_of
tables-HasCommentKeys = record { comments = (refl, tt); seasons = (refl, tt); owned = (refl, tt) }

-- The series is in the group, with a season that was watched.
abbrev pub group_world : World
group_world = record (world 99) {
  db = record tables {
    group_members = record { group_id = friends; user_id = ann } ∷ [];
    group_titles =
        record {
          group_id = friends;
          title_id = codes "s";
          watched = true;
          watched_at = some 5;
          added_at = 1;
          updated_at = 1;
        }
        ∷ [];
    group_title_seasons =
        record {
          group_id = friends;
          title_id = codes "s";
          season = codes "1";
          watched = true;
          watched_at = some 5;
          added_at = 1;
          updated_at = 1;
        }
        ∷ [];
  };
}
