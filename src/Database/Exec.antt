-- ===== src/Database/Exec.antt =====
-- The tables, and the methods of database.Queries as actions on them. Any query may fail with the
-- driver's error; clock readings and new ids come from the environment. `in_tx` is
-- postgres/store.go.
use aftercredits_backend.Base.{ℕ, suc, Bool, Option, none, some, List, Str, if◌then◌else◌}
use aftercredits_backend.Models.{Error, query_failed, Note, Time, Title}

-- database.Rating, database.RatingSeason (internal/database/models.go)
pub record RatingRow : Type 0 where
  pub id : Str
  pub title_id : Str
  pub user_id : Str
  pub note : Note
  pub created_at : Time
  pub updated_at : Time
  pub group_id : Str

pub record RatingSeasonRow : Type 0 where
  pub rating_id : Str
  pub season : Str
  pub rating : Note
  pub added_at : Time
  pub updated_at : Time

-- database.Comment, database.CommentSeason
pub record CommentRow : Type 0 where
  pub id : Str
  pub title_id : Str
  pub user_id : Str
  pub comment : Option Str
  pub created_at : Time
  pub updated_at : Time
  pub group_id : Str

pub record CommentSeasonRow : Type 0 where
  pub comment_id : Str
  pub season : Str
  pub comment : Str
  pub added_at : Time
  pub updated_at : Time

-- database.Group, database.GroupMember, database.GroupTitle, database.GroupTitleSeason
pub record GroupRow : Type 0 where
  pub id : Str
  pub name : Str
  pub description : Str
  pub owner_id : Str
  pub deleted : Bool
  pub deleted_at : Option Time
  pub created_at : Time
  pub updated_at : Time

pub record MemberRow : Type 0 where
  pub group_id : Str
  pub user_id : Str

pub record GroupTitleRow : Type 0 where
  pub group_id : Str
  pub title_id : Str
  pub watched : Bool
  pub watched_at : Option Time
  pub added_at : Time
  pub updated_at : Time

pub record GroupTitleSeasonRow : Type 0 where
  pub group_id : Str
  pub title_id : Str
  pub season : Str
  pub watched : Bool
  pub watched_at : Option Time
  pub added_at : Time
  pub updated_at : Time

-- database.User
pub record UserRow : Type 0 where
  pub id : Str
  pub name : Str
  pub email : Str
  pub username : Str
  pub password_hash : Str
  pub avatar_url : Option Str
  pub role : Str
  pub is_active : Bool
  pub last_login_at : Option Time
  pub created_at : Time
  pub updated_at : Time

-- database.ActivityEvent, database.ActivityEventRead, database.ActivityReadFloor
pub record EventRow : Type 0 where
  pub id : Str
  pub seq : ℕ
  pub group_id : Str
  pub actor_id : Str
  pub actor_name : Str
  pub kind : Str
  pub title_id : Option Str
  pub title_name : Option Str
  pub payload : Str
  pub created_at : Time

pub record EventReadRow : Type 0 where
  pub user_id : Str
  pub event_id : Str
  pub read_at : Time

pub record ReadFloorRow : Type 0 where
  pub user_id : Str
  pub floor_seq : ℕ
  pub read_at : Time

-- Each table lists its rows, oldest first. A title's row holds its metadata. `notified` lists what
-- pg_notify sent on the channel activity_events; a rollback takes it back.
pub record Tables : Type 0 where
  pub titles : List Title
  pub ratings : List RatingRow
  pub rating_seasons : List RatingSeasonRow
  pub comments : List CommentRow
  pub comment_seasons : List CommentSeasonRow
  pub groups : List GroupRow
  pub group_members : List MemberRow
  pub group_titles : List GroupTitleRow
  pub group_title_seasons : List GroupTitleSeasonRow
  pub users : List UserRow
  pub activity_events : List EventRow
  pub activity_event_reads : List EventReadRow
  pub activity_read_floors : List ReadFloorRow
  pub notified : List Str

-- What the process cannot choose, at each of its interactions: time.Now, uuid.NewString, the
-- next value of a BIGSERIAL, and whether a call to the database fails. `text_lt` is the order of
-- texts in the database's collation, and range_order tells the order in which a map is ranged over.
pub record Env : Type 0 where
  pub now : ℕ → Time
  pub new_string : ℕ → Str
  pub nextval : ℕ → ℕ
  pub text_lt : Str → Str → Bool
  pub range_order : ℕ → ℕ
  pub fails : ℕ → Bool

pub record World : Type 0 where
  pub db : Tables
  pub env : Env
  pub tick : ℕ

pub data Result {ℓ} (A : Type ℓ) : Type ℓ where
  ok : A → Result A
  err : Error → Result A

abbrev pub Exec : Type 0 → Type 0
Exec A = World → Result A × World

abbrev pub next : World → World
next w = record w { tick = suc w.tick }

module _ {A : Type 0} where
  unfoldable pub pure : A → Exec A
  pure a w = (ok a, w)

  unfoldable pub raise : Error → Exec A
  raise e w = (err e, w)

  abbrev pub or_raise : Error → Option A → Result A
  or_raise e none = err e
  or_raise e (some a) = ok a

  -- A query that reads.
  unfoldable pub select : (Tables → Result A) → Exec A
  select f w = if w.env.fails w.tick then (err query_failed, next w) else (f w.db, next w)

  abbrev pub applied : Result (A × Tables) → World → Result A × World
  applied (ok (a, t)) w = (ok a, record w { db = t })
  applied (err e) w = (err e, w)

  -- A statement that writes; one that fails has written nothing.
  unfoldable pub statement : (Tables → Result (A × Tables)) → Exec A
  statement f w =
      if w.env.fails w.tick then (err query_failed, next w) else applied (f w.db) (next w)

  abbrev pub committed : Tables → Result A × World → Result A × World
  committed before (err e, w) = (err e, record w { db = before })
  committed before (ok a, w) =
      if w.env.fails w.tick
      then (err query_failed, record w { db = before; tick = suc w.tick })
      else (ok a, next w)

  -- (s *Store) inTx: Begin and Commit may fail, and every failure rolls back.
  unfoldable pub in_tx : Exec A → Exec A
  in_tx body w =
      if w.env.fails w.tick then (err query_failed, next w) else committed w.db (body (next w))

  -- `x, err := m`: the code goes on with either.
  unfoldable pub attempt : Exec A → Exec (Result A)
  attempt m w = let (r, w') = m w in (ok r, w')

  abbrev pub with_error : (Error → Error) → Result A → Result A
  with_error f (ok a) = ok a
  with_error f (err e) = err (f e)

  -- `if err != nil { return f(err) }`
  unfoldable pub map_err : (Error → Error) → Exec A → Exec A
  map_err f m w = let (r, w') = m w in (with_error f r, w')

-- time.Now()
unfoldable pub now : Exec Time
now w = (ok (w.env.now w.tick), next w)

-- uuid.NewString()
unfoldable pub new_string : Exec Str
new_string w = (ok (w.env.new_string w.tick), next w)

-- The DEFAULT of a BIGSERIAL column.
unfoldable pub nextval : Exec ℕ
nextval w = (ok (w.env.nextval w.tick), next w)

-- What ORDER BY on a text column sorts by.
unfoldable pub collation : Exec (Str → Str → Bool)
collation w = (ok w.env.text_lt, w)

-- The order of the next range over a map.
unfoldable pub range_order : Exec ℕ
range_order w = (ok (w.env.range_order w.tick), w)

module _ {A B : Type 0} where
  abbrev pub continue : (A → Exec B) → Result A × World → Result B × World
  continue f (ok a, w) = f a w
  continue f (err e, w) = (err e, w)

  infixl 5 ◌>>=◌ ◌>>◌
  unfoldable pub ◌>>=◌ : Exec A → (A → Exec B) → Exec B
  ◌>>=◌ m f w = continue f (m w)

  abbrev pub ◌>>◌ : Exec A → Exec B → Exec B
  m >> n = m >>= λ _. n
