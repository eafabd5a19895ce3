-- ===== src/Lib.antt =====
-- The backend of a group film diary (the Go program under internal/): ratings and comments that
-- the members of a group leave on titles, and the activity feed that shows them to each other.
--
-- A request reaches a service (internal/services), which reads and writes through the store
-- (internal/postgres), whose methods run the generated queries (internal/database) on the tables
-- of sql/schema. The activity hub (internal/activity) passes recorded events on to the clients
-- that listen, each of which has presented a ticket.
--
-- Which file models which part, with the source's names in snake_case:
--   Base        lists, text, maps and numbers that the parts share
--   Models      internal/models, and the sentinel errors of internal/store and internal/services
--   Database    internal/database: Exec has the rows, the tables and the actions that queries and
--               transactions are (inTx of internal/postgres/store.go is in_tx); Titles, Ratings,
--               Comments, Groups (with Groups/Members and Groups/Entries), Users and Activity have
--               the queries of the .sql.go file of that name; Rules and Shapes have the rules to
--               reason about actions
--   Postgres    internal/postgres: Titles, Ratings, Comments, Users, Groups (the updates of a
--               title's watched state; Groups/Members has the other methods), Activity (with the
--               loop of listen.go), and Paging for pageOffset
--   Services    internal/services: Ratings with Ratings/Write, Comments, Users, Groups with
--               Groups/Watched, and Activity (the feed, its marks and the stream)
--   Activity    internal/activity: Hub for hub.go, Tickets for ticket.go, Recorder for activity.go; Event
--               is the event of internal/models
--   Server      internal/server/activity_middleware.go, in Recording
--   Config      internal/config: the pagination settings
--   Tests       the theorems at concrete inputs
--
-- How state and operations correspond to the code:
--   - an operation is an action: a function from the world (the tables, the environment and a
--     count of the interactions so far) to a result or an error and the next world. The
--     environment gives each clock reading, each uuid.NewString and, for each query, begin and
--     commit, whether it fails. A failed commit has written nothing.
--   - a query's SQL is written out on lists of rows in insertion order, with the primary keys,
--     unique keys, foreign keys and cascades of sql/schema. Requests run one after another.
--   - a note or a rating is a whole number of millionths, which stands for the float64 nearest to
--     it; the ratings service computes with float64s (Base/Float), and the columns round to
--     NUMERIC(3,1). A note with more than six decimal places is not represented. A time is a
--     number of microseconds. A text is its bytes.
--   - a Go map is an association list; overallNote adds in an order that the environment tells,
--     and elsewhere the order in which the code ranges over a map is the list's. An int is a
--     signed whole number; pageOffset and the limit of GetFeed keep the wrap-around of 64 bits.
--   - the hub's lock and the ticket store's make each of their methods one step.
-- itoa is by recursion on fuel: a number's value plus one round is more than it has digits. Trimming a
-- text takes at most a round for each byte. The spacing of float64s is sought in 1074 doublings, which
-- reach every value below 2^53.
--
-- A BIGSERIAL takes its values, and ORDER BY on a text its order, from the environment: the first need
-- not rise, and a value in use violates UNIQUE. What pg_notify sends is a list that a rollback takes
-- back. The join of activity_visible_events is on primary keys and is written as a test of the event.
-- A payload of an event is known by its JSON text. The hash of a password is an argument.
-- Pages are read by recursion on fuel: one request more than there are visible events is enough.
--
-- Not modelled: the pages of a group's titles and its single title, the titles service and the title
-- providers, the HTTP handlers, the other middleware and authentication, migrations
-- and start-up (input and output, or calls of other libraries). Logging is left out of what is
-- modelled.
pub mod Base
pub mod Models
pub mod Database
pub mod Postgres
pub mod Services
pub mod Activity
pub mod Config
pub mod Server
mod Tests
