-- ===== src/Postgres/Titles.antt =====
-- internal/postgres/titles.go, and notFound of mappers.go
use aftercredits_backend.Base.{Str}
use aftercredits_backend.Models.{
  Error, Title, no_rows, record_not_found, unique_violation, duplicated_record,
}
use aftercredits_backend.Database.Exec.{Exec, map_err}
use aftercredits_backend.Database.Titles

-- pgx.ErrNoRows becomes store.ErrRecordNotFound.
unfoldable pub not_found : Error → Error
not_found no_rows = record_not_found
not_found e = e

-- isUniqueViolation(err): store.ErrDuplicatedRecord
unfoldable pub duplicated : Error → Error
duplicated unique_violation = duplicated_record
duplicated e = e

unfoldable pub get_title_by_id : Str → Exec Title
get_title_by_id id = map_err not_found (Titles.get_title_by_id id)
