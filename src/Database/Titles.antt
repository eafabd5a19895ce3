-- ===== src/Database/Titles.antt =====
-- titles.sql.go
use aftercredits_backend.Base.{Str, str_eq, find}
use aftercredits_backend.Models.{Title, no_rows}
use aftercredits_backend.Database.Exec.{Exec, select, or_raise}

-- SELECT ... FROM titles WHERE id = $1
unfoldable pub get_title_by_id : Str → Exec Title
get_title_by_id id = select λ t. or_raise no_rows (find (λ r. str_eq r.id id) t.titles)
