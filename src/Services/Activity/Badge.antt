-- ===== src/Services/Activity/Badge.antt =====
-- The count of unread events, and marking all as read.
use mathlib.Core.Path.{fun_ext}
use aftercredits_backend.Base.{
  ℕ, ◌≡◌, refl, sym, ap, ◌∙◌, subst, true, not, ◌&&◌, inl, inr, List, [], ◌∷◌, map, Str,
  str_eq_refl, any, filter, length, ltb, arith,
}
use aftercredits_backend.Base.Sorting.{length-filter-sort, descending}
use aftercredits_backend.Database.Exec.{EventRow, Tables, World, Result, ok, err, select}
use aftercredits_backend.Database.Rules.{Outcome}
use aftercredits_backend.Database.Activity as Q
use aftercredits_backend.Database.Activity.{
  visible_events, visible_to, is_read, max_seq, newest_first, feed_row, floor_of, reads,
}
use aftercredits_backend.Database.Activity.Keys.{HasEventKeys}
use aftercredits_backend.Database.Activity.Reading.{Among, max_seq-above}
use aftercredits_backend.Database.Activity.Marking.{Among-filter, Adds}
use aftercredits_backend.Postgres.Activity as Store
use aftercredits_backend.Services.Activity.{
  Event, map_db_event_to_api_event, mark_all_read, get_unread_count,
}
use aftercredits_backend.Services.Activity.Pages.{shown, whole_feed}
use aftercredits_backend.Services.Activity.Marks.{
  all, marks, serve_mark, mark_hoare, visible_events-Adds,
}

-- What the feed shows as not read.
abbrev pub unread : List Event → ℕ
unread es = length (filter (λ e. not e.read) es)

shown_read :
    (user_id : Str) (t : Tables) (e : EventRow) → (shown user_id t e).read ≡ is_read user_id t e
unfolding shown map_db_event_to_api_event Store.activity_event_row_to_model feed_row
shown_read user_id t e = refl

unread-shown :
    (user_id : Str) (t : Tables) (es : List EventRow)
    → unread (map (shown user_id t) es) ≡ length (filter (λ e. not (is_read user_id t e)) es)
unfolding filter
unread-shown user_id t [] = refl
unread-shown user_id t (e ∷ es) = ground (arith, unread-shown user_id t es, shown_read user_id t e)

selected :
    {A : Type 0} (f : Tables → A) (w : World) {n : A}
    → (select (λ t. ok (f t)) w).0 ≡ ok n
    → n ≡ f w.db
unfolding select
selected f w h = ground arith

-- The predicate of the count is the feed's read_by_me, negated.
not_read :
    (user_id : Str) (t : Tables) (e : EventRow)
    → (ltb (floor_of user_id t.activity_read_floors) e.seq
        && not (any (reads user_id e.id) t.activity_event_reads))
      ≡ not (is_read user_id t e)
unfolding is_read
not_read user_id t e = ground arith

-- Whenever the count of unread events is answered, it is the number of events of the user's
-- whole feed that the feed shows as not read.
pub get_unread_count-whole_feed :
    (user_id : Str) (w : World) {n : ℕ}
    → (get_unread_count user_id w).0 ≡ ok n
    → n ≡ unread (whole_feed user_id w.db)
unfolding get_unread_count Store.get_activity_unread_count Q.count_activity_unread whole_feed
    newest_first
get_unread_count-whole_feed user_id w {n} h =
    let counted = selected _ w h in
    let seen = fun_ext (not_read user_id w.db) in
    counted
    ∙ ap (λ p. length (filter p (visible_events user_id w.db))) seen
    ∙ sym (
        length-filter-sort (descending (λ e. e.seq)) (λ e. not (is_read user_id w.db e))
          (visible_events user_id w.db))
    ∙ sym (unread-shown user_id w.db (newest_first (visible_events user_id w.db)))

none_unread :
    (user_id : Str) (t : Tables) (es : List EventRow)
    → ((e : EventRow) → Among e es → is_read user_id t e ≡ true)
    → length (filter (λ e. not (is_read user_id t e)) es) ≡ 0
unfolding filter
none_unread user_id t [] h = refl
none_unread user_id t (e ∷ es) h =
    ground (arith, none_unread user_id t es (λ x m. h x (inr m)), h e (inl refl))

unread_rows :
    (user_id : Str) (t : Tables)
    → unread (whole_feed user_id t)
      ≡ length (filter (λ e. not (is_read user_id t e)) (visible_events user_id t))
unfolding whole_feed newest_first
unread_rows user_id t =
    unread-shown user_id t (newest_first (visible_events user_id t))
    ∙ length-filter-sort (descending (λ e. e.seq)) (λ e. not (is_read user_id t e))
        (visible_events user_id t)

cleared :
    (user_id : Str) (t t' : Tables)
    → Adds user_id (marks t all user_id) t t'
    → unread (whole_feed user_id t') ≡ 0
unfolding visible_events
cleared user_id t t' a =
    unread_rows user_id t' ∙ none_unread user_id t' (visible_events user_id t') read
  where
    read : (e : EventRow) → Among e (visible_events user_id t') → is_read user_id t' e ≡ true
    read e m =
        let seen =
          subst (Among e) (visible_events-Adds user_id user_id (marks t all user_id) t t' a) m in
        let below = max_seq-above e (visible_events user_id t) seen in
        let row = Among-filter (visible_to user_id t) e t.activity_events seen in
        let own = str_eq_refl user_id in ground (arith, a.read user_id e row)

-- Over a log with distinct ids and sequence numbers, after a user has marked all as read, the
-- user's whole feed shows no event as not read.
pub mark_all_read-cleared :
    (user_id : Str) (w : World) {u : Unit {0}}
    → HasEventKeys w.db
    → (mark_all_read user_id w).0 ≡ ok u
    → unread (whole_feed user_id (mark_all_read user_id w).1.db) ≡ 0
unfolding serve_mark
mark_all_read-cleared user_id w {u} keys done =
    by_result (mark_all_read user_id w) done ((mark_hoare w.db keys (user_id, all)).at w refl)
  where
    by_result :
        (x : Result (Unit {0}) × World)
        → x.0 ≡ ok u
        → Outcome (λ _ s. Adds user_id (marks w.db all user_id) w.db s) (λ _ s. s ≡ w.db) x
        → unread (whole_feed user_id x.1.db) ≡ 0
    by_result (ok _, w') e o = cleared user_id w.db w'.db o
    by_result (err _, w') e o = absurd (ground arith)
