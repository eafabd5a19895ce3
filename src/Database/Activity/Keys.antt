-- ===== src/Database/Activity/Keys.antt =====
-- The keys of activity_events: its primary key and UNIQUE (seq).
use aftercredits_backend.Base.{
  ◌≡◌, refl, Bool, false, ◌||◌, inl, inr, Bool-cases, List, [], ◌∷◌, Str, str_eq, str_eq_iff, any,
  ◌==◌, arith,
}
use aftercredits_backend.Base.Distinct.{Distinct, Distinct-append}
use aftercredits_backend.Database.Exec.{EventRow, Tables}
use aftercredits_backend.Database.Rules.{Applied}
use aftercredits_backend.Database.Ratings.{has_group}
use aftercredits_backend.Database.Shapes.{Keeps, Keeps-statement, Keeps-bind, Keeps-nextval}
use aftercredits_backend.Database.Activity.{
  event_checked, insert_activity_event_row, notify_activity_event,
}

abbrev pub same_id : EventRow → EventRow → Bool
same_id y e = str_eq y.id e.id

abbrev pub same_seq : EventRow → EventRow → Bool
same_seq y e = y.seq == e.seq

pub record HasEventKeys (t : Tables) : Type 0 where
  pub ids : Distinct same_id t.activity_events
  pub seqs : Distinct same_seq t.activity_events

apart :
    (row : EventRow) (es : List EventRow)
    → any (λ e. str_eq e.id row.id || e.seq == row.seq) es ≡ false
    → (any (same_id row) es ≡ false) × (any (same_seq row) es ≡ false)
unfolding any
apart row [] h = (refl, refl)
apart row (e ∷ es) h = ground (arith, apart row es, str_eq_iff e.id row.id, str_eq_iff row.id e.id)

checked-HasEventKeys :
    (row : EventRow) (t : Tables)
    → HasEventKeys t
    → Applied (λ _. HasEventKeys) (λ _. HasEventKeys) t (event_checked row t)
unfolding event_checked
checked-HasEventKeys row t k =
    elim (Bool-cases (any (λ e. str_eq e.id row.id || e.seq == row.seq) t.activity_events)) [
      | inl e ↦ rw e k
      | inr e ↦ rw e (elim (Bool-cases (has_group row.group_id t)) [
        | inl g ↦ rw g (record {
          ids =
              Distinct-append same_id t.activity_events row k.ids (apart row t.activity_events e).0;
          seqs =
              Distinct-append same_seq t.activity_events row k.seqs
                (apart row t.activity_events e).1;
        })
        | inr g ↦ rw g k
      ])
    ]

pub Keeps-insert_activity_event_row :
    (row : EventRow) → Keeps HasEventKeys (insert_activity_event_row row)
unfolding insert_activity_event_row
Keeps-insert_activity_event_row row =
    Keeps-bind _ _ Keeps-nextval
      λ seq. Keeps-statement _ λ t k. checked-HasEventKeys (record row { seq = seq }) t k

pub Keeps-notify_activity_event : (id : Str) → Keeps HasEventKeys (notify_activity_event id)
unfolding notify_activity_event
Keeps-notify_activity_event id = Keeps-statement _ λ t k. record { ids = k.ids; seqs = k.seqs }
