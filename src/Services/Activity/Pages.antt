-- ===== src/Services/Activity/Pages.antt =====
-- A client that follows nextBefore reads the whole feed.
use mathlib.Core.Path.{fun_ext}
use mathlib.Core.List.{append_assoc, map-append}
use aftercredits_backend.Base.{
  ℕ, zero, suc, ◌<◌, ◌≤◌, ◌≡◌, refl, sym, subst, ap, ◌∙◌, true, false, inl, inr, Bool-cases, ltb→lt,
  Option, none, some, List, [], ◌∷◌, ◌++◌, map, Str, filter, length, length-append, ltb, ◌==◌, ℤ,
  pos, negsuc, ◌≤ℤ◌, ltb_ℤ, arith,
}
use aftercredits_backend.Base.Int.{◌+ℤ◌}
use aftercredits_backend.Base.Distinct.{Distinct, Distinct-filter}
use aftercredits_backend.Base.Cutting.{take-map, take-take, length-take, Cut, cut}
use aftercredits_backend.Base.Sorting.{
  take, take-all, Descending, descending, sort, filter-sort, filter-after, sort-Descending,
  length-sort,
}
use aftercredits_backend.Database.Exec.{
  EventRow, Tables, Env, World, Result, ok, err, Exec, pure, select, ◌>>=◌, continue,
}
use aftercredits_backend.Database.Activity.{
  visible_events, feed_row, before_cursor, newest_first, get_activity_feed_rows,
}
use aftercredits_backend.Database.Activity.Keys.{HasEventKeys}
use aftercredits_backend.Activity.Event.{ActivityEvent}
use aftercredits_backend.Config.{normalize_page_params}
use aftercredits_backend.Config.Bounds.{normalize_page_params-bounds}
use aftercredits_backend.Postgres.Paging.{max_int64, to_int64-small}
use aftercredits_backend.Postgres.Activity.{activity_event_row_to_model, get_activity_feed}
use aftercredits_backend.Services.Activity.{
  Event, map_db_event_to_api_event, last_seq, page_of, get_feed,
}

-- What the reader of a feed gets of an event.
unfoldable pub shown : Str → Tables → EventRow → Event
shown user_id t e = map_db_event_to_api_event (activity_event_row_to_model (feed_row user_id t e))

-- Every event that the user may see, newest first.
unfoldable pub whole_feed : Str → Tables → List Event
unfolding shown
whole_feed user_id t = map (shown user_id t) (newest_first (visible_events user_id t))

abbrev followed : List Event → Option (List Event) → Option (List Event)
followed events none = none
followed events (some rest) = some (events ++ rest)

-- The client asks for the page at nextBefore as long as there is more; none when it gives up.
pub read_pages : ℕ → (Str → Str) → Str → Option ℤ → ℤ → Exec (Option (List Event))
read_pages zero getenv user_id before limit = pure none
read_pages (suc fuel) getenv user_id before limit = do
  feed ← get_feed getenv user_id before limit
  elim feed.has_more [
    | false ↦ pure (some feed.events)
    | true ↦ (do
      rest ← read_pages fuel getenv user_id feed.next_before limit
      pure (followed feed.events rest))
  ]

module _ (user_id : Str) (t : Tables) where
  abbrev models : List EventRow → List ActivityEvent
  models es = map activity_event_row_to_model (map (feed_row user_id t) es)

  events_shown :
      (es : List EventRow) → map map_db_event_to_api_event (models es) ≡ map (shown user_id t) es
  unfolding shown
  events_shown [] = refl
  events_shown (e ∷ es) = ap (λ xs. shown user_id t e ∷ xs) (events_shown es)

  length-models : (es : List EventRow) → length (models es) ≡ length es
  length-models [] = refl
  length-models (e ∷ es) = ap suc (length-models es)

  last_seq-shown :
      (es : List EventRow) (e : EventRow)
      → last_seq (map (shown user_id t) (es ++ e ∷ [])) ≡ some (pos e.seq)
  unfolding last_seq shown map_db_event_to_api_event activity_event_row_to_model feed_row
  last_seq-shown [] e = refl
  last_seq-shown (d ∷ []) e = refl
  last_seq-shown (d ∷ c ∷ es) e = last_seq-shown (c ∷ es) e

  last_page :
      (limit : ℕ) (es : List EventRow)
      → length es ≤ limit
      → page_of limit (models (take (suc limit) es))
        ≡ record { events = map (shown user_id t) es; next_before = none; has_more = false }
  unfolding page_of
  last_page limit es h =
      let all : take (suc limit) es ≡ es = take-all (suc limit) es (omega arith) in
      let len = length-models es in
      let fits : ltb limit (length (models es)) ≡ false = ground arith in
      rw (all, fits, events_shown es) refl

  page_models :
      (k : ℕ) (es : List EventRow) → take k (models (take (suc k) es)) ≡ models (take k es)
  page_models k es =
      take-map activity_event_row_to_model k (map (feed_row user_id t) (take (suc k) es))
      ∙ ap (map activity_event_row_to_model) (take-map (feed_row user_id t) k (take (suc k) es))
      ∙ ap models (take-take k es)

  full_page :
      (k : ℕ) (es : List EventRow) (c : Cut k es)
      → suc k < length es
      → page_of (suc k) (models (take (suc (suc k)) es)) ≡ record {
        events = map (shown user_id t) (c.init ++ c.last ∷ []);
        next_before = some (pos c.last.seq);
        has_more = true;
      }
  unfolding page_of
  full_page k es c h =
      let len : length (models (take (suc (suc k)) es)) ≡ suc (suc k) =
        length-models (take (suc (suc k)) es) ∙ length-take (suc (suc k)) es (omega arith) in
      let more : ltb (suc k) (length (models (take (suc (suc k)) es))) ≡ true = ground arith in
      let events : map map_db_event_to_api_event (take (suc k) (models (take (suc (suc k)) es)))
          ≡ map (shown user_id t) (c.init ++ c.last ∷ []) =
        ap (map map_db_event_to_api_event) (page_models (suc k) es)
        ∙ events_shown (take (suc k) es)
        ∙ ap (map (shown user_id t)) c.page in
      rw (more, events, last_seq-shown c.init c.last) refl

-- When no call to the database fails.
module _ (env : Env) (calm : (n : ℕ) → env.fails n ≡ false) (t : Tables) where
  abbrev world_at : ℕ → World
  world_at n = record { db = t; env = env; tick = n }

  select_calm :
      {A : Type 0} (f : Tables → Result A) (n : ℕ) → select f (world_at n) ≡ (f t, world_at (suc n))
  unfolding select
  select_calm f n = rw (calm n) refl

  -- The rows that a cursor leaves, in the order of the feed.
  abbrev left : Str → Option ℤ → List EventRow
  left user_id before = newest_first (filter (before_cursor before) (visible_events user_id t))

  succ_ℤ : (m : ℕ) → pos m +ℤ pos 1 ≡ pos (suc m)
  unfolding ◌+ℤ◌
  succ_ℤ m = ground arith

  get_feed_calm :
      (getenv : Str → Str) (user_id : Str) (before : Option ℤ) (limit : ℤ) (k n : ℕ)
      → (normalize_page_params getenv limit (pos 1)).0 ≡ pos (suc k)
      → suc (suc k) ≤ max_int64
      → get_feed getenv user_id before limit (world_at n) ≡ (
        ok (page_of (suc k) (models user_id t (take (suc (suc k)) (left user_id before)))),
        world_at (suc n),
      )
  unfolding get_feed get_activity_feed get_activity_feed_rows pure ◌>>=◌ page_of
  get_feed_calm getenv user_id before limit k n e fits =
      rw (e, succ_ℤ (suc k), to_int64-small (suc (suc k)) fits, select_calm) refl

  cursor_left :
      (user_id : Str) (pre : List EventRow) (x : EventRow) (rest : List EventRow)
      → Distinct (λ y e. y.seq == e.seq) (visible_events user_id t)
      → newest_first (visible_events user_id t) ≡ pre ++ x ∷ rest
      → left user_id (some (pos x.seq)) ≡ rest
  unfolding newest_first
  cursor_left user_id pre x rest d e =
      let below : (λ (y : EventRow). ltb_ℤ (pos y.seq) (pos x.seq)) ≡ (λ y. ltb y.seq x.seq) =
        fun_ext (λ y. ground arith) in
      let vis = visible_events user_id t in
      let down : Descending (λ y. y.seq) (pre ++ x ∷ rest) =
        subst (Descending (λ y. y.seq)) e (sort-Descending (λ y. y.seq) vis d) in
      ap (λ p. sort (descending (λ y. y.seq)) (filter p vis)) below
      ∙ sym (filter-sort (λ y. y.seq) x.seq vis)
      ∙ ap (filter (λ y. ltb y.seq x.seq)) e
      ∙ filter-after (λ y. y.seq) pre x rest down

  continue-followed :
      (events : List Event) (x : Result (Option (List Event)) × World) {r : List Event}
      → x.0 ≡ ok (some r)
      → (continue (λ rest. pure (followed events rest)) x).0 ≡ ok (some (events ++ r))
  unfolding pure
  continue-followed events (ok (some r'), w) h = ground arith
  continue-followed events (ok none, w) h = absurd (ground arith)
  continue-followed events (err e, w) h = absurd (ground arith)

  module _ (getenv : Str → Str) (user_id : Str) (limit : ℤ) (k : ℕ)
      (size : (normalize_page_params getenv limit (pos 1)).0 ≡ pos (suc k))
      (fits : suc (suc k) ≤ max_int64)
      (keyed : Distinct (λ y e. y.seq == e.seq) (visible_events user_id t)) where
    read_from :
        (fuel n : ℕ) (before : Option ℤ) (pre es : List EventRow)
        → newest_first (visible_events user_id t) ≡ pre ++ es
        → left user_id before ≡ es
        → length es < fuel
        → (read_pages fuel getenv user_id before limit (world_at n)).0
          ≡ ok (some (map (shown user_id t) es))
    unfolding read_pages ◌>>=◌ pure
    read_from zero n before pre es whole cursor h = absurd (omega arith)
    read_from (suc fuel) n before pre es whole cursor h =
        rw (get_feed_calm getenv user_id before limit k n size fits, cursor)
          (elim (Bool-cases (ltb (suc k) (length es))) [
            | inl more ↦
                (let c = cut k es (ground arith) in
                  let parts : es ≡ (c.init ++ c.last ∷ []) ++ c.rest =
                    c.whole ∙ sym (append_assoc c.init (c.last ∷ []) c.rest) in
                  let len = ap length parts ∙ length-append (c.init ++ c.last ∷ []) c.rest in
                  let len' = length-append c.init (c.last ∷ []) in
                  let shorter : length c.rest < fuel = omega arith in
                  let whole' =
                    whole
                    ∙ ap (λ xs. pre ++ xs) parts
                    ∙ sym (append_assoc pre (c.init ++ c.last ∷ []) c.rest) in
                  let split : newest_first (visible_events user_id t)
                      ≡ (pre ++ c.init) ++ c.last ∷ c.rest =
                    whole
                    ∙ ap (λ xs. pre ++ xs) c.whole
                    ∙ sym (append_assoc pre c.init (c.last ∷ c.rest)) in
                  let ih =
                    read_from fuel (suc n) (some (pos c.last.seq)) (pre ++ (c.init ++ c.last ∷ []))
                      c.rest whole' (cursor_left user_id (pre ++ c.init) c.last c.rest keyed split)
                      shorter in
                  let joined =
                    sym (map-append (shown user_id t) (c.init ++ c.last ∷ []) c.rest)
                    ∙ ap (map (shown user_id t)) (sym parts) in
                  rw (full_page user_id t k es c (ltb→lt _ _ more)) (
                    continue-followed (map (shown user_id t) (c.init ++ c.last ∷ []))
                      (read_pages fuel getenv user_id (some (pos c.last.seq)) limit
                        (world_at (suc n)))
                      ih
                    ∙ ap (λ xs. ok (some xs)) joined))
            | inr done ↦ rw (last_page user_id t (suc k) es (ground arith)) refl
          ])

  all_left : (es : List EventRow) → filter (before_cursor none) es ≡ es
  unfolding filter
  all_left [] = refl
  all_left (e ∷ es) = ap (λ xs. e ∷ xs) (all_left es)

  -- When no call to the database fails, the log's sequence numbers and ids are distinct and the
  -- normalized page size is at most 2^63 - 2, a client that asks for the feed page by page, each
  -- time before the nextBefore of the last page until there is no more, is done within one
  -- request more than there are visible events, and has then received every event that the user
  -- may see exactly once, newest first.
  pub read_pages-whole_feed :
      (n fuel : ℕ) (getenv : Str → Str) (user_id : Str) (limit : ℤ)
      → HasEventKeys t
      → (normalize_page_params getenv limit (pos 1)).0 ≤ℤ pos 9_223_372_036_854_775_806
      → length (visible_events user_id t) < fuel
      → (read_pages fuel getenv user_id none limit (world_at n)).0
        ≡ ok (some (whole_feed user_id t))
  unfolding whole_feed visible_events newest_first
  read_pages-whole_feed n fuel getenv user_id limit keys page h =
      let bounds = normalize_page_params-bounds getenv limit (pos 1) in
      let (k, size) = positive (normalize_page_params getenv limit (pos 1)).0 bounds.0 in
      let fits : suc (suc k) ≤ max_int64 = below k size page in
      let len = length-sort (descending (λ e. e.seq)) (visible_events user_id t) in
      read_from getenv user_id limit k size fits
        (Distinct-filter (λ y e. y.seq == e.seq) _ t.activity_events keys.seqs) fuel n none []
        (newest_first (visible_events user_id t)) refl
        (ap newest_first (all_left (visible_events user_id t))) (omega arith)
    where
      positive : (z : ℤ) → pos 1 ≤ℤ z → (k : ℕ) × (z ≡ pos (suc k))
      positive (pos zero) h = absurd (omega arith)
      positive (pos (suc k)) h = (k, refl)
      positive (negsuc m) h = absurd (omega arith)

      below :
          {z : ℤ} (k : ℕ)
          → z ≡ pos (suc k)
          → z ≤ℤ pos 9_223_372_036_854_775_806
          → suc (suc k) ≤ max_int64
      below k e h = let l = subst (λ z. z ≤ℤ pos 9_223_372_036_854_775_806) e h in omega arith
