-- ===== src/Tests/Feed.antt =====
-- The hub, the tickets, notes and paging.
use aftercredits_backend.Base.{
  ℕ, suc, Option, round_div, ◌*◌, false, ◌≡◌, refl, none, some, [], ◌∷◌, codes, str_eq, pos, ◌≤ℤ◌,
  arith, leb, if◌then◌else◌,
}
use aftercredits_backend.Base.Int.{◌+ℤ◌}
use aftercredits_backend.Base.Float.{nearest_float, float_one, times_float, add_float}
use aftercredits_backend.Base.Shuffling.{shuffled}
use aftercredits_backend.Base.Assoc.{lookup}
use aftercredits_backend.Models.{SeasonRatingItem, SeasonsRatings, note_too_precise}
use aftercredits_backend.Database.Exec.{ok, err}
use aftercredits_backend.Activity.Event.{ActivityEvent}
use aftercredits_backend.Activity.Hub.{Hub, Subscriber, new_hub, subscribe, publish}
use aftercredits_backend.Activity.Hub.Delivery.{at, Published, at-publish}
use aftercredits_backend.Activity.Hub.Safety.{
  Reach, start, and_then, subscribes, publishes, IsSafe, Reach-IsSafe,
}
use aftercredits_backend.Activity.Tickets.{issue, redeem, new_ticket_store}
use aftercredits_backend.Activity.Tickets.Redeeming.{
  issues, redeems, use_all, redeem-issued, redeem-once, redeem-expired,
}
use aftercredits_backend.Services.Ratings.{validate_note, overall_note}
use aftercredits_backend.Services.Ratings.Notes.{Tenths, overall_note-Between}
use aftercredits_backend.Services.Ratings.Precision.{Verdict, validate_note-Verdict}
use aftercredits_backend.Postgres.Paging.{page_offset, max_int64, page_offset-exact}
use aftercredits_backend.Config.{normalize_page_params, max_page_size}
use aftercredits_backend.Config.Bounds.{normalize_page_params-bounds}
use aftercredits_backend.Tests.Fixtures.{ann, bob, friends}

abbrev pub rated_event : ActivityEvent
rated_event = record {
  id = codes "e";
  seq = 1;
  group_id = friends;
  group_name = codes "friends";
  actor_id = bob;
  actor_name = codes "Bob";
  kind = codes "rating.added";
  title_id = some (codes "m");
  title_name = some (codes "Alien");
  payload = none;
  created_at = 0;
  read = false;
}

abbrev listening : Hub
listening = (subscribe ann (friends ∷ []) new_hub).0

abbrev ann_listening : Subscriber
ann_listening = record { address = 0; user_id = ann; group_ids = friends ∷ []; events = [] }

abbrev told : Hub
told = publish rated_event listening

told-Reach : Reach told
told-Reach =
    and_then (and_then start (subscribes ann (friends ∷ []) refl)) (publishes rated_event refl)

Reach-IsSafe_example : IsSafe told
Reach-IsSafe_example = Reach-IsSafe told-Reach

at-publish_example :
    (s' : Subscriber) × (at 0 (publish rated_event listening).subscribers ≡ some s')
    × Published rated_event ann_listening s'
unfolding at subscribe
at-publish_example = at-publish rated_event 0 listening ann_listening refl

redeem-issued_example :
    (redeem (codes "t") 50_000_000 (
      use_all
        (issue (codes "t") ann 0 new_ticket_store)
        ((10, issues (codes "x") bob) ∷ (20, redeems (codes "x")) ∷ []))).0
    ≡ some ann
unfolding str_eq
redeem-issued_example =
    redeem-issued (codes "t") ann 0 50_000_000 new_ticket_store
      ((10, issues (codes "x") bob) ∷ (20, redeems (codes "x")) ∷ [])
      ((omega arith, refl), ((omega arith, refl), tt)) (omega arith)

redeem-once_example :
    (redeem (codes "t") 30 (
      use_all
        (redeem (codes "t") 10 (issue (codes "t") ann 0 new_ticket_store)).1
        ((20, issues (codes "x") bob) ∷ []))).0
    ≡ none
unfolding str_eq
redeem-once_example =
    redeem-once (codes "t") 10 30 (issue (codes "t") ann 0 new_ticket_store)
      ((20, issues (codes "x") bob) ∷ []) (refl, tt)

redeem-expired_example :
    (redeem
      (codes "t")
      60_000_000
      (use_all (issue (codes "t") ann 0 new_ticket_store) ((20, issues (codes "x") bob) ∷ []))).0
    ≡ none
unfolding str_eq lookup
redeem-expired_example =
    redeem-expired (codes "t") ann 0 60_000_000 new_ticket_store ((20, issues (codes "x") bob) ∷ [])
      refl (refl, tt) (omega arith)

-- The float64 nearest to 7.5001 is refused, the one nearest to 6.0001 is not.
validate_runs :
    (validate_note (pos 7_500_100) ≡ err note_too_precise)
    × (validate_note (pos 6_000_100) ≡ ok tt)
    × (validate_note (pos 7_500_050) ≡ ok tt)
unfolding validate_note round_div nearest_float float_one times_float
validate_runs = (refl, refl, refl)

validate_note-Verdict_example : Verdict 7_500_100 (validate_note (pos 7_500_100))
validate_note-Verdict_example = validate_note-Verdict 7_500_100

abbrev item : ℕ → SeasonRatingItem
item n = record { rating = pos n; added_at = 1; updated_at = 1 }

abbrev two : ℕ → ℕ → Option SeasonsRatings
two a b = some ((codes "1", item a) ∷ (codes "2", item b) ∷ [])

-- The sum of 5.1 and 5.8 is below 10.9, and that of 8.1 and 8.2 below 16.3.
overall_runs :
    (overall_note 0 (two 5_100_000 5_800_000) ≡ pos 5_400_000)
    × (overall_note 0 (two 8_100_000 8_200_000) ≡ pos 8_100_000)
    × (overall_note 0 (two 5_000_000 9_000_000) ≡ pos 7_000_000)
unfolding overall_note round_div times_float shuffled add_float ◌+ℤ◌ float_one
overall_runs = (refl, refl, refl)

overall_note-Between_example : Tenths 50 90 (overall_note 1 (two 5_000_000 9_000_000))
overall_note-Between_example =
    overall_note-Between 5 9 1 (codes "1", item 5_000_000) ((codes "2", item 9_000_000) ∷ [])
      ((omega arith, omega arith), ((omega arith, omega arith), tt))

page_offset-exact_example :
    page_offset (pos (suc 19)) (pos (suc 2))
    ≡ (if leb (suc 19 * 2) max_int64 then some (pos (suc 19 * 2)) else none)
page_offset-exact_example = page_offset-exact 19 2 (omega arith)

normalize_page_params-bounds_example :
    (pos 1 ≤ℤ (normalize_page_params (λ _. codes "7") (pos 0) (pos 3)).0)
    × ((normalize_page_params (λ _. codes "7") (pos 0) (pos 3)).0 ≤ℤ max_page_size (λ _. codes "7"))
    × (pos 1 ≤ℤ (normalize_page_params (λ _. codes "7") (pos 0) (pos 3)).1)
normalize_page_params-bounds_example = normalize_page_params-bounds (λ _. codes "7") (pos 0) (pos 3)
