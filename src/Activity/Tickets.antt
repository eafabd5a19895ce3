-- ===== src/Activity/Tickets.antt =====
-- internal/activity/ticket.go: single-use tickets for the event stream. Issue's random ticket is an
-- argument, and the clock's reading too; the lock makes each method one step.
pub mod Redeeming
use aftercredits_backend.Base.{
  ℕ, ◌+◌, ◌*◌, Bool, true, false, not, Option, none, some, List, [], ◌∷◌, Str, str_eq, ltb,
  if◌then◌else◌, is_some,
}
use aftercredits_backend.Base.Assoc.{Map, lookup, insert, delete}
use aftercredits_backend.Models.{Time}

-- ticketTTL: 60 seconds, in microseconds
abbrev pub ticket_ttl : ℕ
ticket_ttl = 60_000_000

pub record TicketEntry : Type 0 where
  pub user_id : Str
  pub expires_at : Time

abbrev pub TicketStore : Type 0
TicketStore = Map TicketEntry

abbrev pub new_ticket_store : TicketStore
new_ticket_store = []

-- sweepLocked: an entry goes unless it expires after now.
unfoldable pub sweep : Time → TicketStore → TicketStore
sweep at [] = []
sweep at ((t, e) ∷ m) =
    let rest = sweep at m in if not (ltb at e.expires_at) then rest else (t, e) ∷ rest

unfoldable pub issue : Str → Str → Time → TicketStore → TicketStore
unfolding sweep
issue ticket user_id at m =
    insert ticket (record { user_id = user_id; expires_at = at + ticket_ttl }) (sweep at m)

abbrev pub redeemed : Str → TicketStore → Option TicketEntry → Option Str × TicketStore
redeemed ticket m none = (none, m)
redeemed ticket m (some entry) = (some entry.user_id, delete ticket m)

-- The user that the ticket stands for, if it is good.
unfoldable pub redeem : Str → Time → TicketStore → Option Str × TicketStore
unfolding sweep
redeem ticket at m = redeemed ticket (sweep at m) (lookup ticket (sweep at m))
