-- ===== src/Activity/Event.antt =====
-- models.ActivityEvent (internal/models/activity.go). A payload is known by its JSON text; none is
-- the nil map.
use aftercredits_backend.Base.{ℕ, Bool, Option, Str}
use aftercredits_backend.Models.{Time}

pub record ActivityEvent : Type 0 where
  pub id : Str
  pub seq : ℕ
  pub group_id : Str
  pub group_name : Str
  pub actor_id : Str
  pub actor_name : Str
  pub kind : Str
  pub title_id : Option Str
  pub title_name : Option Str
  pub payload : Option Str
  pub created_at : Time
  pub read : Bool
