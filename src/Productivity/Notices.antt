-- ===== src/Productivity/Notices.antt =====
-- Backend/app/api/v1/productivity.py: the routes of notification triggers, of the digest and of the
-- state of synchronization, with the triggers of Backend/app/models/notification.py.
use life_merge.Base.{
  ℕ, Bool, false, ◌||◌, Option, some, List, [], ◌∷◌, ◌++◌, String, str_eq, ◌==◌, leb, ltb, length,
  select, if◌then◌else◌,
}
use life_merge.Base.Result.{Result, ok, raise, type_error, value_error, ◌>>=◌}
use life_merge.Planner.Time.{DateTime}
use life_merge.Repositories.{Columns}
use life_merge.Repositories.Models.{InboxItem, CalendarEvent}
use life_merge.Productivity.{Orm, invalid_body, add}

pub record NotificationTrigger : Type 0 where
  pub id : ℕ
  pub user_id : ℕ
  pub entity : String
  pub entity_id : ℕ
  pub lead_minutes : ℕ
  pub remind_at : ℕ
  pub channel : String
  pub is_sent : Bool
  pub created_at : ℕ
  pub updated_at : ℕ

abbrev pub trigger_attributes : List String
trigger_attributes =
    "id" ∷ "user_id" ∷ "entity" ∷ "entity_id" ∷ "lead_minutes" ∷ "remind_at" ∷ "channel" ∷ "sent"
    ∷ "created_at" ∷ "updated_at" ∷ []

-- A trigger has no column `deleted`, and counts as never deleted.
abbrev pub trigger_columns : Columns NotificationTrigger
trigger_columns = record {
  id = λ row. row.id;
  user_id = λ row. row.user_id;
  updated_at = λ row. row.updated_at;
  deleted = λ row. false;
}

-- The keywords of `NotificationTrigger(...)` in the route.
abbrev pub trigger_keywords : List String
trigger_keywords =
    "id" ∷ "user_id" ∷ "entity" ∷ "entity_id" ∷ "lead_minutes" ∷ "remind_at" ∷ "channel"
    ∷ "created_at" ∷ "updated_at" ∷ "deleted" ∷ []

pub data TriggerEntity : Type 0 where
  task event finance : TriggerEntity

abbrev pub entity_text : TriggerEntity → String
entity_text task = "task"
entity_text event = "event"
entity_text finance = "finance"

pub record NotificationTriggerIn : Type 0 where
  pub entity : TriggerEntity
  pub entity_id : ℕ
  pub lead_minutes : ℕ
  pub remind_at : DateTime

pub new_trigger : (DateTime → ℕ) → ℕ → ℕ → ℕ → NotificationTriggerIn → NotificationTrigger
new_trigger stored now uuid user_id body = record {
  id = uuid;
  user_id = user_id;
  entity = entity_text body.entity;
  entity_id = body.entity_id;
  lead_minutes = body.lead_minutes;
  remind_at = stored body.remind_at;
  channel = "push";
  is_sent = false;
  created_at = now;
  updated_at = now;
}

pub record NotificationTriggerOut : Type 0 where
  pub id : ℕ
  pub entity : String
  pub entity_id : ℕ
  pub lead_minutes : ℕ
  pub remind_at : ℕ
  pub channel : String

abbrev pub trigger_out : NotificationTrigger → NotificationTriggerOut
trigger_out trig = record {
  id = trig.id;
  entity = trig.entity;
  entity_id = trig.entity_id;
  lead_minutes = trig.lead_minutes;
  remind_at = trig.remind_at;
  channel = trig.channel;
}

-- `create_notification_trigger`
pub create_notification_trigger :
    Orm
    → ℕ
    → ℕ
    → ℕ
    → NotificationTriggerIn
    → List NotificationTrigger
    → Result (NotificationTriggerOut × List NotificationTrigger)
create_notification_trigger orm now uuid user_id body db =
    (if leb body.lead_minutes 1440 then ok tt else invalid_body) >>= λ (valid : Unit {0}).
    (if orm.accepts trigger_attributes trigger_keywords
      then add trigger_columns (new_trigger orm.stored now uuid user_id body) db
      else raise type_error)
    >>= λ after. ok (trigger_out (new_trigger orm.stored now uuid user_id body), after)

-- `digest_preview`, whose answer is refused for any other cadence.
pub digest_preview : String → Result (String × List String)
digest_preview cadence =
    if str_eq cadence "daily" || str_eq cadence "weekly"
    then ok (
      cadence,
      "Upcoming tasks and events summarized" ∷ "Finance reminders and recurring payments"
          ∷ "Goal progress snapshot" ∷ [],
    )
    else raise (value_error "cadence")

pub record SyncStatusOut : Type 0 where
  pub queue_depth : ℕ
  pub last_synced_at : Option ℕ
  pub pending_entities : List String
  pub status : String

abbrev pub named_if : ℕ → String → List String
named_if number name = if ltb 0 number then name ∷ [] else []

-- `sync_status`: what is deleted counts as well.
pub sync_status : ℕ → ℕ → List InboxItem → List CalendarEvent → SyncStatusOut
sync_status now user_id inbox events =
    let inbox_count = length (select (λ row. row.user_id == user_id) inbox) in
    let events_count = length (select (λ row. row.user_id == user_id) events) in
    let pending_entities = named_if inbox_count "inbox" ++ named_if events_count "calendar" in
    record {
      queue_depth = length pending_entities;
      last_synced_at = some now;
      pending_entities = pending_entities;
      status = if ltb 0 (length pending_entities) then "syncing" else "idle";
    }

-- What a run unfolds.
unfoldable pub notices_program : Unit {0}
unfolding new_trigger create_notification_trigger digest_preview sync_status
notices_program = tt
