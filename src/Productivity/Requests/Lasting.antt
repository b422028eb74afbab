-- ===== src/Productivity/Requests/Lasting.antt =====
-- Backend/app/api/v1/productivity.py: the calendar's events over any sequence of requests.
use life_merge.Base.{List, [], ◌∷◌, All}
use life_merge.Base.Result.{Result, ok, raise, Ensures, Ensures-bind, Ensures-then}
use life_merge.Productivity.{Orm, IsOrm}
use life_merge.Productivity.Goals
use life_merge.Productivity.Inbox
use life_merge.Productivity.Finance
use life_merge.Productivity.Budgets
use life_merge.Productivity.Notices
use life_merge.Productivity.Events
use life_merge.Productivity.Events.{
  events_program, CalendarEventIn, CalendarEventUpdateIn, check_event_in, new_event, no_range,
  check_range, date_or, set_event, stored_column,
}
use life_merge.Productivity.Events.Ranges.{
  Lasts, InOrder, SentInOrder, create_event-Lasts, update_event-Lasts,
}
use life_merge.Productivity.Requests.{
  Tables, Write, create_goal, update_goal, create_event, update_event, add_inbox_note,
  convert_inbox_note, create_transaction, update_transaction, delete_transaction, set_budget,
  create_notification_trigger, Sender, handle, or_unchanged, serve,
}

-- The dates of a request for an event are stored in their order.
abbrev pub StoresInOrder : Orm → Write → Type 0
StoresInOrder orm (create_event body) = InOrder orm body.start_at body.end_at
StoresInOrder orm (update_event i body) = SentInOrder orm body.start_at body.end_at
StoresInOrder orm other = Unit

module _ (orm : Orm) (is_orm : IsOrm orm) where
  handle-Lasts :
      (by : Sender) (write : Write) (db : Tables)
      → StoresInOrder orm write
      → All Lasts db.events
      → Ensures (λ after. All Lasts after.events) (handle orm by write db)
  unfolding handle
  handle-Lasts by (create_event body) db order lasts =
      Ensures-bind _ _ (Events.create_event orm by.now by.uuid by.user_id body db.events) _
        (create_event-Lasts orm is_orm by.now by.uuid by.user_id body db.events order lasts)
        λ done all. all
  handle-Lasts by (update_event i body) db order lasts =
      Ensures-bind _ _ (Events.update_event orm by.now by.user_id i body db.events) _
        (update_event-Lasts orm is_orm by.now by.user_id i body db.events order lasts)
        λ done all. all
  handle-Lasts by (create_goal body) db order lasts =
      Ensures-then (λ (after : Tables). All Lasts after.events)
        (Goals.create_goal by.now by.uuid by.user_id body db.goals) _ λ done. lasts
  handle-Lasts by (update_goal i body) db order lasts =
      Ensures-then (λ (after : Tables). All Lasts after.events)
        (Goals.update_goal by.now by.user_id i body db.goals) _ λ done. lasts
  handle-Lasts by (add_inbox_note note) db order lasts =
      Ensures-then (λ (after : Tables). All Lasts after.events)
        (Inbox.add_inbox_note by.now by.uuid by.user_id note db.inbox) _ λ done. lasts
  handle-Lasts by (convert_inbox_note i target) db order lasts =
      Ensures-then (λ (after : Tables). All Lasts after.events)
        (Inbox.convert_inbox_note by.now by.user_id i target db.inbox) _ λ done. lasts
  handle-Lasts by (create_transaction body) db order lasts =
      Ensures-then (λ (after : Tables). All Lasts after.events)
        (Finance.create_transaction orm by.now by.uuid by.user_id body db.transactions) _
        λ done. lasts
  handle-Lasts by (update_transaction i body) db order lasts =
      Ensures-then (λ (after : Tables). All Lasts after.events)
        (Finance.update_transaction orm by.now by.user_id i body db.transactions) _ λ done. lasts
  handle-Lasts by (delete_transaction i) db order lasts =
      Ensures-then (λ (after : Tables). All Lasts after.events)
        (Finance.delete_transaction by.now by.user_id i db.transactions) _ λ done. lasts
  handle-Lasts by (set_budget body) db order lasts =
      Ensures-then (λ (after : Tables). All Lasts after.events)
        (Budgets.set_budget orm by.now by.uuid by.user_id by.plan body db.budgets) _ λ done. lasts
  handle-Lasts by (create_notification_trigger body) db order lasts =
      Ensures-then (λ (after : Tables). All Lasts after.events)
        (Notices.create_notification_trigger orm by.now by.uuid by.user_id body db.triggers) _
        λ done. lasts

  -- If every event of the calendar ends after its start, so it is after any sequence of requests,
  -- whether they raise or not, and whichever dates they send, aware or naive, one, both or none,
  -- provided that two naive dates that are sent together are stored in their order, which the clock of
  -- the server may undo where it skips an hour.
  pub serve-Lasts :
      (requests : List (Sender × Write)) (db : Tables)
      → All Lasts db.events
      → All (λ request. StoresInOrder orm request.1) requests
      → All Lasts (serve orm requests db).events
  unfolding serve or_unchanged
  serve-Lasts [] db lasts order = lasts
  serve-Lasts ((by, write) ∷ requests) db lasts order =
      serve-Lasts requests (or_unchanged db (handle orm by write db))
        (handled (handle orm by write db) (handle-Lasts by write db order.0 lasts)) order.1
    where
      handled :
          (outcome : Result Tables)
          → Ensures (λ after. All Lasts after.events) outcome
          → All Lasts (or_unchanged db outcome).events
      handled (ok after) all = all
      handled (raise e) all = lasts
