-- ===== src/Productivity/Inbox.antt =====
-- Backend/app/api/v1/productivity.py: the routes of the inbox.
use life_merge.Base.{ℕ, false, Option, none, some, List, String}
use life_merge.Base.Result.{Result, ok, ◌>>=◌}
use life_merge.Repositories.Models.{InboxItem, inbox_item_columns}
use life_merge.Productivity.{check_length, live_row, add, save}

-- `InboxConvertIn.target`; the title beside it is not read.
pub data Target : Type 0 where
  task event goal : Target

abbrev pub target_text : Target → String
target_text task = "task"
target_text event = "event"
target_text goal = "goal"

pub record InboxItemOut : Type 0 where
  pub id : ℕ
  pub note : String
  pub created_at : ℕ
  pub converted_to : Option String

abbrev pub inbox_out : InboxItem → InboxItemOut
inbox_out item = record {
  id = item.id;
  note = item.note;
  created_at = item.created_at;
  converted_to = item.converted_to;
}

pub new_item : ℕ → ℕ → ℕ → String → InboxItem
new_item now uuid user_id note = record {
  id = uuid;
  user_id = user_id;
  note = note;
  converted_to = none;
  created_at = now;
  updated_at = now;
  deleted = false;
}

-- `add_inbox_note`
pub add_inbox_note : ℕ → ℕ → ℕ → String → List InboxItem → Result (InboxItemOut × List InboxItem)
add_inbox_note now uuid user_id note db = check_length 1 500 note >>= λ valid.
    add inbox_item_columns (new_item now uuid user_id note) db >>= λ after.
    ok (inbox_out (new_item now uuid user_id note), after)

pub converted : ℕ → Target → InboxItem → InboxItem
converted now target item = record item {
  converted_to = some (target_text target);
  updated_at = now;
}

-- `convert_inbox_note`
pub convert_inbox_note :
    ℕ → ℕ → ℕ → Target → List InboxItem → Result (InboxItemOut × List InboxItem)
convert_inbox_note now user_id item_id target db =
    live_row inbox_item_columns user_id item_id db >>= λ item.
    ok (
      inbox_out (converted now target item),
      save inbox_item_columns (converted now target item) db,
    )

-- What a run unfolds.
unfoldable pub inbox_program : Unit {0}
unfolding new_item add_inbox_note converted convert_inbox_note
inbox_program = tt
