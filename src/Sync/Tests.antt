-- ===== src/Sync/Tests.antt =====
-- The theorems on the merging of offline changes at concrete inputs.
use life_merge.Base.{
  ℕ, ◌+◌, ◌≡◌, refl, true, false, ◌&&◌, Option, none, some, List, [], ◌∷◌, ◌==◌, ==_iff,
  if◌then◌else◌, Bool-cases, inl, inr, and_true, some_eq, subst,
}
use life_merge.Base.Result.{Result, ok, raise, integrity_error, ok_inj}
use life_merge.Planner.Time.{utc, naive}
use life_merge.Sync.{
  TaskRow, Table, IsTable, TaskData, BatchSyncOperation, BatchSyncResult, is_complete, missing,
  null, value, answer, conflict, applied, skipped,
}
use life_merge.Sync.Merge.{process_operation, process_batch_operations, merge_program}
use life_merge.Sync.Merge.Keeps.{Kept}
use life_merge.Sync.Merge.Batch.{process_batch_operations-Kept}
use life_merge.Sync.Merge.Replay.{process_operation-replay}
use life_merge.Sync.Merge.Stale.{delete_op, upsert_op}

-- A table as a function from keys, of which only whole rows that stand under their key count.
stored : ℕ → Option TaskRow → Option TaskRow
stored i none = none
stored i (some row) = if (row.id == i) && is_complete row then some row else none

find : (ℕ → Option TaskRow) → ℕ → Option TaskRow
find db i = stored i (db i)

abbrev write : (ℕ → Option TaskRow) → TaskRow → ℕ → Option TaskRow
write db row i = if row.id == i then some row else db i

flush : (ℕ → Option TaskRow) → TaskRow → Result (ℕ → Option TaskRow)
flush db row = if is_complete row then ok (write db row) else raise integrity_error

add_new : Option TaskRow → (ℕ → Option TaskRow) → TaskRow → Result (ℕ → Option TaskRow)
add_new none db row = flush db row
add_new (some old) db row = raise integrity_error

add : (ℕ → Option TaskRow) → TaskRow → Result (ℕ → Option TaskRow)
add db row = add_new (find db row.id) db row

abbrev memory : Table
memory = record { Db = ℕ → Option TaskRow; find = find; add = add; flush = flush }

stored-eq :
    (i : ℕ) (o : Option TaskRow) (row : TaskRow)
    → stored i o ≡ some row
    → (row.id ≡ i) × (is_complete row ≡ true)
unfolding stored
stored-eq i none row e = cc
stored-eq i (some r) row e = elim (Bool-cases ((r.id == i) && is_complete r)) [
  | inl t ↦
      let same : r ≡ row = some_eq (rw t at e) in
      let (here, whole) = and_true (r.id == i) (is_complete r) t in
      subst (λ x. (x.id ≡ i) × (is_complete x ≡ true)) same ((==_iff r.id i).0 here, whole)
  | inr t ↦ let no : Option.none ≡ some row = rw t at e in cc
]

find-flush :
    (db db' : ℕ → Option TaskRow) (row : TaskRow)
    → flush db row ≡ ok db'
    → (i : ℕ) → find db' i ≡ (if row.id == i then some row else find db i)
unfolding flush find stored
find-flush db db' row e i = elim (Bool-cases (is_complete row)) [
  | inr t ↦ let no : raise integrity_error ≡ ok db' = rw t at e in cc
  | inl t ↦
      let same : write db row ≡ db' = ok_inj (rw t at e) in
      subst (λ d. find d i ≡ (if row.id == i then some row else find db i)) same
        (elim (Bool-cases (row.id == i)) [ inl h ↦ rw h (rw (h, t) refl) | inr h ↦ rw h refl ])
]

add-eq :
    (found : Option TaskRow) (db db' : ℕ → Option TaskRow) (row : TaskRow)
    → add_new found db row ≡ ok db'
    → (found ≡ none) × (flush db row ≡ ok db')
unfolding add_new
add-eq none db db' row e = (refl, e)
add-eq (some old) db db' row e = cc

memory-IsTable : IsTable memory
unfolding find flush add
memory-IsTable = record {
  find-id = λ db i row e. (stored-eq i (db i) row e).0;
  find-is_complete = λ db i row e. (stored-eq i (db i) row e).1;
  add-fresh = λ db db' row e. (add-eq (find db row.id) db db' row e).0;
  find-add = λ db db' row e i. find-flush db db' row (add-eq (find db row.id) db db' row e).1 i;
  find-flush = λ db db' row e i. find-flush db db' row e i;
  flush-is_complete = λ db row old f t. (write db row, rw t refl);
}

abbrev row : ℕ → ℕ → TaskRow
row i user_id = record {
  id = i;
  user_id = user_id;
  title = some "Old";
  description = none;
  goal_id = none;
  due_at = none;
  priority = none;
  estimated_minutes = none;
  energy_level = none;
  status = some "todo";
  created_at = utc 5;
  updated_at = naive 10;
  deleted = some false;
}

abbrev table : ℕ → Option TaskRow
table i = if i == 1 then some (row 1 7) else if i == 2 then some (row 2 8) else none

abbrev renamed : TaskData
renamed = record {
  title = value "New";
  description = missing;
  goal_id = missing;
  due_at = missing;
  priority = null;
  estimated_minutes = missing;
  energy_level = missing;
  status = missing;
  created_at = missing;
  deleted = missing;
}

abbrev identity : ℕ → ℕ
identity k = 100 + k

abbrev three_operations : List BatchSyncOperation
three_operations =
    upsert_op 1 renamed (utc 20) ∷ delete_op 2 none (utc 20) ∷ delete_op 1 none (utc 15) ∷ []

abbrev new_row : TaskRow
new_row = record (row 1 7) { title = some "New"; updated_at = utc 20 }

abbrev three_results : List BatchSyncResult
three_results =
    answer (upsert_op 1 renamed (utc 20)) (some 1) applied none (some new_row)
    ∷ answer (delete_op 2 none (utc 20)) (some 2) skipped (some "Task not found") none
    ∷ conflict (delete_op 1 none (utc 15)) new_row
    ∷ []

-- The rename is applied, the other user's task is not found, and the older deletion is skipped.
merge_test :
    process_batch_operations memory identity 0 table 7 three_operations
    ≡ ok (three_results, write table new_row)
unfolding merge_program find stored flush is_complete
merge_test = refl

process_batch_operations-Kept_example :
    (new : TaskRow) × (find (write table new_row) 2 ≡ some new) × Kept 7 (row 2 8) new
unfolding merge_program find stored flush is_complete
process_batch_operations-Kept_example =
    process_batch_operations-Kept memory memory-IsTable 7 identity 0 table (write table new_row)
      three_operations three_results merge_test 2 (row 2 8) refl

rename_test :
    process_operation memory table 7 (upsert_op 1 renamed (utc 20)) 100
    ≡ ok (
      answer (upsert_op 1 renamed (utc 20)) (some 1) applied none (some new_row),
      write table new_row,
    )
unfolding merge_program find stored flush is_complete
rename_test = refl

process_operation-replay_example :
    (row : TaskRow) × (find (write table new_row) 1 ≡ some row)
    × (process_operation memory (write table new_row) 7 (upsert_op 1 renamed (utc 20)) 101
        ≡ ok (conflict (upsert_op 1 renamed (utc 20)) row, write table new_row))
process_operation-replay_example =
    process_operation-replay memory memory-IsTable 7 1 renamed (utc 20) table (write table new_row)
      100 101 (answer (upsert_op 1 renamed (utc 20)) (some 1) applied none (some new_row))
      rename_test refl
