-- ===== src/Repositories/Tests.antt =====
-- The theorems on pages at concrete rows.
use Prim.Native.String.{count}
use Prim.Native.String
use text.Mathlib.Text.{is_eq}
use Prim.Native.Char.{code}
use life_merge.Base.{
  ℕ, zero, suc, ◌≤◌, ◌≡◌, refl, ap, Bool, false, Option, none, some, List, [], ◌∷◌, String, str_eq,
  arith, ◌==◌, length, select, if◌then◌else◌, All,
}
use life_merge.Base.Texts.{strokes, count-strokes}
use life_merge.Base.Sort.{sort, IsSorted}
use life_merge.Repositories.{Sql, IsSql, newest_first, list_page}
use life_merge.Repositories.Models.{Task, task_columns}
use life_merge.Repositories.Lists.{wanted_task, repositories_program}
use life_merge.Repositories.Pages.{list_page-length, IsShown}
use life_merge.Repositories.Walk.{walk, walk-all}
use life_merge.Repositories.Behind.{Distinct}

abbrev count_first : Option (ℕ × ℕ) → Option (ℕ × ℕ)
count_first none = none
count_first (some (date, id)) = some (suc date, id)

abbrev read_strokes : String → Option (ℕ × ℕ)
read_strokes String.[] = none
read_strokes (String.◌∷◌ c rest) =
    if code c == 124 then some (0, count rest) else count_first (read_strokes rest)

abbrev sql : Sql
sql = record {
  encode = λ date id. strokes date (String.◌∷◌ "|" (strokes id String.[]));
  decode = read_strokes;
  equal_truth = λ column. false;
}

read_strokes-strokes : (date id : ℕ) → read_strokes (sql.encode date id) ≡ some (date, id)
read_strokes-strokes zero id = ap (λ n. some (0, n)) (count-strokes id)
read_strokes-strokes (suc date) id = ap count_first (read_strokes-strokes date id)

strokes-not_empty : (date id : ℕ) → str_eq (sql.encode date id) "" ≡ false
strokes-not_empty zero id = ap is_eq (String.compare.cons-nil _ _)
strokes-not_empty (suc date) id = ap is_eq (String.compare.cons-nil _ _)

sql-IsSql : IsSql sql
sql-IsSql = record {
  encode-not_empty = strokes-not_empty;
  decode-encode = read_strokes-strokes;
  equal_truth-false = λ column. refl;
}

abbrev task : ℕ → ℕ → ℕ → Task
task id user_id updated_at = record {
  id = id;
  user_id = user_id;
  title = "Read";
  description = none;
  status = "todo";
  priority = none;
  estimated_minutes = none;
  energy_level = none;
  goal_id = none;
  due_at = none;
  created_at = 1;
  updated_at = updated_at;
  deleted = false;
}

-- Two tasks of user 7 that were changed at the same instant, one that was changed before, and one of
-- another user.
abbrev tasks : List Task
tasks = task 1 7 20 ∷ task 2 7 20 ∷ task 3 7 10 ∷ task 4 8 30 ∷ []

abbrev all_tasks : ℕ → Task → Bool
all_tasks user_id = wanted_task user_id none none none none

-- The second of the two is on no page of a client that asks for one task at a time.
skipped : walk task_columns sql (all_tasks 7) 1 9 none tasks ≡ task 2 7 20 ∷ task 3 7 10 ∷ []
unfolding repositories_program walk
skipped = refl

list_page-length_example :
    (length (list_page task_columns sql (all_tasks 7) none 2 tasks).0 ≤ 2)
    × IsSorted (newest_first task_columns) (list_page task_columns sql (all_tasks 7) none 2 tasks).0
    × All
        (IsShown task_columns sql (all_tasks 7) none)
        (list_page task_columns sql (all_tasks 7) none 2 tasks).0
list_page-length_example = list_page-length task_columns sql (all_tasks 7) none 2 tasks

-- Without the first task no two were changed at the same instant.
abbrev apart : List Task
apart = task 2 7 20 ∷ task 3 7 10 ∷ task 5 7 40 ∷ task 4 8 30 ∷ []

abbrev selected : List Task
selected = task 2 7 20 ∷ task 3 7 10 ∷ task 5 7 40 ∷ []

selected_eq : select (all_tasks 7) apart ≡ selected
unfolding repositories_program walk
selected_eq = refl

selected-Distinct : Distinct task_columns (select (all_tasks 7) apart)
selected-Distinct =
    rw selected_eq ((ground arith, (ground arith, tt)), ((ground arith, tt), (tt, tt)))

walk-all_example :
    walk task_columns sql (all_tasks 7) 2 3 none apart
    ≡ sort (newest_first task_columns) (select (all_tasks 7) apart)
walk-all_example =
    walk-all task_columns sql sql-IsSql (all_tasks 7) 2 (omega arith) (omega arith) apart
      selected-Distinct 3 (rw selected_eq (omega arith))
