-- ===== src/Planner/History.antt =====
-- A plan, and `PlanHistoryManager` of Backend/app/services/planner/components.py. A plan is a dict
-- whose lists are replaced and never changed in place, but for `history`, which grows at its end.
use life_merge.Base.{
  ℕ, ◌≡◌, refl, Option, none, some, List, [], ◌∷◌, ◌++◌, String, ◌==◌, arith, if◌then◌else◌,
  Bool-cases, inl, inr,
}
use life_merge.Planner.Model.{Slot, Conflict}

pub record HistoryEntry : Type 0 where
  pub version : ℕ
  pub status : String
  pub slots : List Slot
  pub conflicts : List Conflict
  pub created_task_ids : List ℕ
  pub updated_task_ids : List ℕ
  pub logged_at : ℕ

pub record Plan : Type 0 where
  pub user_id : ℕ
  pub status : String
  pub slots : List Slot
  pub conflicts : List Conflict
  pub version : ℕ
  pub created_at : ℕ
  pub applied_slot_ids : List ℕ
  pub history : List HistoryEntry
  pub source : String
  pub created_task_ids : List ℕ
  pub updated_task_ids : List ℕ

abbrev pub version_entry : ℕ → Plan → String → List ℕ → List ℕ → HistoryEntry
version_entry now plan status created_task_ids updated_task_ids = record {
  version = plan.version;
  status = status;
  slots = plan.slots;
  conflicts = plan.conflicts;
  created_task_ids = created_task_ids;
  updated_task_ids = updated_task_ids;
  logged_at = now;
}

-- `append_version`; `now` is the clock.
unfoldable pub append_version : ℕ → Plan → String → List ℕ → List ℕ → Plan
append_version now plan status created_task_ids updated_task_ids = record plan {
  history = plan.history ++ version_entry now plan status created_task_ids updated_task_ids ∷ [];
}

-- The first entry of the reversed history that has the version.
pub latest_entry : ℕ → List HistoryEntry → Option HistoryEntry
latest_entry version [] = none
latest_entry version (e ∷ es) = elim (latest_entry version es) [
  | some later ↦ some later
  | none ↦ if e.version == version then some e else none
]

pub restored : Plan → ℕ → Option HistoryEntry → Option Plan
restored plan version none = none
restored plan version (some entry) = some (record plan {
  status = entry.status;
  slots = entry.slots;
  conflicts = entry.conflicts;
  version = version;
  created_task_ids = entry.created_task_ids;
  updated_task_ids = entry.updated_task_ids;
})

-- `restore_version`
pub restore_version : Plan → ℕ → Option Plan
restore_version plan version = restored plan version (latest_entry version plan.history)

latest_entry-snoc :
    (version : ℕ) (es : List HistoryEntry) (e : HistoryEntry)
    → latest_entry version (es ++ e ∷ [])
      ≡ (if e.version == version then some e else latest_entry version es)
unfolding latest_entry
latest_entry-snoc version [] e = ground arith
latest_entry-snoc version (x ∷ es) e = ground (arith, latest_entry-snoc version es e)

-- A version that was just logged is the one that is restored: the plan `later`, whatever it became
-- since, gets back the status, slots, conflicts, version and task identifiers that were logged, and
-- keeps the rest. For another version, the entry counts for nothing.
pub restore_version-append_version :
    (now : ℕ) (plan later : Plan) (status : String) (created updated : List ℕ) (version : ℕ)
    → later.history ≡ (append_version now plan status created updated).history
    → restore_version later version ≡ (
        if plan.version == version
        then some (record later {
          status = status;
          slots = plan.slots;
          conflicts = plan.conflicts;
          version = version;
          created_task_ids = created;
          updated_task_ids = updated;
        })
        else restored later version (latest_entry version plan.history))
unfolding restore_version append_version restored
restore_version-append_version now plan later status created updated version h =
    rw (h, latest_entry-snoc)
      (elim (Bool-cases (plan.version == version)) [ inl e ↦ rw e refl | inr e ↦ rw e refl ])

-- Opens the whole of this component, for evaluation.
unfoldable pub history_program : Unit {0}
unfolding append_version restore_version restored latest_entry
history_program = tt
