-- ===== src/Planner/Decision/Laws.antt =====
-- Decisions on plans: what they leave alone, and what a closed plan answers
-- (Backend/app/services/planner_service.py).
use mathlib.Core.List.{append-nil}
use life_merge.Base.{
  ℕ, ◌≤◌, ◌≡◌, refl, sym, ap, ◌∙◌, ◌⊎◌, true, false, Option, none, some, List, [], ◌∷◌, ◌++◌,
  String, str_eq, ◌==◌, ==_refl, ==_iff, length, arith, Option-cases, Bool-cases, inl, inr,
}
use life_merge.Base.Dict.{Dict, get, put, get-put}
use life_merge.Base.Result.{Result, ok, raise, value_error}
use life_merge.Planner.Model.{Slot}
use life_merge.Planner.Edits.{SlotEdit, validate_slots}
use life_merge.Planner.History.{Plan, HistoryEntry, version_entry, append_version}
use life_merge.Planner.Service.{get_plan_by_request_id, get_plan-get, get_plan-put}
use life_merge.Planner.Decision.{
  TaskService, Applied, is_closed, decline, closed_plan, close, accept_edited, decide_plan, stored,
  decide_found, decision_of, apply_plan_decision,
}

-- A plan that grew out of another: the same owner, version, source and date of creation, and a
-- history that begins with the other's.
pub record Extends (old new : Plan) : Type 0 where
  pub user_id : new.user_id ≡ old.user_id
  pub version : new.version ≡ old.version
  pub source : new.source ≡ old.source
  pub created_at : new.created_at ≡ old.created_at
  pub added : List HistoryEntry
  pub history : new.history ≡ old.history ++ added
  pub at_most_one : length added ≤ 1

grown-Extends :
    (old new : Plan) (e : HistoryEntry)
    → new.user_id ≡ old.user_id
    → new.version ≡ old.version
    → new.source ≡ old.source
    → new.created_at ≡ old.created_at
    → new.history ≡ old.history ++ e ∷ []
    → Extends old new
grown-Extends old new e u v s c h = record {
  user_id = u;
  version = v;
  source = s;
  created_at = c;
  added = e ∷ [];
  history = h;
  at_most_one = omega arith;
}

module _ (service : TaskService) (user_id : ℕ) where
  open service use {Db}

  -- A plan that is not the user's, or not there, is not found, whatever the decision, and neither
  -- the plans nor the database change.
  pub apply_plan_decision-not_found :
      (now request : ℕ) (decision : String) (accepted : Option (List ℕ)) (edits : List SlotEdit)
      (plans : Dict Plan) (db : Db)
      → get_plan_by_request_id request user_id plans ≡ none
      → apply_plan_decision service user_id now request decision accepted edits plans db
        ≡ (raise (value_error "plan_not_found"), plans, db)
  unfolding apply_plan_decision decide_found
  apply_plan_decision-not_found now request decision accepted edits plans db e = rw e refl

  -- A decision changes no plan but that of its request.
  get-apply_plan_decision :
      (now request other : ℕ) (decision : String) (accepted : Option (List ℕ))
      (edits : List SlotEdit) (plans : Dict Plan) (db : Db)
      → (request == other) ≡ false
      → get other
          (apply_plan_decision service user_id now request decision accepted edits plans db).1
        ≡ get other plans
  unfolding apply_plan_decision decide_found stored
  get-apply_plan_decision now request other decision accepted edits plans db e =
      elim (Option-cases (get_plan_by_request_id request user_id plans)) [
        | inl p ↦ rw (p, decide_found) refl
        | inr (plan, p) ↦ rw (p, decide_found) (rw (get-put, e) refl)
      ]

  decide_plan-closed :
      (now : ℕ) (decision : String) (accepted : Option (List ℕ)) (edits : List SlotEdit)
      (plan : Plan) (db : Db)
      → is_closed plan ≡ true
      → decide_plan service user_id now decision accepted edits plan db
        ≡ (ok (decision_of plan plan.created_task_ids plan.updated_task_ids), plan, db)
  unfolding decide_plan
  decide_plan-closed now decision accepted edits plan db h = rw h refl

  is_closed-eq :
      (plan : Plan)
      → (plan.status ≡ "accepted") ⊎ (plan.status ≡ "declined")
      → is_closed plan ≡ true
  unfolding is_closed
  is_closed-eq plan (inl h) = rw h refl
  is_closed-eq plan (inr h) = rw h refl

  put_same :
      (request other : ℕ) (plans : Dict Plan) (plan : Plan)
      → get request plans ≡ some plan
      → get other (put request plan plans) ≡ get other plans
  put_same request other plans plan h = rw get-put (elim (Bool-cases (request == other)) [
    | inl e ↦ rw e (sym h ∙ ap (λ k. get k plans) ((==_iff request other).0 e))
    | inr e ↦ rw e refl
  ])

  -- Once a plan is accepted or declined, every later decision answers with what the plan records,
  -- and leaves the database and every plan as they are.
  apply_plan_decision-closed :
      (now request other : ℕ) (decision : String) (accepted : Option (List ℕ))
      (edits : List SlotEdit) (plans : Dict Plan) (db : Db) (plan : Plan)
      → get_plan_by_request_id request user_id plans ≡ some plan
      → (plan.status ≡ "accepted") ⊎ (plan.status ≡ "declined")
      → ((apply_plan_decision service user_id now request decision accepted edits plans db).0
          ≡ ok (decision_of plan plan.created_task_ids plan.updated_task_ids))
        × (get other
              (apply_plan_decision service user_id now request decision accepted edits plans db).1
            ≡ get other plans)
        × ((apply_plan_decision service user_id now request decision accepted edits plans db).2
            ≡ db)
  unfolding apply_plan_decision decide_found stored
  apply_plan_decision-closed now request other decision accepted edits plans db plan p h =
      let shut = decide_plan-closed now decision accepted edits plan db (is_closed-eq plan h) in
      rw (p, decide_found)
        (rw shut (
          refl,
          put_same request other plans plan (get_plan-get request user_id plans plan p),
          refl,
        ))

  -- A plan that is open is declined for good as far as decisions go: the next one, whatever it is,
  -- answers "declined", and changes no plan and nothing in the database. Yet it answers with the tasks
  -- that the plan had recorded before it was declined.
  pub apply_plan_decision-decline :
      (now later request other : ℕ) (decision : String) (accepted accepted' : Option (List ℕ))
      (edits edits' : List SlotEdit) (plans : Dict Plan) (db : Db) (plan : Plan)
      → get_plan_by_request_id request user_id plans ≡ some plan
      → is_closed plan ≡ false
      → let first =
          apply_plan_decision service user_id now request "decline" accepted edits plans db in
        let second =
          apply_plan_decision service user_id later request decision accepted' edits' first.1
            first.2 in
        (second.0
          ≡ ok (record {
            status = "declined";
            created_task_ids = plan.created_task_ids;
            updated_task_ids = plan.updated_task_ids;
            version = plan.version;
          }))
        × (get other second.1 ≡ get other first.1)
        × (second.2 ≡ db)
  unfolding apply_plan_decision decide_found stored decide_plan decline append_version decision_of
  apply_plan_decision-decline now later request other decision accepted accepted' edits edits' plans
        db plan p open_plan =
      let declined =
        append_version now (record plan { status = "declined"; applied_slot_ids = [] }) "declined"
          [] [] in
      rw (p, open_plan)
        (apply_plan_decision-closed later request other decision accepted' edits'
          (put request declined plans) db declined
          (get_plan-put request user_id plans plan declined p refl) (inr refl))

  same-Extends : (plan : Plan) → Extends plan plan
  same-Extends plan = record {
    user_id = refl;
    version = refl;
    source = refl;
    created_at = refl;
    added = [];
    history = sym (append-nil plan.history);
    at_most_one = omega arith;
  }

  close-Extends :
      (now : ℕ) (plan edited : Plan) (chosen : List ℕ) (r : Result Applied) (db : Db)
      → Extends plan edited
      → edited.history ≡ plan.history
      → Extends plan (close service user_id now edited chosen (r, db)).1
  unfolding close append_version
  close-Extends now plan edited chosen (raise e) db x h = x
  close-Extends now plan edited chosen (ok applied) db x h =
      let closed = closed_plan edited chosen applied in
      let entry = version_entry now closed closed.status applied.created applied.updated in
      grown-Extends plan _ entry x.user_id x.version x.source x.created_at
        (ap (λ l. l ++ entry ∷ []) h)

  accept_edited-Extends :
      (now : ℕ) (accepted : Option (List ℕ)) (plan : Plan) (db : Db) (r : Result (List Slot))
      → Extends plan (accept_edited service user_id now accepted plan db r).1
  unfolding accept_edited
  accept_edited-Extends now accepted plan db (raise e) = same-Extends plan
  accept_edited-Extends now accepted plan db (ok slots) =
      close-Extends now plan (record plan { slots = slots }) _ _ _
        (record {
          user_id = refl;
          version = refl;
          source = refl;
          created_at = refl;
          added = [];
          history = sym (append-nil plan.history);
          at_most_one = omega arith;
        })
        refl

  decide_plan-Extends :
      (now : ℕ) (decision : String) (accepted : Option (List ℕ)) (edits : List SlotEdit)
      (plan : Plan) (db : Db)
      → Extends plan (decide_plan service user_id now decision accepted edits plan db).1
  unfolding decide_plan decline append_version
  decide_plan-Extends now decision accepted edits plan db = elim (Bool-cases (is_closed plan)) [
    | inl e ↦ rw e (same-Extends plan)
    | inr e ↦ rw e (elim (Bool-cases (str_eq decision "decline")) [
      | inl d ↦ rw d (
          grown-Extends plan _
            (version_entry now (record plan { status = "declined"; applied_slot_ids = [] })
              "declined" [] [])
            refl refl refl refl refl)
      | inr d ↦ rw d (accept_edited-Extends now accepted plan db (validate_slots plan.slots edits))
    ])
  ]

  -- Whatever the decision and its outcome, the plan of the request keeps its owner, version, source
  -- and date, and its history grows at its end, by one entry at most.
  pub apply_plan_decision-Extends :
      (now request : ℕ) (decision : String) (accepted : Option (List ℕ)) (edits : List SlotEdit)
      (plans : Dict Plan) (db : Db) (plan : Plan)
      → get_plan_by_request_id request user_id plans ≡ some plan
      → (new : Plan) × (get request
            (apply_plan_decision service user_id now request decision accepted edits plans db).1
          ≡ some new)
        × Extends plan new
  unfolding apply_plan_decision decide_found stored
  apply_plan_decision-Extends now request decision accepted edits plans db plan p =
      rw (p, decide_found)
        (
          (decide_plan service user_id now decision accepted edits plan db).1,
          rw (get-put, ==_refl) refl,
          decide_plan-Extends now decision accepted edits plan db,
        )
