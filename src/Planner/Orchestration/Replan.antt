-- ===== src/Planner/Orchestration/Replan.antt =====
-- Whose plans a run or a new plan changes, and what it commits
-- (Backend/app/services/planner_orchestration.py).
use life_merge.Base.{
  ℕ, ◌≡◌, ◌⊎◌, inl, inr, refl, sym, ap, ◌∙◌, Bool, true, false, Option, none, some, List, String,
  ◌==◌, Bool-cases, Option-cases, ==_iff,
}
use life_merge.Base.Dict.{Dict}
use life_merge.Base.Result.{Result, ok, raise}
use life_merge.Idempotency.{Session}
use life_merge.Idempotency.Claims.{enforce_idempotency-committed}
use life_merge.Planner.Answer.{AiPlan}
use life_merge.Planner.History.{Plan}
use life_merge.Planner.Service.{enqueue_planner_run, get_plan_by_request_id}
use life_merge.Planner.Service.Laws.{get_plan-enqueue, get_plan-foreign}
use life_merge.Planner.Orchestration.{
  PlannerRunIn, RunPayload, State, ensure_access, ensure_plan_exists, run_planner, run_allowed,
  run_claimed, run_answer, replan, replan_allowed, replan_found, replan_claimed, replanned, enqueue,
  asked,
}

-- The plans are as before, or the one of a request is replaced by an answer for the user.
abbrev Written : ℕ → ℕ → ℕ → Dict Plan → Dict Plan → Type 0
Written user_id now request before after =
    (after ≡ before)
    ⊎ ((applied : List ℕ) × (answer : AiPlan) × (after
          ≡ enqueue_planner_run now user_id applied answer request before))

-- And no key of the session has been committed.
abbrev Kept : {Json : Type 0} → ℕ → ℕ → ℕ → State Json → State Json → Type 0
Kept user_id now request before after =
    Written user_id now request before.1 after.1 × (after.0.committed ≡ before.0.committed)

Written-foreign :
    (user_id now request other reader : ℕ) (before after : Dict Plan) (plan : Plan)
    → (user_id == reader) ≡ false
    → get_plan_by_request_id request user_id before ≡ some plan
    → Written user_id now request before after
    → get_plan_by_request_id other reader after ≡ get_plan_by_request_id other reader before
Written-foreign user_id now request other reader before after plan differs found (inl same) =
    rw same refl
Written-foreign user_id now request other reader before after plan differs found
      (inr (applied, answer, same)) =
    rw (same, get_plan-enqueue now user_id applied answer request other reader before, differs)
      (elim (Bool-cases (request == other)) [
        | inl e ↦
            rw
              (
                e,
                sym ((==_iff request other).0 e),
                get_plan-foreign request user_id reader before plan found differs,
              )
              refl
        | inr e ↦ rw e refl
      ])

module _ {Json : Type 0} (lower : String → String) (ask : ℕ → RunPayload → Result AiPlan)
    (method path : String) (user_id now : ℕ) where
  asked-Kept :
      (applied : List ℕ) (request : ℕ) (state : State Json) (answer : Result AiPlan)
      → Kept user_id now request state
          (asked lower ask method path user_id now applied request state answer).1
  unfolding asked
  asked-Kept applied request state (raise e) = (inl refl, refl)
  asked-Kept applied request (session, plans) (ok answer) = (inr (applied, answer, refl), refl)

  replanned-Kept :
      (request : ℕ) (before : State Json) (r : Result AiPlan × State Json)
      → Kept user_id now request before r.1
      → Kept user_id now request before (replanned lower ask method path user_id now request r).1
  unfolding replanned
  replanned-Kept request before (raise e, state) h = h
  replanned-Kept request before (ok plan, (session, plans)) h = h

  run_answer-Kept :
      (request : ℕ) (before : State Json) (r : Result AiPlan × State Json)
      → Kept user_id now request before r.1
      → Kept user_id now request before (run_answer lower ask method path user_id now request r).1
  unfolding run_answer
  run_answer-Kept request before (raise e, state) h = h
  run_answer-Kept request before (ok plan, state) h = h

  replan_claimed-Kept :
      (body : PlannerRunIn) (request : ℕ) (plan : Plan) (plans : Dict Plan) (session : Session Json)
      (claimed : Result (Unit {0}) × Session Json)
      → claimed.1.committed ≡ session.committed
      → Kept user_id now request
          (session, plans)
          (replan_claimed lower ask method path user_id now body request plan plans claimed).1
  unfolding replan_claimed enqueue
  replan_claimed-Kept body request plan plans session (raise e, after) h = (inl refl, h)
  replan_claimed-Kept body request plan plans session (ok u, after) h =
      let r =
        replanned-Kept request (after, plans) _
          (asked-Kept _ request (after, plans) (ask request _)) in
      (r.0, r.1 ∙ h)

  run_claimed-Kept :
      (body : PlannerRunIn) (request : ℕ) (plans : Dict Plan) (session : Session Json)
      (claimed : Result (Unit {0}) × Session Json)
      → claimed.1.committed ≡ session.committed
      → Kept user_id now request
          (session, plans)
          (run_claimed lower ask method path user_id now body request plans claimed).1
  unfolding run_claimed enqueue
  run_claimed-Kept body request plans session (raise e, after) h = (inl refl, h)
  run_claimed-Kept body request plans session (ok u, after) h =
      let r =
        run_answer-Kept request (after, plans) _
          (asked-Kept _ request (after, plans) (ask request _)) in
      (r.0, r.1 ∙ h)

  replan_found-Kept :
      (body : PlannerRunIn) (key : Option String) (request : ℕ) (state : State Json)
      (found : Result Plan)
      → Kept user_id now request state
          (replan_found lower ask method path user_id now body key request state found).1
  unfolding replan_found
  replan_found-Kept body key request state (raise e) = (inl refl, refl)
  replan_found-Kept body key request (session, plans) (ok plan) =
      replan_claimed-Kept body request plan plans session _
        (enforce_idempotency-committed user_id method path session (some body.request_id) key)

  replan_allowed-Kept :
      (body : PlannerRunIn) (key : Option String) (request : ℕ) (state : State Json)
      (allowed : Result Bool)
      → Kept user_id now request state
          (replan_allowed lower ask method path user_id now body key request state allowed).1
  unfolding replan_allowed
  replan_allowed-Kept body key request state (raise e) = (inl refl, refl)
  replan_allowed-Kept body key request state (ok false) = (inl refl, refl)
  replan_allowed-Kept body key request state (ok true) = replan_found-Kept body key request state _

  run_allowed-Kept :
      (body : PlannerRunIn) (key : Option String) (request : ℕ) (state : State Json)
      (allowed : Result Bool)
      → Kept user_id now request state
          (run_allowed lower ask method path user_id now body key request state allowed).1
  unfolding run_allowed
  run_allowed-Kept body key request state (raise e) = (inl refl, refl)
  run_allowed-Kept body key request state (ok false) = (inl refl, refl)
  run_allowed-Kept body key request (session, plans) (ok true) =
      run_claimed-Kept body request plans session _
        (enforce_idempotency-committed user_id method path session (some body.request_id) key)

  -- Neither a run nor a new plan commits anything, whatever its outcome: the key of the request is
  -- gone with the session, so that the same request is not recognized when it is repeated.
  replan-committed :
      (body : PlannerRunIn) (key : Option String) (request : ℕ) (state : State Json)
      → ((run_planner lower ask method path user_id now body key request state).1.0.committed
          ≡ state.0.committed)
        × ((replan lower ask method path user_id now body key request state).1.0.committed
            ≡ state.0.committed)
  unfolding run_planner replan
  replan-committed body key request state = (
    (run_allowed-Kept body key request state (ensure_access lower body.subscription_status)).1,
    (replan_allowed-Kept body key request state (ensure_access lower body.subscription_status)).1,
  )

  replan-missing :
      (body : PlannerRunIn) (key : Option String) (request : ℕ) (state : State Json)
      (allowed : Result Bool)
      → get_plan_by_request_id request user_id state.1 ≡ none
      → (replan_allowed lower ask method path user_id now body key request state allowed).1 ≡ state
  unfolding replan_allowed replan_found ensure_plan_exists
  replan-missing body key request state (raise e) missing = refl
  replan-missing body key request state (ok false) missing = refl
  replan-missing body key request state (ok true) missing = rw missing refl

  -- When a user asks for a new plan, no other user's plans change: every other reader finds, for
  -- every request, what was there before, whatever the outcome.
  pub get_plan-replan :
      (body : PlannerRunIn) (key : Option String) (request other reader : ℕ) (state : State Json)
      → (user_id == reader) ≡ false
      → get_plan_by_request_id other reader
          (replan lower ask method path user_id now body key request state).1.1
        ≡ get_plan_by_request_id other reader state.1
  unfolding replan
  get_plan-replan body key request other reader state differs =
      let allowed = ensure_access lower body.subscription_status in
      elim (Option-cases (get_plan_by_request_id request user_id state.1)) [
        | inl missing ↦
            ap (λ s. get_plan_by_request_id other reader s.1)
              (replan-missing body key request state allowed missing)
        | inr (plan, found) ↦
            Written-foreign user_id now request other reader state.1 _ plan differs found
              (replan_allowed-Kept body key request state allowed).0
      ]
