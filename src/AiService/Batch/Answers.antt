-- ===== src/AiService/Batch/Answers.antt =====
-- What `batch_run` of Backend/ai_service/main.py answers.
use life_merge.Base.{
  ℕ, suc, ◌+◌, Option, none, some, arith, ◌≡◌, ◌≤◌, refl, ap₂, subst, List, [], ◌∷◌, String, str_eq,
  eq_iff, length, map, Bool-cases, inl, inr,
}
use life_merge.Base.Result.{ok, raise, http_error, >>=-eq-ok, ok_inj}
use life_merge.AiService.{PlannerRun, check_batch}
use life_merge.AiService.Checked.{check_batch-eq}
use life_merge.AiService.Batch.{
  PlannerPlanOut, batch_run, run_plans, run_plan, ensure_internal_access, generate_slots,
  next_version,
}

-- `x or 0`
abbrev pub or_zero : Option ℕ → ℕ
or_zero none = 0
or_zero (some v) = v

version_eq : (previous : Option ℕ) → next_version previous ≡ or_zero previous + 1
version_eq none = refl
version_eq (some v) = omega arith

-- A plan answers a run: its request, and the version after the previous one.
abbrev Answers : PlannerRun → PlannerPlanOut → Type 0
Answers run plan =
    (plan.plan_request_id ≡ run.plan_request_id)
    × (plan.version ≡ or_zero run.previous_plan_version + 1)

run_plan-Answers :
    (uuid : ℕ → ℕ) (today : ℕ) (run : PlannerRun) (plan : PlannerPlanOut)
    → run_plan uuid today run ≡ ok plan
    → Answers run plan
unfolding run_plan
run_plan-Answers uuid today run plan e =
    let (made, f, g) = >>=-eq-ok (generate_slots uuid today run) _ e in
    subst (Answers run) (ok_inj g) (refl, version_eq run.previous_plan_version)

run_plans-Answers :
    (uuid : ℕ → ℕ → ℕ) (n today : ℕ) (runs : List PlannerRun) (plans : List PlannerPlanOut)
    → run_plans uuid n today runs ≡ ok plans
    → (map (λ p. p.plan_request_id) plans ≡ map (λ r. r.plan_request_id) runs)
      × (map (λ p. p.version) plans ≡ map (λ r. or_zero r.previous_plan_version + 1) runs)
unfolding run_plans
run_plans-Answers uuid n today [] plans e =
    subst (λ ps. (map (λ p. p.plan_request_id) ps ≡ []) × (map (λ p. p.version) ps ≡ [])) (ok_inj e)
      (refl, refl)
run_plans-Answers uuid n today (run ∷ runs) plans e =
    let (plan, f, g) = >>=-eq-ok (run_plan (uuid n) today run) _ e in
    let (rest, h, i) = >>=-eq-ok (run_plans uuid (suc n) today runs) _ g in
    let (request, version) = run_plan-Answers (uuid n) today run plan f in
    let (requests, versions) = run_plans-Answers uuid (suc n) today runs rest h in
    subst
      (λ ps.
        (map (λ p. p.plan_request_id) ps ≡ map (λ r. r.plan_request_id) (run ∷ runs))
        × (map (λ p. p.version) ps ≡ map (λ r. or_zero r.previous_plan_version + 1) (run ∷ runs)))
      (ok_inj i) (ap₂ (λ a l. a ∷ l) request requests, ap₂ (λ a l. a ∷ l) version versions)

access-eq :
    (expected token : String) → ensure_internal_access expected token ≡ ok tt → token ≡ expected
unfolding ensure_internal_access
access-eq expected token e = elim (Bool-cases (str_eq token expected)) [
  | inl t ↦ (eq_iff token expected).0 t
  | inr t ↦ let no : raise (http_error "401" "unauthorized") ≡ ok tt = rw t at e in cc
]

-- A batch that is answered came with the internal token and is no larger than the limit, and the
-- answer has one plan for each request, in their order: with the identifier of the request, and a
-- version that is one more than the previous one, or one if there is none. This is said of the
-- module as it is with the loop over the events indented evenly; as it stands Python refuses to
-- import it.
pub batch_run-answers :
    (max_batch : ℕ) (expected token : String) (uuid : ℕ → ℕ → ℕ) (today : ℕ)
    (requests : List PlannerRun) (plans : List PlannerPlanOut)
    → batch_run max_batch expected token uuid today requests ≡ ok plans
    → (token ≡ expected)
      × (length requests ≤ max_batch)
      × (map (λ p. p.plan_request_id) plans ≡ map (λ r. r.plan_request_id) requests)
      × (map (λ p. p.version) plans ≡ map (λ r. or_zero r.previous_plan_version + 1) requests)
unfolding batch_run
batch_run-answers max_batch expected token uuid today requests plans e =
    let (granted, f, g) = >>=-eq-ok (ensure_internal_access expected token) _ e in
    let (checked, h, i) = >>=-eq-ok (check_batch max_batch requests) _ g in
    let (small, same) = check_batch-eq max_batch requests checked h in
    let ran : run_plans uuid 0 today requests ≡ ok plans =
      subst (λ rs. run_plans uuid 0 today rs ≡ ok plans) same i in
    let (ids, versions) = run_plans-Answers uuid 0 today requests plans ran in
    (access-eq expected token f, small, ids, versions)
