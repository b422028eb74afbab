-- ===== src/AiService/Checked.antt =====
-- The checks on a request in Backend/ai_service/main.py change nothing of it.
use life_merge.Base.{
  ℕ, ◌≡◌, ◌≤◌, sym, ap₂, ◌∙◌, List, [], ◌∷◌, length, ltb, ltb-false, Bool-cases, inl, inr,
}
use life_merge.Base.Result.{Result, ok, raise, value_error, >>=-eq-ok, ok_inj}
use life_merge.AiService.{
  PlannerRun, check_batch, check_all, check_run, check_entry, check_task, check_event,
  check_preferences,
}

check_run-eq : (run checked : PlannerRun) → check_run run ≡ ok checked → checked ≡ run
unfolding check_run
check_run-eq run checked e =
    let (a, f, g) = >>=-eq-ok (check_all check_entry run.work_schedule) _ e in
    let (b, h, i) = >>=-eq-ok (check_all check_task run.tasks) _ g in
    let (c, j, k) = >>=-eq-ok (check_all check_event run.calendar_events) _ i in
    let (d, l, m) = >>=-eq-ok (check_preferences run.preferences) _ k in sym (ok_inj m)

check_all-eq :
    {A : Type 0} (f : A → Result A)
    → ((x y : A) → f x ≡ ok y → y ≡ x)
    → (xs ys : List A) → check_all f xs ≡ ok ys
    → ys ≡ xs
unfolding check_all
check_all-eq f same [] ys e = sym (ok_inj e)
check_all-eq f same (x ∷ xs) ys e =
    let (y, g, h) = >>=-eq-ok (f x) _ e in
    let (rest, i, j) = >>=-eq-ok (check_all f xs) _ h in
    sym (ok_inj j) ∙ ap₂ (λ a l. a ∷ l) (same x y g) (check_all-eq f same xs rest i)

pub check_batch-eq :
    (max_batch : ℕ) (requests checked : List PlannerRun)
    → check_batch max_batch requests ≡ ok checked
    → (length requests ≤ max_batch) × (checked ≡ requests)
unfolding check_batch
check_batch-eq max_batch requests checked e = elim (Bool-cases (ltb max_batch (length requests))) [
  | inl t ↦ let no : raise (value_error "batch too large") ≡ ok checked = rw t at e in cc
  | inr t ↦ (
    ltb-false max_batch (length requests) t,
    check_all-eq check_run check_run-eq requests checked (rw t at e),
  )
]
