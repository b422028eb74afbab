-- ===== src/Planner/Answer.antt =====
-- `AIOrchestrator` of Backend/app/services/planner/components.py: what is made of the answer of
-- the AI service. The HTTP call and its exceptions are the argument `answer`.
use life_merge.Base.{
  ℕ, ◌+◌, Option, none, some, List, [], ◌∷◌, String, is_some_eq, find, map, ◌==◌, if◌then◌else◌,
}
use life_merge.Base.Result.{Result, ok, raise, ◌>>=◌}
use life_merge.Planner.Model.{Slot, Conflict}
use life_merge.Planner.Values.{SlotData, ConflictData, make_slot, make_conflict}
use life_merge.Planner.Generate.{Payload, generate_slots}

-- An entry of `plans` in the answer. Identifiers that are no UUIDs are not modelled.
pub record PlanData : Type 0 where
  pub plan_request_id : Option ℕ
  pub status : Option String
  pub slots : List SlotData
  pub conflicts : List ConflictData
  pub version : Option ℕ
  pub source : Option String

-- The call of the service: it raised, or its JSON has these `plans`.
pub data Answer : Type 0 where
  failed : Answer
  plans : List PlanData → Answer

-- The dict that the orchestrator returns.
pub record AiPlan : Type 0 where
  pub status : String
  pub slots : List Slot
  pub conflicts : List Conflict
  pub version : ℕ
  pub source : String

-- The slots that can be built; the others are logged and left out. `uuid k` is the identifier
-- that is drawn if the k-th of them has none.
parse_slots : (ℕ → ℕ) → List SlotData → List Slot
parse_slots uuid [] = []
parse_slots uuid (d ∷ ds) =
    let rest = parse_slots (λ k. uuid (1 + k)) ds in
    elim (make_slot (uuid 0) d) [ raise e ↦ rest | ok s ↦ s ∷ rest ]

module _ (uuid : ℕ → ℕ) (today : ℕ) (payload : Payload) (previous_version : ℕ) where
  -- `handle_ai_fallback`
  pub handle_ai_fallback : Result AiPlan
  handle_ai_fallback = generate_slots uuid today payload >>= λ (slots, conflicts). ok (record {
    status = "ready";
    slots = slots;
    conflicts = conflicts;
    version = previous_version + 1;
    source = "ai";
  })

  -- The slots and conflicts of the answer, or generated ones if no slot of it can be read.
  slots_or_generated : List Slot → List Conflict → Result (List Slot × List Conflict)
  slots_or_generated [] conflicts = generate_slots uuid today payload
  slots_or_generated (s ∷ ss) conflicts = ok (s ∷ ss, conflicts)

  -- `version or previous_version + 1`: a version 0 counts as absent.
  version_or_next : Option ℕ → ℕ
  version_or_next none = previous_version + 1
  version_or_next (some v) = if v == 0 then previous_version + 1 else v

  -- `parse_ai_response`
  pub parse_ai_response : PlanData → Result AiPlan
  parse_ai_response plan_data =
      slots_or_generated (parse_slots uuid plan_data.slots) (map make_conflict plan_data.conflicts)
      >>= λ (slots, conflicts). ok (record {
        status = elim plan_data.status [ none ↦ "ready" | some s ↦ s ];
        slots = slots;
        conflicts = conflicts;
        version = version_or_next plan_data.version;
        source = elim plan_data.source [ none ↦ "ai" | some s ↦ s ];
      })

  parse_found : Option PlanData → Result AiPlan
  parse_found none = handle_ai_fallback
  parse_found (some plan_data) = parse_ai_response plan_data

  -- `request_ai_plan`
  pub request_ai_plan : ℕ → Answer → Result AiPlan
  request_ai_plan plan_request_id failed = handle_ai_fallback
  request_ai_plan plan_request_id (plans ps) =
      parse_found (find (λ p. is_some_eq p.plan_request_id plan_request_id) ps)

-- Opens the whole of this component, for evaluation.
unfoldable pub answer_program : Unit {0}
unfolding request_ai_plan parse_found parse_ai_response version_or_next slots_or_generated
    handle_ai_fallback parse_slots
answer_program = tt
