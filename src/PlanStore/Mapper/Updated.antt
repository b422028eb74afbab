-- ===== src/PlanStore/Mapper/Updated.antt =====
-- Backend/app/infrastructure/mappers/planner_domain_mapper.py: what a plan that is written over the
-- rows of another one is read back as.
use life_merge.Base.{
  ℕ, ◌≡◌, refl, sym, ap, ◌∙◌, false, Option, none, some, List, [], ◌∷◌, map, ◌==◌, ==_iff, find,
  Pairs, arith, Bool-cases, inl, inr, some_eq,
}
use life_merge.PlanStore.Models.{
  DomainPlannerSlot, DomainPlannerConflict, DomainPlannerPlan, SqlPlannerSlot, SqlPlannerConflict,
  SqlPlannerPlan,
}
use life_merge.PlanStore.Rows.{updated, row_at-update_rows}
use life_merge.PlanStore.Mapper.{
  map_option, to_domain, from_domain, update_sql_from_domain, slot_to_domain, conflict_to_domain,
  new_slot, new_conflict, set_slot, set_conflict, slot_key, conflict_key, update_slots,
  update_conflicts, mapper_program,
}

abbrev pub slot_at : ℕ → List DomainPlannerSlot → Option DomainPlannerSlot
slot_at i = find (λ slot. slot.slot_id == i)

abbrev pub conflict_at : ℕ → List DomainPlannerConflict → Option DomainPlannerConflict
conflict_at i = find (λ conflict. conflict.conflict_id == i)

-- A slot over the one that was stored, whose date of creation stays.
abbrev pub slot_over :
    Option DomainPlannerSlot → Option DomainPlannerSlot → Option DomainPlannerSlot
slot_over none old = none
slot_over (some slot) none = some slot
slot_over (some slot) (some old) = some (record slot { created_at = old.created_at })

slot_at-map :
    (i : ℕ) (rows : List SqlPlannerSlot)
    → slot_at i (map slot_to_domain rows)
      ≡ map_option slot_to_domain (find (λ row. row.slot_id == i) rows)
unfolding mapper_program
slot_at-map i [] = refl
slot_at-map i (row ∷ rows) = ground (arith, slot_at-map i rows)

conflict_at-map :
    (i : ℕ) (rows : List SqlPlannerConflict)
    → conflict_at i (map conflict_to_domain rows)
      ≡ map_option conflict_to_domain (find (λ row. row.conflict_id == i) rows)
unfolding mapper_program
conflict_at-map i [] = refl
conflict_at-map i (row ∷ rows) = ground (arith, conflict_at-map i rows)

abbrev pub DistinctSlots : List DomainPlannerSlot → Type 0
DistinctSlots = Pairs (λ a b. (slot_key a == slot_key b) ≡ false)

abbrev pub DistinctConflicts : List DomainPlannerConflict → Type 0
DistinctConflicts = Pairs (λ a b. (conflict_key a == conflict_key b) ≡ false)

find-key :
    {A : Type 0} (key : A → ℕ) (i : ℕ) (rows : List A) (row : A)
    → find (λ r. key r == i) rows ≡ some row
    → key row ≡ i
find-key key i [] row e = cc
find-key key i (r ∷ rows) row e = elim (Bool-cases (key r == i)) [
  | inl hit ↦ let same : r ≡ row = some_eq (rw hit at e) in ap key (sym same) ∙ (==_iff _ i).0 hit
  | inr miss ↦ find-key key i rows row (rw miss at e)
]

slot_at-update :
    (i : ℕ) (slots : List DomainPlannerSlot) (rows : List SqlPlannerSlot)
    → DistinctSlots slots
    → slot_at i (map slot_to_domain (update_slots slots rows))
      ≡ slot_over (slot_at i slots) (slot_at i (map slot_to_domain rows))
unfolding mapper_program
slot_at-update i slots rows distinct =
    slot_at-map i (update_slots slots rows)
    ∙ rw
        (
          row_at-update_rows slot_key (λ row. row.slot_id) set_slot new_slot (λ d s. refl)
              (λ d. refl) i slots rows distinct,
          slot_at-map i rows,
        )
        (over (slot_at i slots) (find (λ row. row.slot_id == i) rows) refl refl)
  where
    over :
        (slot : Option DomainPlannerSlot) (row : Option SqlPlannerSlot)
        → slot_at i slots ≡ slot
        → find (λ r. r.slot_id == i) rows ≡ row
        → map_option slot_to_domain
            (updated slot_key (λ (r : SqlPlannerSlot). r.slot_id) set_slot new_slot slot row)
          ≡ slot_over slot (map_option slot_to_domain row)
    over none row e f = refl
    over (some slot) none e f = refl
    over (some slot) (some row) e f =
        let same : row.slot_id ≡ slot.slot_id =
          find-key (λ r. r.slot_id) i rows row f ∙ sym (find-key slot_key i slots slot e) in
        ap (λ k. some (record slot { slot_id = k; created_at = row.created_at })) same

conflict_at-update :
    (i : ℕ) (conflicts : List DomainPlannerConflict) (rows : List SqlPlannerConflict)
    → DistinctConflicts conflicts
    → conflict_at i (map conflict_to_domain (update_conflicts conflicts rows))
      ≡ conflict_at i conflicts
unfolding mapper_program
conflict_at-update i conflicts rows distinct =
    conflict_at-map i (update_conflicts conflicts rows)
    ∙ rw
        (row_at-update_rows conflict_key (λ row. row.conflict_id) set_conflict new_conflict
          (λ d s. refl) (λ d. refl) i conflicts rows distinct)
        (over (conflict_at i conflicts) (find (λ row. row.conflict_id == i) rows) refl refl)
  where
    over :
        (conflict : Option DomainPlannerConflict) (row : Option SqlPlannerConflict)
        → conflict_at i conflicts ≡ conflict
        → find (λ r. r.conflict_id == i) rows ≡ row
        → map_option conflict_to_domain (
            updated conflict_key
              (λ (r : SqlPlannerConflict). r.conflict_id)
              set_conflict
              new_conflict
              conflict
              row)
          ≡ conflict
    over none row e f = refl
    over (some conflict) none e f = refl
    over (some conflict) (some row) e f =
        let same : row.conflict_id ≡ conflict.conflict_id =
          find-key (λ r. r.conflict_id) i rows row f
          ∙ sym (find-key conflict_key i conflicts conflict e) in
        ap (λ k. some (record conflict { conflict_id = k })) same

-- The entries of a new plan are read back as they were.
slots-new : (slots : List DomainPlannerSlot) → map slot_to_domain (map new_slot slots) ≡ slots
unfolding mapper_program
slots-new [] = refl
slots-new (slot ∷ slots) = ap (λ rest. slot ∷ rest) (slots-new slots)

conflicts-new :
    (conflicts : List DomainPlannerConflict)
    → map conflict_to_domain (map new_conflict conflicts) ≡ conflicts
unfolding mapper_program
conflicts-new [] = refl
conflicts-new (conflict ∷ conflicts) = ap (λ rest. conflict ∷ rest) (conflicts-new conflicts)

module _ {Json : Type 0} (empty : Json) where
  abbrev pub slots_of : Option (DomainPlannerPlan Json) → List DomainPlannerSlot
  slots_of none = []
  slots_of (some plan) = plan.slots

  -- The fields that belong to a plan that was there before.
  abbrev pub Origin :
      DomainPlannerPlan Json → Option (DomainPlannerPlan Json) → DomainPlannerPlan Json → Type 0
  Origin plan none new =
      (new.user_id ≡ plan.user_id)
      × (new.plan_request_id ≡ plan.plan_request_id)
      × (new.created_at ≡ plan.created_at)
  Origin plan (some old) new =
      (new.user_id ≡ old.user_id)
      × (new.plan_request_id ≡ old.plan_request_id)
      × (new.created_at ≡ old.created_at)

  -- `new` is `plan` over the plan that was stored.
  abbrev pub IsSaved :
      DomainPlannerPlan Json → Option (DomainPlannerPlan Json) → DomainPlannerPlan Json → Type 0
  IsSaved plan old new =
      (new.plan_id ≡ plan.plan_id)
      × (new.status ≡ plan.status)
      × (new.version ≡ plan.version)
      × (new.source ≡ plan.source)
      × (new.request_payload ≡ plan.request_payload)
      × (new.response_payload ≡ plan.response_payload)
      × (new.updated_at ≡ plan.updated_at)
      × Origin plan old new
      × ((i : ℕ)
          → slot_at i new.slots ≡ slot_over (slot_at i plan.slots) (slot_at i (slots_of old)))
      × ((i : ℕ) → conflict_at i new.conflicts ≡ conflict_at i plan.conflicts)

  pub from_domain-IsSaved :
      (plan : DomainPlannerPlan Json) → IsSaved plan none (to_domain empty (from_domain plan))
  unfolding mapper_program
  from_domain-IsSaved plan = (
    refl,
    refl,
    refl,
    refl,
    refl,
    refl,
    refl,
    (refl, refl, refl),
    λ i. ap (slot_at i) (slots-new plan.slots) ∙ over (slot_at i plan.slots),
    λ i. ap (conflict_at i) (conflicts-new plan.conflicts),
  )
    where
      over : (slot : Option DomainPlannerSlot) → slot ≡ slot_over slot none
      over none = refl
      over (some slot) = refl

  pub update-IsSaved :
      (plan : DomainPlannerPlan Json) (row : SqlPlannerPlan Json)
      → row.id ≡ plan.plan_id
      → DistinctSlots plan.slots
      → DistinctConflicts plan.conflicts
      → IsSaved plan
          (some (to_domain empty row))
          (to_domain empty (update_sql_from_domain plan row))
  unfolding mapper_program
  update-IsSaved plan row same slots conflicts = (
    same,
    refl,
    refl,
    refl,
    refl,
    refl,
    refl,
    (refl, refl, refl),
    λ i. slot_at-update i plan.slots row.slots slots,
    λ i. conflict_at-update i plan.conflicts row.conflicts conflicts,
  )
