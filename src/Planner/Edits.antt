-- ===== src/Planner/Edits.antt =====
-- `SlotGenerator.validate_slots` of Backend/app/services/planner/components.py: a user's edits of
-- the slots of a plan.
use life_merge.Base.{
  ℕ, ◌≡◌, refl, ap₂, subst, Bool, true, false, Option, none, some, List, [], ◌∷◌, String, str_eq,
  ◌==◌, map, if◌then◌else◌, All,
}
use life_merge.Base.Result.{Result, ok, raise, ◌>>=◌, ok_inj, >>=-eq-ok}
use life_merge.Planner.Time.{DateTime, before}
use life_merge.Planner.Model.{Slot}

-- `PlannerSlotEdit`
pub record SlotEdit : Type 0 where
  pub slot_id : ℕ
  pub title : Option String
  pub description : Option String
  pub start_at : Option DateTime
  pub end_at : Option DateTime

-- `edits_map.get(slot_id)`: a later edit replaces an earlier one.
edit_for : ℕ → List SlotEdit → Option SlotEdit
edit_for slot_id [] = none
edit_for slot_id (e ∷ es) = elim (edit_for slot_id es) [
  | some later ↦ some later
  | none ↦ if e.slot_id == slot_id then some e else none
]

-- `edit or slot`: an empty text counts as absent.
abbrev or_text : Option String → Option String → Option String
or_text none d = d
or_text (some t) d = if str_eq t "" then d else some t

abbrev or_title : Option String → String → String
or_title none d = d
or_title (some t) d = if str_eq t "" then d else t

abbrev or_datetime : Option DateTime → DateTime → DateTime
or_datetime none d = d
or_datetime (some t) d = t

edited_slot : Slot → SlotEdit → Slot
edited_slot slot edit = record slot {
  title = or_title edit.title slot.title;
  description = or_text edit.description slot.description;
  start_at = or_datetime edit.start_at slot.start_at;
  end_at = or_datetime edit.end_at slot.end_at;
}

-- An edit whose end is not after its start is dropped.
keep_valid : Slot → Slot → Result Bool → Result Slot
keep_valid slot edited (raise e) = raise e
keep_valid slot edited (ok true) = ok edited
keep_valid slot edited (ok false) = ok slot

apply_edit : Slot → SlotEdit → Result Slot
apply_edit slot edit =
    let edited = edited_slot slot edit in
    keep_valid slot edited (before edited.start_at edited.end_at)

edit_slot : List SlotEdit → Slot → Result Slot
edit_slot edits slot = elim (edit_for slot.slot_id edits) [
  | none ↦ ok slot
  | some edit ↦ apply_edit slot edit
]

edit_slots : List SlotEdit → List Slot → Result (List Slot)
edit_slots edits [] = ok []
edit_slots edits (slot ∷ slots) =
    edit_slot edits slot >>= λ s. edit_slots edits slots >>= λ rest. ok (s ∷ rest)

-- `validate_slots`
pub validate_slots : List Slot → List SlotEdit → Result (List Slot)
validate_slots slots [] = ok slots
validate_slots slots (e ∷ es) = edit_slots (e ∷ es) slots

-- What `PlannerSlot.__post_init__` demands.
abbrev pub IsValidSlot : Slot → Type 0
IsValidSlot s = before s.start_at s.end_at ≡ ok true

-- The edited slots are the given ones, in order: the same identifiers and tasks, and valid ranges.
abbrev SameSlots : List Slot → List Slot → Type 0
SameSlots slots edited =
    (map (λ s. s.slot_id) edited ≡ map (λ s. s.slot_id) slots)
    × (map (λ s. s.task_id) edited ≡ map (λ s. s.task_id) slots)
    × All IsValidSlot edited

-- `s` is `slot` with other times or texts, and has a valid range.
abbrev IsVersion : Slot → Slot → Type 0
IsVersion slot s = (s.slot_id ≡ slot.slot_id) × (s.task_id ≡ slot.task_id) × IsValidSlot s

keep_valid-IsVersion :
    (slot edited s : Slot) (r : Result Bool)
    → IsValidSlot slot
    → before edited.start_at edited.end_at ≡ r
    → (edited.slot_id ≡ slot.slot_id) × (edited.task_id ≡ slot.task_id)
    → keep_valid slot edited r ≡ ok s
    → IsVersion slot s
unfolding keep_valid
keep_valid-IsVersion slot edited s (raise x) v b same e = cc
keep_valid-IsVersion slot edited s (ok true) v b same e =
    subst (IsVersion slot) (ok_inj e) (same.0, same.1, b)
keep_valid-IsVersion slot edited s (ok false) v b same e =
    subst (IsVersion slot) (ok_inj e) (refl, refl, v)

edit_slot-IsVersion :
    (edits : List SlotEdit) (slot s : Slot) (r : Option SlotEdit)
    → edit_for slot.slot_id edits ≡ r
    → IsValidSlot slot
    → edit_slot edits slot ≡ ok s
    → IsVersion slot s
unfolding edit_slot apply_edit edited_slot
edit_slot-IsVersion edits slot s none f v e =
    let same : ok slot ≡ ok s = rw (f, edit_slot) at e in
    subst (IsVersion slot) (ok_inj same) (refl, refl, v)
edit_slot-IsVersion edits slot s (some edit) f v e =
    keep_valid-IsVersion slot (edited_slot slot edit) s _ v refl (refl, refl)
      (rw (f, edit_slot) at e)

edit_slots_same :
    (edits : List SlotEdit) (slots edited : List Slot)
    → All IsValidSlot slots
    → edit_slots edits slots ≡ ok edited
    → SameSlots slots edited
unfolding edit_slots
edit_slots_same edits [] edited v e = subst (SameSlots []) (ok_inj e) (refl, refl, tt)
edit_slots_same edits (slot ∷ slots) edited v e =
    let (s, first, after) = >>=-eq-ok (edit_slot edits slot) _ e in
    let (rest, second, last) = >>=-eq-ok (edit_slots edits slots) _ after in
    let (same_id, same_task, valid) = edit_slot-IsVersion edits slot s _ refl v.0 first in
    let (ids, tasks, all) = edit_slots_same edits slots rest v.1 second in
    subst (SameSlots (slot ∷ slots)) (ok_inj last)
      (ap₂ ◌∷◌ same_id ids, ap₂ ◌∷◌ same_task tasks, (valid, all))

-- Edits that go through leave the slots in their order, with their identifiers and their tasks,
-- and each with an end after its start, if the slots had that.
pub validate_slots_same :
    (slots edited : List Slot) (edits : List SlotEdit)
    → All IsValidSlot slots
    → validate_slots slots edits ≡ ok edited
    → (map (λ s. s.slot_id) edited ≡ map (λ s. s.slot_id) slots)
      × (map (λ s. s.task_id) edited ≡ map (λ s. s.task_id) slots)
      × All IsValidSlot edited
unfolding validate_slots
validate_slots_same slots edited [] v e = subst (SameSlots slots) (ok_inj e) (refl, refl, v)
validate_slots_same slots edited (x ∷ xs) v e = edit_slots_same (x ∷ xs) slots edited v e

-- No edits leave the slots as they are.
pub validate_slots-no_edits : (slots : List Slot) → validate_slots slots [] ≡ ok slots
unfolding validate_slots
validate_slots-no_edits slots = refl

-- Opens the whole of this component, for evaluation.
unfoldable pub edits_program : Unit {0}
unfolding validate_slots edit_slots edit_slot apply_edit edited_slot keep_valid edit_for
edits_program = tt
