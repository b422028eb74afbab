-- ===== src/AiRules.antt =====
-- Backend/app/services/ai_rules_service.py and Backend/app/repositories/ai_rules_repo.py, with the
-- checks of Backend/app/schemas/ai_rules.py and the routes of Backend/app/api/v1/ai_rules.py. A
-- time of day is a number of microseconds. Of a body, `request_id` is left out.
pub mod Days
pub mod Stored
mod Tests
use life_merge.Base.{
  ℕ, ◌≡◌, Bool, true, false, not, ◌&&◌, ◌||◌, Option, none, some, List, [], ◌∷◌, ◌++◌, ◌==◌, ltb,
  leb, any, mem, select, if◌then◌else◌,
}
use life_merge.Base.Result.{Result, ok, raise, http_error, integrity_error, ◌>>=◌}
use life_merge.Base.Sort.{sort}
use life_merge.Auth.{scalar_one_or_none}
use life_merge.Auth.Tokens.{tokens_program}

pub record QuietHoursRule : Type 0 where
  pub start_time : ℕ
  pub end_time : ℕ

pub record BreakRule : Type 0 where
  pub day_of_week : ℕ
  pub start_time : ℕ
  pub end_time : ℕ

pub record AiRulesBase : Type 0 where
  pub quiet_hours : List QuietHoursRule
  pub breaks : List BreakRule
  pub blocked_days : List ℕ

-- The row of Backend/app/models/ai_user_rule.py.
pub record AiUserRule : Type 0 where
  pub id : ℕ
  pub user_id : ℕ
  pub rules : AiRulesBase
  pub created_at : ℕ
  pub updated_at : ℕ
  pub deleted : Bool

abbrev pub no_rules : AiRulesBase
no_rules = record { quiet_hours = []; breaks = []; blocked_days = [] }

-- `set`, of which the last of equal entries stays.
pub distinct : List ℕ → List ℕ
distinct [] = []
distinct (n ∷ ns) = let rest = distinct ns in if mem n rest then rest else n ∷ rest

-- `sorted(set(value))`
pub sorted_set : List ℕ → List ℕ
sorted_set ns = sort leb (distinct ns)

-- What the validators refuse.
pub is_invalid : AiRulesBase → Bool
is_invalid body =
    any (λ q. leb q.end_time q.start_time) body.quiet_hours
    || (any (λ b. ltb 6 b.day_of_week || leb b.end_time b.start_time) body.breaks
        || any (λ day. ltb 6 day) body.blocked_days)

-- `AiRulesBase.model_validate`
pub validate : AiRulesBase → Result AiRulesBase
validate body =
    if is_invalid body
    then raise (http_error "422" "validation_error")
    else ok (record body { blocked_days = sorted_set body.blocked_days })

-- The rules of a user that are not deleted.
pub is_of : ℕ → AiUserRule → Bool
is_of user_id row = (row.user_id == user_id) && not row.deleted

-- `get_by_user_id`
pub get_by_user_id : ℕ → List AiUserRule → Result (Option AiUserRule)
get_by_user_id user_id db = scalar_one_or_none (select (is_of user_id) db)

-- `create`: a user has one row at most.
pub create : AiUserRule → List AiUserRule → Result (List AiUserRule)
create row db =
    if any (λ r. (r.id == row.id) || (r.user_id == row.user_id)) db
    then raise integrity_error
    else ok (db ++ row ∷ [])

abbrev pub with_rules : ℕ → AiRulesBase → AiUserRule → AiUserRule
with_rules now rules row = record row { rules = rules; updated_at = now; deleted = false }

-- `update_rules`
pub update_rules : ℕ → ℕ → AiRulesBase → List AiUserRule → List AiUserRule
update_rules now rule_id rules [] = []
update_rules now rule_id rules (row ∷ db) =
    let rest = update_rules now rule_id rules db in
    if row.id == rule_id then with_rules now rules row ∷ rest else row ∷ rest

pub new_rules : ℕ → ℕ → ℕ → AiRulesBase → AiUserRule
new_rules now uuid user_id rules = record {
  id = uuid;
  user_id = user_id;
  rules = rules;
  created_at = now;
  updated_at = now;
  deleted = false;
}

pub upsert_over :
    ℕ
    → ℕ
    → ℕ
    → AiRulesBase
    → List AiUserRule
    → Option AiUserRule
    → Result (AiUserRule × List AiUserRule)
upsert_over now uuid user_id rules db none =
    create (new_rules now uuid user_id rules) db >>= λ after.
    ok (new_rules now uuid user_id rules, after)
upsert_over now uuid user_id rules db (some existing) =
    ok (with_rules now rules existing, update_rules now existing.id rules db)

-- `upsert_rules`; `uuid` is the identifier that a new row takes.
pub upsert_rules : ℕ → ℕ → ℕ → AiRulesBase → List AiUserRule → Result (AiUserRule × List AiUserRule)
upsert_rules now uuid user_id rules db =
    get_by_user_id user_id db >>= λ existing. upsert_over now uuid user_id rules db existing

-- `_serialize_rules`
pub serialize_rules : Option AiUserRule → Result AiRulesBase
serialize_rules none = validate no_rules
serialize_rules (some row) = validate row.rules

-- `get_ai_rules`
pub get_ai_rules : ℕ → List AiUserRule → Result AiRulesBase
get_ai_rules user_id db = get_by_user_id user_id db >>= λ rules. serialize_rules rules

-- `upsert_ai_rules`, whose body is checked before.
pub upsert_ai_rules :
    ℕ → ℕ → ℕ → AiRulesBase → List AiUserRule → Result (AiRulesBase × List AiUserRule)
upsert_ai_rules now uuid user_id body db = validate body >>= λ payload.
    upsert_rules now uuid user_id payload db >>= λ (row, after).
    serialize_rules (some row) >>= λ out. ok (out, after)

-- What a run unfolds.
unfoldable pub ai_rules_program : Unit {0}
unfolding distinct sorted_set is_invalid validate is_of get_by_user_id create update_rules new_rules
    upsert_over upsert_rules serialize_rules get_ai_rules upsert_ai_rules sort tokens_program
ai_rules_program = tt
