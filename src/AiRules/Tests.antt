-- ===== src/AiRules/Tests.antt =====
-- Rules at concrete rows.
use life_merge.Base.{ℕ, ◌<◌, Pairs, mem, ◌≡◌, refl, true, false, List, [], ◌∷◌, ◌==◌, if◌then◌else◌}
use life_merge.Base.Result.{ok, raise, integrity_error}
use life_merge.AiRules.{
  AiRulesBase, AiUserRule, get_ai_rules, upsert_ai_rules, validate, no_rules, ai_rules_program,
}
use life_merge.AiRules.Stored.{get_ai_rules-upsert_ai_rules}

abbrev stored : AiUserRule
stored = record {
  id = 1;
  user_id = 7;
  rules = no_rules;
  created_at = 10;
  updated_at = 10;
  deleted = false;
}

abbrev body : AiRulesBase
body = record {
  quiet_hours = record { start_time = 100; end_time = 200 } ∷ [];
  breaks = [];
  blocked_days = 6 ∷ 2 ∷ 6 ∷ [];
}

abbrev payload : AiRulesBase
payload = record body { blocked_days = 2 ∷ 6 ∷ [] }

validate_test : validate body ≡ ok payload
unfolding ai_rules_program
validate_test = refl

-- A user whose row is deleted cannot have rules again.
upsert_deleted_test :
    upsert_ai_rules 20 2 7 body (record stored { deleted = true } ∷ []) ≡ raise integrity_error
unfolding ai_rules_program
upsert_deleted_test = refl

get_ai_rules-upsert_ai_rules_example :
    (payload.quiet_hours ≡ body.quiet_hours)
    × (payload.breaks ≡ body.breaks)
    × Pairs (λ a b. a < b) payload.blocked_days
    × ((day : ℕ) → mem day payload.blocked_days ≡ mem day body.blocked_days)
    × ((after : List AiUserRule) × (upsert_ai_rules 20 2 7 body (stored ∷ []) ≡ ok (payload, after))
        × ((v : ℕ)
            → get_ai_rules v after ≡ (if 7 == v then ok payload else get_ai_rules v (stored ∷ []))))
get_ai_rules-upsert_ai_rules_example =
    get_ai_rules-upsert_ai_rules 20 2 7 body payload (stored ∷ []) (tt, tt) refl refl validate_test
