-- ===== src/AiRules/Stored.antt =====
-- Backend/app/api/v1/ai_rules.py: rules that are put and read back.
use life_merge.Base.{
  ◌<◌, mem, ℕ, ◌≡◌, refl, ap, ◌∙◌, Bool, true, false, not, ◌&&◌, ◌||◌, List, [], ◌∷◌, ◌++◌, ◌==◌,
  ==_iff, ==_refl, any, select, select-append, All, All-select, Pairs, if◌then◌else◌, arith,
  Bool-cases, inl, inr, subst, and_true,
}
use life_merge.Base.Result.{ok}
use life_merge.Auth.Tokens.{tokens_program}
use life_merge.AiRules.{
  AiRulesBase, AiUserRule, is_of, get_by_user_id, create, with_rules, update_rules, new_rules,
  upsert_over, upsert_rules, serialize_rules, get_ai_rules, upsert_ai_rules, validate,
}
use life_merge.AiRules.Days.{validate-validate, validate-payload}

-- The two keys of the table.
abbrev pub AreKeyed : List AiUserRule → Type 0
AreKeyed = Pairs (λ a b. ((a.id == b.id) ≡ false) × ((a.user_id == b.user_id) ≡ false))

abbrev pub is_buried : ℕ → AiUserRule → Bool
is_buried user_id row = (row.user_id == user_id) && row.deleted

none_of :
    (user_id : ℕ) (rows : List AiUserRule) (first : AiUserRule)
    → (first.user_id == user_id) ≡ true
    → All (λ r. ((first.id == r.id) ≡ false) × ((first.user_id == r.user_id) ≡ false)) rows
    → select (is_of user_id) rows ≡ []
unfolding is_of
none_of user_id [] first same apart = refl
none_of user_id (r ∷ rows) first same apart =
    ground (arith, apart.0.1, none_of user_id rows first same apart.1)

-- The query has no row, or one.
data Found (user_id : ℕ) (db : List AiUserRule) : Type 0 where
  missing : select (is_of user_id) db ≡ [] → Found user_id db
  there : (row : AiUserRule) → select (is_of user_id) db ≡ row ∷ [] → Found user_id db

find_rules : (user_id : ℕ) (db : List AiUserRule) → AreKeyed db → Found user_id db
unfolding is_of
find_rules user_id [] keyed = missing refl
find_rules user_id (row ∷ db) keyed =
    elim (Bool-cases ((row.user_id == user_id) && not row.deleted)) [
      | inl hit ↦ there row (rw (hit, none_of user_id db row (and_true _ _ hit).0 keyed.0) refl)
      | inr miss ↦ later miss (find_rules user_id db keyed.1)
    ]
  where
    later :
        ((row.user_id == user_id) && not row.deleted) ≡ false
        → Found user_id db
        → Found user_id (row ∷ db)
    later miss (missing e) = missing (rw miss e)
    later miss (there r e) = there r (rw miss e)

user-free :
    (uuid user_id : ℕ) (db : List AiUserRule)
    → select (is_of user_id) db ≡ []
    → any (is_buried user_id) db ≡ false
    → any (λ r. r.id == uuid) db ≡ false
    → any (λ r. (r.id == uuid) || (r.user_id == user_id)) db ≡ false
unfolding is_of
user-free uuid user_id [] gone free fresh = refl
user-free uuid user_id (row ∷ db) gone free fresh =
    elim (Bool-cases ((row.user_id == user_id) && not row.deleted)) [
      | inl hit ↦ let left : row ∷ select (is_of user_id) db ≡ [] = rw hit at gone in cc
      | inr miss ↦
          ground (arith, user-free uuid user_id db (rw miss at gone) (ground arith) (ground arith))
    ]

update-absent :
    (now i : ℕ) (rules : AiRulesBase) (db : List AiUserRule)
    → All (λ r. (r.id == i) ≡ false) db
    → update_rules now i rules db ≡ db
unfolding update_rules
update-absent now i rules [] h = refl
update-absent now i rules (row ∷ db) h =
    rw h.0 (ap (λ rest. row ∷ rest) (update-absent now i rules db h.1))

flip_ids :
    (row : AiUserRule) (rows : List AiUserRule)
    → All (λ r. ((row.id == r.id) ≡ false) × ((row.user_id == r.user_id) ≡ false)) rows
    → All (λ r. (r.id == row.id) ≡ false) rows
flip_ids row [] h = tt
flip_ids row (r ∷ rows) h = (ground (arith, h.0.0), flip_ids row rows h.1)

-- A row that stands before the one that is found has another key.
before-clear :
    (user_id : ℕ) (old row : AiUserRule) (db : List AiUserRule)
    → All (λ r. ((row.id == r.id) ≡ false) × ((row.user_id == r.user_id) ≡ false)) db
    → select (is_of user_id) db ≡ old ∷ []
    → (row.id == old.id) ≡ false
before-clear user_id old row db apart found =
    (subst (All (λ r. ((row.id == r.id) ≡ false) × ((row.user_id == r.user_id) ≡ false))) found
      (All-select _ (is_of user_id) db apart)).0.0

module _ (now user_id : ℕ) (rules : AiRulesBase) (old : AiUserRule) where
  rest-absent :
      (row : AiUserRule) (db : List AiUserRule)
      → row ≡ old
      → All (λ r. ((row.id == r.id) ≡ false) × ((row.user_id == r.user_id) ≡ false)) db
      → update_rules now old.id rules db ≡ db
  rest-absent row db same apart =
      update-absent now old.id rules db
        (subst (λ o. All (λ r. (r.id == o.id) ≡ false) db) same (flip_ids row db apart))

  select-update_self :
      (db : List AiUserRule)
      → AreKeyed db
      → select (is_of user_id) db ≡ old ∷ []
      → select (is_of user_id) (update_rules now old.id rules db) ≡ with_rules now rules old ∷ []
  unfolding is_of update_rules
  select-update_self [] keyed found = cc
  select-update_self (row ∷ db) keyed found =
      elim (Bool-cases ((row.user_id == user_id) && not row.deleted)) [
        | inl hit ↦
            let here : row ∷ select (is_of user_id) db ≡ old ∷ [] = rw hit at found in
            let same : row ≡ old = cc in
            let mine : (row.user_id == user_id) ≡ true = (and_true _ _ hit).0 in
            let here_id : (row.id == old.id) ≡ true =
              subst (λ r. (row.id == r.id) ≡ true) same (==_refl row.id) in
            rw (here_id, rest-absent row db same keyed.0, mine, none_of user_id db row mine keyed.0)
              (ap (λ r. with_rules now rules r ∷ []) same)
        | inr miss ↦
            let later : select (is_of user_id) db ≡ old ∷ [] = rw miss at found in
            rw (before-clear user_id old row db keyed.0 later, miss)
              (select-update_self db keyed.1 later)
      ]

  select-update_other :
      (v : ℕ) (db : List AiUserRule)
      → (user_id == v) ≡ false
      → AreKeyed db
      → select (is_of user_id) db ≡ old ∷ []
      → select (is_of v) (update_rules now old.id rules db) ≡ select (is_of v) db
  unfolding is_of update_rules
  select-update_other v [] other keyed found = cc
  select-update_other v (row ∷ db) other keyed found =
      elim (Bool-cases ((row.user_id == user_id) && not row.deleted)) [
        | inl hit ↦
            let here : row ∷ select (is_of user_id) db ≡ old ∷ [] = rw hit at found in
            let same : row ≡ old = cc in
            let mine : (row.user_id == user_id) ≡ true = (and_true _ _ hit).0 in
            let here_id : (row.id == old.id) ≡ true =
              subst (λ r. (row.id == r.id) ≡ true) same (==_refl row.id) in
            let elsewhere : (row.user_id == v) ≡ false = ground arith in
            rw (here_id, rest-absent row db same keyed.0, elsewhere) refl
        | inr miss ↦
            let later : select (is_of user_id) db ≡ old ∷ [] = rw miss at found in
            let clear = before-clear user_id old row db keyed.0 later in
            ground (arith, clear, select-update_other v db other keyed.1 later)
      ]

new-own :
    (now uuid user_id : ℕ) (payload : AiRulesBase)
    → select (is_of user_id) (new_rules now uuid user_id payload ∷ [])
      ≡ new_rules now uuid user_id payload ∷ []
unfolding is_of new_rules
new-own now uuid user_id payload = rw (==_refl user_id) refl

new-other :
    (now uuid user_id v : ℕ) (payload : AiRulesBase) (db : List AiUserRule)
    → (user_id == v) ≡ false
    → select (is_of v) (db ++ new_rules now uuid user_id payload ∷ []) ≡ select (is_of v) db
unfolding is_of new_rules
new-other now uuid user_id v payload [] other = rw other refl
new-other now uuid user_id v payload (row ∷ db) other =
    ground (arith, new-other now uuid user_id v payload db other)

-- What each user reads from a table in which one user has the given row, and others what they had.
abbrev Reads : ℕ → AiRulesBase → List AiUserRule → List AiUserRule → Type 0
Reads user_id payload db after =
    (v : ℕ) → get_ai_rules v after ≡ (if user_id == v then ok payload else get_ai_rules v db)

Reads-of_rows :
    (user_id : ℕ) (payload : AiRulesBase) (row : AiUserRule) (db after : List AiUserRule)
    → row.rules ≡ payload
    → validate payload ≡ ok payload
    → select (is_of user_id) after ≡ row ∷ []
    → ((v : ℕ) → (user_id == v) ≡ false → select (is_of v) after ≡ select (is_of v) db)
    → Reads user_id payload db after
unfolding get_ai_rules get_by_user_id serialize_rules tokens_program
Reads-of_rows user_id payload row db after rules valid mine others v =
    elim (Bool-cases (user_id == v)) [
      | inl e ↦
          let at : select (is_of v) after ≡ row ∷ [] =
            subst (λ u. select (is_of u) after ≡ row ∷ []) ((==_iff user_id v).0 e) mine in
          rw (e, at, rules) valid
      | inr e ↦ rw (e, others v e) refl
    ]

-- Rules that pass their checks are stored on their user's request, unless the user has a row that is
-- deleted, and are read back with the same hours and breaks, and with the same blocked days, in
-- ascending order, each once. Every other user reads what there was before. The identifier for a new
-- row is one that no row has.
pub get_ai_rules-upsert_ai_rules :
    (now uuid user_id : ℕ) (body payload : AiRulesBase) (db : List AiUserRule)
    → AreKeyed db
    → any (λ r. r.id == uuid) db ≡ false
    → any (is_buried user_id) db ≡ false
    → validate body ≡ ok payload
    → (payload.quiet_hours ≡ body.quiet_hours)
      × (payload.breaks ≡ body.breaks)
      × Pairs (λ a b. a < b) payload.blocked_days
      × ((day : ℕ) → mem day payload.blocked_days ≡ mem day body.blocked_days)
      × ((after : List AiUserRule) × (upsert_ai_rules now uuid user_id body db
            ≡ ok (payload, after))
          × ((v : ℕ)
              → get_ai_rules v after ≡ (if user_id == v then ok payload else get_ai_rules v db)))
unfolding upsert_ai_rules upsert_rules get_by_user_id upsert_over create serialize_rules
    tokens_program new_rules
get_ai_rules-upsert_ai_rules now uuid user_id body payload db keyed fresh free valid =
    let (hours, breaks, ordered, days) = validate-payload body payload valid in
    (hours, breaks, ordered, days, put (find_rules user_id db keyed))
  where
    again : validate payload ≡ ok payload
    again = validate-validate body payload valid

    put :
        Found user_id db
        → (after : List AiUserRule) × (upsert_ai_rules now uuid user_id body db
            ≡ ok (payload, after))
          × Reads user_id payload db after
    put (missing gone) =
        let row = new_rules now uuid user_id payload in
        (
          db ++ row ∷ [],
          rw (valid, gone, user-free uuid user_id db gone free fresh, again) refl,
          Reads-of_rows user_id payload row db (db ++ row ∷ []) refl again
              (select-append (is_of user_id) db (row ∷ [])
                ∙ rw gone (new-own now uuid user_id payload))
              (λ v e. new-other now uuid user_id v payload db e),
        )
    put (there old found) = (
      update_rules now old.id payload db,
      rw (valid, found, again) refl,
      Reads-of_rows user_id payload (with_rules now payload old) db
          (update_rules now old.id payload db) refl again
          (select-update_self now user_id payload old db keyed found)
          (λ v e. select-update_other now user_id payload old v db e keyed found),
    )
