-- ===== src/AiRules/Days.antt =====
-- Backend/app/schemas/ai_rules.py: rules that have passed the checks pass them again unchanged.
use life_merge.Base.{
  ℕ, ◌<◌, ◌≡◌, refl, sym, ap, ◌∙◌, ==_iff, Bool, true, false, ◌||◌, List, [], ◌∷◌, ◌==◌, ltb, leb,
  any, mem, All, Pairs, any-false-All, All-any-false, arith, subst, Bool-cases, inl, inr,
}
use life_merge.Base.Result.{ok, raise, http_error, ok_inj}
use life_merge.Base.Sort.{
  sort, IsSorted, any-sort, sort-sorted, sort-IsSorted, sort-Pairs, All-sort,
}
use life_merge.AiRules.{AiRulesBase, distinct, sorted_set, is_invalid, validate}

abbrev Differ : ℕ → ℕ → Type 0
Differ m n = (m == n) ≡ false

Differ-sym : (m n : ℕ) → Differ m n → Differ n m
Differ-sym m n h = ground arith

flip-All : (n : ℕ) (ns : List ℕ) → All (λ m. (m == n) ≡ false) ns → All (Differ n) ns
flip-All n [] h = tt
flip-All n (m ∷ ns) h = (Differ-sym m n h.0, flip-All n ns h.1)

flop-All : (n : ℕ) (ns : List ℕ) → All (Differ n) ns → All (λ m. (m == n) ≡ false) ns
flop-All n [] h = tt
flop-All n (m ∷ ns) h = (Differ-sym n m h.0, flop-All n ns h.1)

distinct-Pairs : (ns : List ℕ) → Pairs Differ (distinct ns)
unfolding distinct
distinct-Pairs [] = tt
distinct-Pairs (n ∷ ns) = elim (Bool-cases (mem n (distinct ns))) [
  | inl e ↦ rw e (distinct-Pairs ns)
  | inr e ↦ rw e (flip-All n (distinct ns) (any-false-All _ (distinct ns) e), distinct-Pairs ns)
]

distinct-same : (ns : List ℕ) → Pairs Differ ns → distinct ns ≡ ns
unfolding distinct
distinct-same [] h = refl
distinct-same (n ∷ ns) h = rw (distinct-same ns h.1, All-any-false _ ns (flop-All n ns h.0)) refl

leb-total : (x y : ℕ) → (leb x y || leb y x) ≡ true
leb-total x y = ground arith

leb_trans : (x y z : ℕ) → leb x y ≡ true → leb y z ≡ true → leb x z ≡ true
leb_trans x y z h k = ground arith

-- Sorting the set of a sorted set gives it again.
sorted_set-sorted_set : (ns : List ℕ) → sorted_set (sorted_set ns) ≡ sorted_set ns
unfolding sorted_set
sorted_set-sorted_set ns =
    ap (sort leb) (
      distinct-same (sort leb (distinct ns))
        (sort-Pairs leb Differ Differ-sym (distinct ns) (distinct-Pairs ns)))
    ∙ sort-sorted leb (sort leb (distinct ns)) (sort-IsSorted leb leb-total leb_trans (distinct ns))

distinct-All {κ} : (P : ℕ → Type κ) (ns : List ℕ) → All P ns → All P (distinct ns)
unfolding distinct
distinct-All P [] h = tt
distinct-All P (n ∷ ns) h = elim (Bool-cases (mem n (distinct ns))) [
  | inl e ↦ rw e (distinct-All P ns h.1)
  | inr e ↦ rw e (h.0, distinct-All P ns h.1)
]

any-sorted_set : (p : ℕ → Bool) (ns : List ℕ) → any p ns ≡ false → any p (sorted_set ns) ≡ false
unfolding sorted_set
any-sorted_set p ns h =
    All-any-false p (sort leb (distinct ns))
      (All-sort leb _ (distinct ns) (distinct-All _ ns (any-false-All p ns h)))

is_invalid-sorted :
    (body : AiRulesBase)
    → is_invalid body ≡ false
    → is_invalid (record body { blocked_days = sorted_set body.blocked_days }) ≡ false
unfolding is_invalid
is_invalid-sorted body e = ground (arith, any-sorted_set (λ day. ltb 6 day) body.blocked_days)

-- What the checks give passes them unchanged.
pub validate-validate :
    (body payload : AiRulesBase) → validate body ≡ ok payload → validate payload ≡ ok payload
unfolding validate
validate-validate body payload h = elim (Bool-cases (is_invalid body)) [
  | inl e ↦ let bad : raise (http_error "422" "validation_error") ≡ ok payload = rw e at h in cc
  | inr e ↦
      let checked : AiRulesBase = record body { blocked_days = sorted_set body.blocked_days } in
      let same : checked ≡ payload = ok_inj (rw e at h) in
      subst (λ p. validate p ≡ ok p) same (again e)
]
  where
    again :
        is_invalid body ≡ false
        → validate (record body { blocked_days = sorted_set body.blocked_days })
          ≡ ok (record body { blocked_days = sorted_set body.blocked_days })
    again e = rw (is_invalid-sorted body e) (
        ap (λ days. ok (record body { blocked_days = days }))
          (sorted_set-sorted_set body.blocked_days))

-- A list that ascends and has no entry twice ascends strictly.
strict-All :
    (n : ℕ) (ns : List ℕ) → All (λ m. leb n m ≡ true) ns → All (Differ n) ns → All (λ m. n < m) ns
strict-All n [] h k = tt
strict-All n (m ∷ ns) h k = (ground (arith, h.0, k.0), strict-All n ns h.1 k.1)

strict-Pairs : (ns : List ℕ) → IsSorted leb ns → Pairs Differ ns → Pairs (λ a b. a < b) ns
strict-Pairs [] h k = tt
strict-Pairs (n ∷ ns) h k = (strict-All n ns h.0 k.0, strict-Pairs ns h.1 k.1)

mem-distinct : (day : ℕ) (ns : List ℕ) → mem day (distinct ns) ≡ mem day ns
unfolding distinct
mem-distinct day [] = refl
mem-distinct day (n ∷ ns) = elim (Bool-cases (mem n (distinct ns))) [
  | inl e ↦ elim (Bool-cases (day == n)) [
    | inl same ↦
        let at : mem day (distinct ns) ≡ true =
          subst (λ k. mem k (distinct ns) ≡ true) (sym ((==_iff day n).0 same)) e in
        rw e (ground (arith, at, same))
    | inr other ↦ rw e (ground (arith, mem-distinct day ns, other))
  ]
  | inr e ↦ rw e (ground (arith, mem-distinct day ns))
]

-- What the checks leave of a body: the same hours, breaks and days, the days in ascending order.
pub validate-payload :
    (body payload : AiRulesBase)
    → validate body ≡ ok payload
    → (payload.quiet_hours ≡ body.quiet_hours)
      × (payload.breaks ≡ body.breaks)
      × Pairs (λ a b. a < b) payload.blocked_days
      × ((day : ℕ) → mem day payload.blocked_days ≡ mem day body.blocked_days)
unfolding validate sorted_set
validate-payload body payload h = elim (Bool-cases (is_invalid body)) [
  | inl e ↦ let bad : raise (http_error "422" "validation_error") ≡ ok payload = rw e at h in cc
  | inr e ↦
      let checked : AiRulesBase = record body {
        blocked_days = sort leb (distinct body.blocked_days);
      } in
      let same : checked ≡ payload = ok_inj (rw e at h) in
      subst
        (λ p.
          (p.quiet_hours ≡ body.quiet_hours)
          × (p.breaks ≡ body.breaks)
          × Pairs (λ a b. a < b) p.blocked_days
          × ((day : ℕ) → mem day p.blocked_days ≡ mem day body.blocked_days))
        same
        (
          refl,
          refl,
          strict-Pairs (sort leb (distinct body.blocked_days))
              (sort-IsSorted leb leb-total leb_trans (distinct body.blocked_days))
              (sort-Pairs leb Differ Differ-sym (distinct body.blocked_days)
                (distinct-Pairs body.blocked_days)),
          λ day.
              any-sort leb (λ n. n == day) (distinct body.blocked_days)
              ∙ mem-distinct day body.blocked_days,
        )
]
