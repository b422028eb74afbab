-- ===== src/PlanStore/Rows/Unique.antt =====
-- Backend/app/infrastructure/mappers/planner_domain_mapper.py: the keys of the rows that
-- `update_sql_from_domain` leaves: each once, and each a key of the plan.
use life_merge.Base.{
  ℕ, ◌≡◌, refl, sym, ap, ◌∙◌, Bool, true, false, List, [], ◌∷◌, ◌++◌, map, ◌==◌, ==_iff, any, mem,
  select, All, if◌then◌else◌, arith, Bool-cases, inl, inr,
}
use life_merge.PlanStore.Rows.{has_repeats, set_first, put_row, put_rows, update_rows, AreDistinct}

-- A test that no entry passes fails for each key that is among them.
pub any-mem :
    (p : ℕ → Bool) (k : ℕ) (ks : List ℕ) → mem k ks ≡ true → any p ks ≡ false → p k ≡ false
any-mem p k [] h none_left = cc
any-mem p k (j ∷ ks) h none_left = elim (Bool-cases (j == k)) [
  | inl e ↦ ap p (sym ((==_iff j k).0 e)) ∙ ground (arith, none_left)
  | inr e ↦ any-mem p k ks (ground (arith, h, e)) (ground (arith, none_left))
]

mem-append_other :
    (k j : ℕ) (ks : List ℕ) → mem k ks ≡ false → (j == k) ≡ false → mem k (ks ++ j ∷ []) ≡ false
mem-append_other k j [] h other = ground arith
mem-append_other k j (i ∷ ks) h other =
    ground (arith, mem-append_other k j ks (ground (arith, h)) other)

repeats-append :
    (k : ℕ) (ks : List ℕ)
    → has_repeats ks ≡ false
    → mem k ks ≡ false
    → has_repeats (ks ++ k ∷ []) ≡ false
unfolding has_repeats
repeats-append k [] h new = refl
repeats-append k (j ∷ ks) h new =
    let other : (k == j) ≡ false = ground (arith, new) in
    ground (
      arith,
      mem-append_other j k ks (ground (arith, h)) other,
      repeats-append k ks (ground (arith, h)) (ground (arith, new)),
    )

module _ {D S : Type 0} (key : D → ℕ) (row_key : S → ℕ) (set : D → S → S) (make : D → S) where
  mem-apart :
      (d : D) (entries : List D)
      → All (λ e. (key d == key e) ≡ false) entries
      → mem (key d) (map key entries) ≡ false
  mem-apart d [] h = refl
  mem-apart d (e ∷ entries) h = ground (arith, h.0, mem-apart d entries h.1)

  -- Entries that are distinct have keys without repeats.
  pub repeats-AreDistinct :
      (entries : List D)
      → AreDistinct key row_key set make entries
      → has_repeats (map key entries) ≡ false
  unfolding has_repeats
  repeats-AreDistinct [] h = refl
  repeats-AreDistinct (d ∷ entries) h =
      rw (mem-apart d entries h.0) (repeats-AreDistinct entries h.1)

  mem-select :
      (k : ℕ) (p : S → Bool) (rows : List S)
      → mem k (map row_key rows) ≡ false
      → mem k (map row_key (select p rows)) ≡ false
  mem-select k p [] h = refl
  mem-select k p (s ∷ rows) h = ground (arith, h, mem-select k p rows)

  repeats-select :
      (p : S → Bool) (rows : List S)
      → has_repeats (map row_key rows) ≡ false
      → has_repeats (map row_key (select p rows)) ≡ false
  unfolding has_repeats
  repeats-select p [] h = refl
  repeats-select p (s ∷ rows) h =
      let apart = mem-select (row_key s) p rows (ground (arith, h)) in
      ground (arith, apart, repeats-select p rows (ground (arith, h)))

  pub selected-mem :
      (p : ℕ → Bool) (rows : List S)
      → All (λ s. p (row_key s) ≡ true) (select (λ s. p (row_key s)) rows)
  selected-mem p [] = tt
  selected-mem p (s ∷ rows) = elim (Bool-cases (p (row_key s))) [
    | inl e ↦ rw e (e, selected-mem p rows)
    | inr e ↦ rw e (selected-mem p rows)
  ]

  -- A test that no entry's key passes is passed by no key of the rows that are left.
  pub any-update_rows :
      (p : ℕ → Bool) (entries : List D) (rows : List S)
      → any p (map key entries) ≡ false
      → any p (map row_key (update_rows key row_key set make entries rows)) ≡ false
  unfolding update_rows
  any-update_rows p entries rows h = none_left _ (
      selected-mem (λ k. mem k (map key entries))
        (put_rows key row_key set make (map row_key rows) entries rows))
    where
      none_left :
          (left : List S)
          → All (λ s. mem (row_key s) (map key entries) ≡ true) left
          → any p (map row_key left) ≡ false
      none_left [] k = refl
      none_left (s ∷ left) k =
          rw (any-mem p (row_key s) (map key entries) k.0 h) (none_left left k.1)

  module _ (set-key : (d : D) (s : S) → row_key (set d s) ≡ row_key s)
      (make-key : (d : D) → row_key (make d) ≡ key d) where
    pub keys-make : (entries : List D) → map row_key (map make entries) ≡ map key entries
    keys-make [] = refl
    keys-make (d ∷ entries) = rw (make-key d, keys-make entries) refl

    keys-set_first :
        (k : ℕ) (d : D) (rows : List S)
        → map row_key (set_first key row_key set make k (set d) rows) ≡ map row_key rows
    unfolding set_first
    keys-set_first k d [] = refl
    keys-set_first k d (s ∷ rows) = ground (arith, set-key d s, keys-set_first k d rows)

    keys-append :
        (s : S) (rows : List S) → map row_key (rows ++ s ∷ []) ≡ map row_key rows ++ row_key s ∷ []
    keys-append s [] = refl
    keys-append s (r ∷ rows) = ap (λ ks. row_key r ∷ ks) (keys-append s rows)

    -- What is new by the keys from before the loop has no row yet.
    abbrev New : List ℕ → List ℕ → List D → Type 0
    New existing keys = All (λ d. mem (key d) existing ≡ false → mem (key d) keys ≡ false)

    put_row-keys :
        (existing : List ℕ) (d : D) (rows : List S)
        → map row_key (put_row key row_key set make existing d rows)
          ≡ (if mem (key d) existing then map row_key rows else map row_key rows ++ key d ∷ [])
    unfolding put_row
    put_row-keys existing d rows = elim (Bool-cases (mem (key d) existing)) [
      | inl e ↦ rw e (keys-set_first (key d) d rows)
      | inr e ↦ rw e (keys-append (make d) rows ∙ rw (make-key d) refl)
    ]

    repeats-put_rows :
        (existing : List ℕ) (entries : List D) (rows : List S)
        → AreDistinct key row_key set make entries
        → New existing (map row_key rows) entries
        → has_repeats (map row_key rows) ≡ false
        → has_repeats (map row_key (put_rows key row_key set make existing entries rows)) ≡ false
    unfolding put_rows
    repeats-put_rows existing [] rows distinct new h = h
    repeats-put_rows existing (d ∷ entries) rows distinct new h =
        repeats-put_rows existing entries (put_row key row_key set make existing d rows) distinct.1
          (rw (put_row-keys existing d rows) (elim (Bool-cases (mem (key d) existing)) [
            | inl e ↦ rw e new.1
            | inr e ↦ rw e (still entries distinct.0 new.1)
          ]))
          (rw (put_row-keys existing d rows) (elim (Bool-cases (mem (key d) existing)) [
            | inl e ↦ rw e h
            | inr e ↦ rw e (repeats-append (key d) (map row_key rows) h (new.0 e))
          ]))
      where
        still :
            (rest : List D)
            → All (λ e. (key d == key e) ≡ false) rest
            → New existing (map row_key rows) rest
            → New existing (map row_key rows ++ key d ∷ []) rest
        still [] apart k = tt
        still (e ∷ rest) apart k = (
          λ gone. mem-append_other (key e) (key d) (map row_key rows) (k.0 gone) apart.0,
          still rest apart.1 k.1,
        )

    pub repeats-update_rows :
        (entries : List D) (rows : List S)
        → AreDistinct key row_key set make entries
        → has_repeats (map row_key rows) ≡ false
        → has_repeats (map row_key (update_rows key row_key set make entries rows)) ≡ false
    unfolding update_rows
    repeats-update_rows entries rows distinct h =
        repeats-select (λ s. mem (row_key s) (map key entries)) _
          (repeats-put_rows (map row_key rows) entries rows distinct (new entries) h)
      where
        new : (rest : List D) → New (map row_key rows) (map row_key rows) rest
        new [] = tt
        new (d ∷ rest) = (λ gone. gone, new rest)
