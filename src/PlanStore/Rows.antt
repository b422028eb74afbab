-- ===== src/PlanStore/Rows.antt =====
-- Backend/app/infrastructure/mappers/planner_domain_mapper.py: how `update_sql_from_domain` brings
-- the rows of a relationship in line with the entries of a plan, and what it leaves under each key.
pub mod Unique
use life_merge.Base.{
  ◌||◌, ℕ, ◌≡◌, refl, sym, ap, ◌∙◌, Bool, true, false, Option, none, some, List, [], ◌∷◌, ◌++◌, map,
  ◌==◌, ==_iff, mem, find, select, All, Pairs, is_some, if◌then◌else◌, arith, Bool-cases, inl, inr,
}

-- Some key stands twice.
pub has_repeats : List ℕ → Bool
has_repeats [] = false
has_repeats (k ∷ ks) = mem k ks || has_repeats ks

module _ {D S : Type 0} (key : D → ℕ) (row_key : S → ℕ) (set : D → S → S) (make : D → S) where
  -- The change of `next(s for s in rows if s.key == k)`.
  pub set_first : ℕ → (S → S) → List S → List S
  set_first k change [] = []
  set_first k change (s ∷ rows) =
      let rest = set_first k change rows in if row_key s == k then change s ∷ rows else s ∷ rest

  -- One round of the loop; `existing` are the keys from before the loop.
  pub put_row : List ℕ → D → List S → List S
  put_row existing d rows =
      if mem (key d) existing then set_first (key d) (set d) rows else rows ++ make d ∷ []

  pub put_rows : List ℕ → List D → List S → List S
  put_rows existing [] rows = rows
  put_rows existing (d ∷ entries) rows = put_rows existing entries (put_row existing d rows)

  -- The loop, and then the rows whose key the plan still has.
  pub update_rows : List D → List S → List S
  update_rows entries rows =
      select (λ s. mem (row_key s) (map key entries)) (put_rows (map row_key rows) entries rows)

  -- The first row of a key.
  abbrev pub row_at : ℕ → List S → Option S
  row_at k = find (λ s. row_key s == k)

  abbrev pub entry_at : ℕ → List D → Option D
  entry_at k = find (λ d. key d == k)

  -- No two entries have one key.
  abbrev pub AreDistinct : List D → Type 0
  AreDistinct = Pairs (λ d e. (key d == key e) ≡ false)

  -- An entry over the row that was there before it.
  abbrev pub written : D → Option S → S
  written d none = make d
  written d (some s) = set d s

  -- What is under a key after the loop, and after the rows that the plan has not are gone.
  abbrev looped : Option D → Option S → Option S
  looped none old = old
  looped (some d) old = some (written d old)

  abbrev pub updated : Option D → Option S → Option S
  updated none old = none
  updated (some d) old = some (written d old)

  module _ (set-key : (d : D) (s : S) → row_key (set d s) ≡ row_key s)
      (make-key : (d : D) → row_key (make d) ≡ key d) where
    mem-keys : (k : ℕ) (rows : List S) → mem k (map row_key rows) ≡ is_some (row_at k rows)
    mem-keys k [] = refl
    mem-keys k (s ∷ rows) = ground (arith, mem-keys k rows)

    mem-entries :
        (k : ℕ) (entries : List D) → mem k (map key entries) ≡ is_some (entry_at k entries)
    mem-entries k [] = refl
    mem-entries k (d ∷ entries) = ground (arith, mem-entries k entries)

    row_at-select :
        (k : ℕ) (keep : ℕ → Bool) (rows : List S)
        → row_at k (select (λ s. keep (row_key s)) rows) ≡ (if keep k then row_at k rows else none)
    row_at-select k keep [] = ground arith
    row_at-select k keep (s ∷ rows) = elim (Bool-cases (row_key s == k)) [
      | inl e ↦
          let at : row_key s ≡ k = (==_iff _ k).0 e in
          let same : keep (row_key s) ≡ keep k = ap keep at in
          ground (arith, row_at-select k keep rows)
      | inr e ↦ ground (arith, row_at-select k keep rows)
    ]

    row_at-set_first :
        (j k : ℕ) (d : D) (rows : List S)
        → row_at j (set_first k (set d) rows) ≡ (
            if k == j
            then (elim (row_at j rows) [ none ↦ none | some s ↦ some (set d s) ])
            else row_at j rows)
    unfolding set_first
    row_at-set_first j k d [] = ground arith
    row_at-set_first j k d (s ∷ rows) = ground (arith, set-key d s, row_at-set_first j k d rows)

    row_at-append :
        (j : ℕ) (s : S) (rows : List S)
        → row_at j (rows ++ s ∷ []) ≡ (elim (row_at j rows) [
          | none ↦ (if row_key s == j then some s else none)
          | some r ↦ some r
        ])
    row_at-append j s [] = refl
    row_at-append j s (r ∷ rows) = ground (arith, row_at-append j s rows)

    row_at-put_row :
        (j : ℕ) (existing : List ℕ) (d : D) (rows : List S)
        → mem (key d) existing ≡ is_some (row_at (key d) rows)
        → row_at j (put_row existing d rows)
          ≡ (if key d == j then some (written d (row_at j rows)) else row_at j rows)
    unfolding put_row
    row_at-put_row j existing d rows known = elim (Bool-cases (key d == j)) [
      | inl e ↦
          let at : key d ≡ j = (==_iff _ j).0 e in
          let there : mem (key d) existing ≡ is_some (row_at j rows) =
            known ∙ ap (λ k. is_some (row_at k rows)) at in
          ground (
            arith,
            there,
            make-key d,
            row_at-set_first j (key d) d rows,
            row_at-append j (make d) rows,
          )
      | inr e ↦
          ground
            (arith, make-key d, row_at-set_first j (key d) d rows, row_at-append j (make d) rows)
    ]

    -- Whether the keys from before the loop tell which entries have a row by now.
    abbrev Known : List ℕ → List S → List D → Type 0
    Known existing rows = All (λ d. mem (key d) existing ≡ is_some (row_at (key d) rows))

    entry_at-absent :
        (j : ℕ) (entries : List D) (d : D)
        → (key d == j) ≡ true
        → All (λ e. (key d == key e) ≡ false) entries
        → entry_at j entries ≡ none
    entry_at-absent j [] d same apart = refl
    entry_at-absent j (e ∷ entries) d same apart =
        ground (arith, apart.0, entry_at-absent j entries d same apart.1)

    row_at-put_rows :
        (j : ℕ) (existing : List ℕ) (entries : List D) (rows : List S)
        → AreDistinct entries
        → Known existing rows entries
        → row_at j (put_rows existing entries rows) ≡ looped (entry_at j entries) (row_at j rows)
    unfolding put_rows
    row_at-put_rows j existing [] rows distinct known = refl
    row_at-put_rows j existing (d ∷ entries) rows distinct known =
        let ih =
          row_at-put_rows j existing entries (put_row existing d rows) distinct.1
            (still entries distinct.0 known.1) in
        elim (Bool-cases (key d == j)) [
          | inl e ↦
              rw
                (
                  e,
                  ih,
                  entry_at-absent j entries d e distinct.0,
                  row_at-put_row j existing d rows known.0,
                  e,
                )
                refl
          | inr e ↦ rw (e, ih, row_at-put_row j existing d rows known.0, e) refl
        ]
      where
        still :
            (rest : List D)
            → All (λ e. (key d == key e) ≡ false) rest
            → Known existing rows rest
            → Known existing (put_row existing d rows) rest
        still [] apart k = tt
        still (e ∷ rest) apart k = (
          k.0
              ∙ sym
                  (ap is_some (rw (row_at-put_row (key e) existing d rows known.0, apart.0) refl)),
          still rest apart.1 k.1,
        )

    all-Known : (entries : List D) (rows : List S) → Known (map row_key rows) rows entries
    all-Known [] rows = tt
    all-Known (d ∷ entries) rows = (mem-keys (key d) rows, all-Known entries rows)

    -- Under each key there is the entry of the plan over the row that was there, and no row under a
    -- key that the plan has not.
    pub row_at-update_rows :
        (j : ℕ) (entries : List D) (rows : List S)
        → AreDistinct entries
        → row_at j (update_rows entries rows) ≡ updated (entry_at j entries) (row_at j rows)
    unfolding update_rows
    row_at-update_rows j entries rows distinct =
        row_at-select j (λ k. mem k (map key entries)) (put_rows (map row_key rows) entries rows)
        ∙ rw
            (
              mem-entries j entries,
              row_at-put_rows j (map row_key rows) entries rows distinct (all-Known entries rows),
            )
            (closed (entry_at j entries) (row_at j rows))
      where
        closed :
            (entry : Option D) (old : Option S)
            → (if is_some entry then looped entry old else none) ≡ updated entry old
        closed none old = refl
        closed (some d) old = refl

    -- Where no row was there, each entry gives one.
    pub row_at-map :
        (j : ℕ) (entries : List D) → row_at j (map make entries) ≡ updated (entry_at j entries) none
    row_at-map j [] = refl
    row_at-map j (d ∷ entries) = ground (arith, make-key d, row_at-map j entries)

-- What a run unfolds.
unfoldable pub rows_program : Unit {0}
unfolding has_repeats set_first put_row put_rows update_rows
rows_program = tt
