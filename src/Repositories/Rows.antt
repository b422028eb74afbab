-- ===== src/Repositories/Rows.antt =====
-- What an update of Backend/app/repositories changes.
use life_merge.Base.{
  ◌&&◌, not, some, and_true, some_eq, ap, ℕ, ◌≡◌, ◌≢◌, refl, sym, ◌∙◌, true, false, none, List, [],
  ◌∷◌, arith, ◌==◌, ==_iff, if◌then◌else◌, inl, inr, Bool-cases,
}
use life_merge.Repositories.{Columns, owned_by, get_by_id, patch}

module _ {A : Type 0} (columns : Columns A) where
  differ : (i j : ℕ) → (i == j) ≡ false → i ≢ j
  differ i j h same = ground arith

  -- A row that is found has the identifier that was asked for.
  pub get_by_id-id :
      (user_id i : ℕ) (db : List A) (row : A)
      → get_by_id columns user_id i db ≡ some row
      → columns.id row ≡ i
  unfolding get_by_id
  get_by_id-id user_id i [] row h = cc
  get_by_id-id user_id i (r ∷ db) row h =
      elim (Bool-cases ((columns.id r == i) && owned_by columns user_id r)) [
        | inl e ↦
            let same : r ≡ row = some_eq (rw e at h) in
            ap columns.id (sym same) ∙ (==_iff (columns.id r) i).0 (and_true _ _ e).0
        | inr e ↦ get_by_id-id user_id i db row (rw e at h)
      ]

  module _ (assign : A → A) (kept : (row : A) → columns.id (assign row) ≡ columns.id row) where
    get_by_id-patch_other :
        (user_id i j : ℕ) (db : List A)
        → i ≢ j
        → get_by_id columns user_id j (patch columns i assign db) ≡ get_by_id columns user_id j db
    unfolding get_by_id patch
    get_by_id-patch_other user_id i j [] h = refl
    get_by_id-patch_other user_id i j (row ∷ db) h =
        ground (arith, kept row, get_by_id-patch_other user_id i j db h)

    get_by_id-patch_deleted :
        (user_id i : ℕ) (db : List A)
        → ((row : A) → columns.deleted (assign row) ≡ true)
        → get_by_id columns user_id i (patch columns i assign db) ≡ none
    unfolding get_by_id patch owned_by
    get_by_id-patch_deleted user_id i [] gone = refl
    get_by_id-patch_deleted user_id i (row ∷ db) gone =
        ground (arith, kept row, gone row, get_by_id-patch_deleted user_id i db gone)

    pub get_by_id-patch_same :
        (user_id i : ℕ) (db : List A) (row : A)
        → ((r : A) → columns.user_id (assign r) ≡ columns.user_id r)
        → ((r : A) → columns.deleted (assign r) ≡ columns.deleted r)
        → get_by_id columns user_id i db ≡ some row
        → get_by_id columns user_id i (patch columns i assign db) ≡ some (assign row)
    unfolding get_by_id patch owned_by
    get_by_id-patch_same user_id i [] row owner gone h = cc
    get_by_id-patch_same user_id i (r ∷ db) row owner gone h =
        elim (Bool-cases (columns.id r == i)) [
          | inl e ↦ elim (Bool-cases ((columns.user_id r == user_id) && not (columns.deleted r))) [
            | inl k ↦
                let same : r ≡ row = some_eq (rw (e, k) at h) in
                rw (e, kept r, e, owner r, gone r, k) (ap (λ x. some (assign x)) same)
            | inr k ↦
                rw (e, kept r, e, owner r, gone r, k)
                  (get_by_id-patch_same user_id i db row owner gone (rw (e, k) at h))
          ]
          | inr e ↦ rw (e, e) (get_by_id-patch_same user_id i db row owner gone (rw e at h))
        ]

    -- After an update that deletes the row of an identifier and keeps identifiers, no user gets the
    -- row any more, and every row of another identifier is got as before.
    get_by_id-patch :
        (user_id i j : ℕ) (db : List A)
        → ((row : A) → columns.deleted (assign row) ≡ true)
        → get_by_id columns user_id j (patch columns i assign db)
          ≡ (if i == j then none else get_by_id columns user_id j db)
    get_by_id-patch user_id i j db gone = elim (Bool-cases (i == j)) [
      | inl e ↦ rw (e, sym ((==_iff i j).0 e)) (get_by_id-patch_deleted user_id i db gone)
      | inr e ↦ rw e (get_by_id-patch_other user_id i j db (differ i j e))
    ]
