-- ===== src/Repositories/Pages.antt =====
-- Pages of `list` in Backend/app/repositories: what is on one, and what a client that follows the
-- cursors is given.
use life_merge.Base.{
  ℕ, zero, suc, ◌≤◌, ◌≡◌, refl, inl, inr, Bool, true, ◌&&◌, ◌||◌, Option, some, List, [], ◌∷◌,
  String, arith, ltb, length, select, Bool-cases, All, All-map, and_true,
}
use life_merge.Base.Sort.{sort, IsSorted, All-sort, sort-IsSorted}
use life_merge.Repositories.{
  Columns, Sql, IsSql, newest_first, tuple_less, read_cursor, after_cursor, cut_page, fetch_limit,
  list_page, updated_at_column,
}
use life_merge.Repositories.Order.{take, length-take, All-take, select-All}

module _ {A : Type 0} (columns : Columns A) where
  pub newest_first_total : (x y : A) → (newest_first columns x y || newest_first columns y x) ≡ true
  unfolding newest_first
  newest_first_total x y = ground arith

  pub newest_first_trans :
      (x y z : A)
      → newest_first columns x y ≡ true
      → newest_first columns y z ≡ true
      → newest_first columns x z ≡ true
  unfolding newest_first
  newest_first_trans x y z h k = ground arith

  IsSorted-take :
      (n : ℕ) (xs : List A)
      → IsSorted (newest_first columns) xs
      → IsSorted (newest_first columns) (take n xs)
  IsSorted-take zero xs s = tt
  IsSorted-take (suc n) [] s = tt
  IsSorted-take (suc n) (x ∷ xs) s = (All-take _ n xs s.0, IsSorted-take n xs s.1)

  -- The rows that the query may return: those that are wanted and come after the cursor.
  abbrev pub IsShown : Sql → (A → Bool) → Option String → A → Type 0
  IsShown sql wanted cursor row = (wanted row ≡ true) × (after_cursor columns sql cursor row ≡ true)

  All-cut_page :
      (P : A → Type 0) (sql : Sql) (limit : ℕ) (rows : List A)
      → All P rows
      → All P (cut_page columns sql limit rows).0
  unfolding cut_page
  All-cut_page P sql limit rows h = elim (Bool-cases (ltb limit (length rows))) [
    | inl e ↦ rw e (All-take P limit rows h)
    | inr e ↦ rw e h
  ]

  -- The rows of a page are wanted and come after its cursor.
  pub list_page-IsShown :
      (sql : Sql) (wanted : A → Bool) (cursor : Option String) (limit : ℕ) (db : List A)
      → All (IsShown sql wanted cursor) (list_page columns sql wanted cursor limit db).0
  unfolding list_page
  list_page-IsShown sql wanted cursor limit db =
      let shown : A → Bool = λ row. wanted row && after_cursor columns sql cursor row in
      All-cut_page _ sql limit
        (take (fetch_limit limit) (sort (newest_first columns) (select shown db)))
        (All-take _ (fetch_limit limit) (sort (newest_first columns) (select shown db)) (
          All-sort _ _ (select shown db) (
            All-map (λ row. shown row ≡ true) _ (λ row h. and_true _ _ h) _ (select-All shown db))))

  cut_page-length :
      (sql : Sql) (limit : ℕ) (rows : List A) → length (cut_page columns sql limit rows).0 ≤ limit
  unfolding cut_page
  cut_page-length sql limit rows = ground (arith, length-take limit rows)

  cut_page-IsSorted :
      (sql : Sql) (limit : ℕ) (rows : List A)
      → IsSorted (newest_first columns) rows
      → IsSorted (newest_first columns) (cut_page columns sql limit rows).0
  unfolding cut_page
  cut_page-IsSorted sql limit rows s = elim (Bool-cases (ltb limit (length rows))) [
    | inl e ↦ rw e (IsSorted-take limit rows s)
    | inr e ↦ rw e s
  ]

  -- A page has at most as many rows as are asked for, newest first, each wanted and after the
  -- cursor.
  pub list_page-length :
      (sql : Sql) (wanted : A → Bool) (cursor : Option String) (limit : ℕ) (db : List A)
      → (length (list_page columns sql wanted cursor limit db).0 ≤ limit)
        × IsSorted (newest_first columns) (list_page columns sql wanted cursor limit db).0
        × All (IsShown sql wanted cursor) (list_page columns sql wanted cursor limit db).0
  unfolding list_page
  list_page-length sql wanted cursor limit db =
      let matching = select (λ row. wanted row && after_cursor columns sql cursor row) db in
      let sorted = sort (newest_first columns) matching in
      (
        cut_page-length sql limit (take (fetch_limit limit) sorted),
        cut_page-IsSorted sql limit (take (fetch_limit limit) sorted) (
            IsSorted-take (fetch_limit limit) sorted (
              sort-IsSorted (newest_first columns) newest_first_total newest_first_trans matching)),
        list_page-IsShown sql wanted cursor limit db,
      )

  -- After the cursor of a row come only rows that were changed strictly before it, so that no other
  -- row that was changed at the same instant is shown.
  pub after_cursor-encode :
      (sql : Sql)
      → IsSql sql
      → (last row : A)
      → after_cursor columns sql (some (sql.encode (columns.updated_at last) (columns.id last))) row
        ≡ ltb (columns.updated_at row) (columns.updated_at last)
  unfolding after_cursor read_cursor tuple_less
  after_cursor-encode sql law last row =
      rw
        (
          law.encode-not_empty (columns.updated_at last) (columns.id last),
          law.decode-encode (columns.updated_at last) (columns.id last),
          law.equal_truth-false updated_at_column,
        )
        refl
