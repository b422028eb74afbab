-- ===== src/Repositories/Walk.antt =====
-- A client that follows the cursors of `list` in Backend/app/repositories to the end.
use life_merge.Base.{
  subst, fun_ext, ℕ, zero, suc, ◌≤◌, ◌≡◌, refl, sym, ◌∙◌, inl, inr, Bool, true, Option, none, some,
  List, [], ◌∷◌, ◌++◌, String, arith, ltb, length, select, Bool-cases, All, ltb→lt, ltb-false,
}
use mathlib.Core.List.{append-nil}
use life_merge.Base.Sort.{sort-Pairs, length-sort, sort, sort-IsSorted, select-sort}
use life_merge.Repositories.{
  Columns, Sql, IsSql, newest_first, after_cursor, cursor_of, cut_page, fetch_limit, list_page,
  read_cursor, tuple_less, updated_at_column,
}
use life_merge.Repositories.Pages.{newest_first_total, newest_first_trans, after_cursor-encode}
use life_merge.Repositories.Behind.{Distinct, Decreasing, Decreasing-sorted, before, Behind, behind}
use life_merge.Repositories.Order.{
  select-always, length-take_more, length-take_less, take, take-all, select-All, select-and,
  select-select,
}

module _ {A : Type 0} (columns : Columns A) where
  -- The rows that are shown in turn when each cursor is sent back, on a number of requests.
  unfoldable pub walk : Sql → (A → Bool) → ℕ → ℕ → Option String → List A → List A
  walk sql wanted limit zero cursor db = []
  walk sql wanted limit (suc requests) cursor db =
      let page = list_page columns sql wanted cursor limit db in
      page.0
      ++ elim page.1 [ none ↦ [] | some next ↦ walk sql wanted limit requests (some next) db ]

  fetch_limit-suc : (n : ℕ) → suc n ≤ 100 → fetch_limit (suc n) ≡ suc (suc n)
  unfolding fetch_limit
  fetch_limit-suc n h = ground arith

  -- What a query returns is a slice of the wanted rows in their order.
  list_page-slice :
      (sql : Sql) (wanted : A → Bool) (cursor : Option String) (limit : ℕ) (db : List A)
      → list_page columns sql wanted cursor limit db
        ≡ cut_page columns sql limit (
            take (fetch_limit limit) (
              select
                (after_cursor columns sql cursor)
                (sort (newest_first columns) (select wanted db))))
  unfolding list_page
  list_page-slice sql wanted cursor limit db =
      rw
        (
          select-sort (newest_first columns) (newest_first_total columns)
              (newest_first_trans columns) (after_cursor columns sql cursor) (select wanted db),
          select-and wanted (after_cursor columns sql cursor) db,
        )
        refl

  module _ (sql : Sql) (law : IsSql sql) (wanted : A → Bool) (n : ℕ) (small : suc n ≤ 100)
      (db : List A) where
    read-earlier :
        (at : Option (ℕ × ℕ)) (x y : A)
        → read_cursor columns sql.equal_truth at y ≡ true
        → before columns y x ≡ true
        → read_cursor columns sql.equal_truth at x ≡ true
    unfolding read_cursor tuple_less
    read-earlier none x y h k = refl
    read-earlier (some (ts, cid)) x y h k = ground (arith, law.equal_truth-false updated_at_column)

    earlier :
        (cursor : Option String) (x y : A)
        → after_cursor columns sql cursor y ≡ true
        → before columns y x ≡ true
        → after_cursor columns sql cursor x ≡ true
    unfolding after_cursor
    earlier none x y h k = refl
    earlier (some cursor) x y h k = ground (arith, read-earlier (sql.decode cursor) x y)

    after-last :
        (cursor : Option String) (rest : List A) (b : Behind columns n rest)
        → select (after_cursor columns sql cursor) (sort (newest_first columns) (select wanted db))
          ≡ rest
        → select
            (after_cursor columns sql
              (some (sql.encode (columns.updated_at b.last) (columns.id b.last))))
            (sort (newest_first columns) (select wanted db))
          ≡ b.rest
    after-last cursor rest b e =
        let sorted = sort (newest_first columns) (select wanted db) in
        let shown = after_cursor columns sql cursor in
        let at_last : shown b.last ≡ true =
          b.member (λ row. shown row ≡ true)
            (subst (All (λ row. shown row ≡ true)) e (select-All shown sorted)) in
        rw
          (
            fun_ext (after_cursor-encode columns sql law b.last),
            sym (
                select-select shown (before columns b.last)
                  (λ x h. earlier cursor x b.last at_last h) sorted),
            e,
          )
          b.chosen

    walk-rest :
        (requests : ℕ) (cursor : Option String) (rest : List A)
        → select (after_cursor columns sql cursor) (sort (newest_first columns) (select wanted db))
          ≡ rest
        → Decreasing columns rest
        → length rest ≤ requests
        → walk sql wanted (suc n) requests cursor db ≡ rest
    unfolding walk cut_page cursor_of
    walk-rest zero cursor [] e d h = refl
    walk-rest zero cursor (x ∷ rest) e d h = absurd (omega (arith, h))
    walk-rest (suc requests) cursor rest e d h =
        elim (Bool-cases (ltb (suc n) (length (take (suc (suc n)) rest)))) [
          | inl more ↦
              let b = behind columns n rest d (length-take_more (suc n) rest (ltb→lt _ _ more)) in
              rw
                (
                  list_page-slice sql wanted cursor (suc n) db,
                  e,
                  fetch_limit-suc n small,
                  more,
                  b.shown,
                  walk-rest requests
                      (some (sql.encode (columns.updated_at b.last) (columns.id b.last))) b.rest
                      (after-last cursor rest b e) b.below (omega (arith, b.counted, h)),
                )
                b.joined
          | inr less ↦
              rw (list_page-slice sql wanted cursor (suc n) db, e, fetch_limit-suc n small, less)
                (append-nil _
                  ∙ take-all (suc (suc n)) rest
                      (omega (arith, length-take_less (suc n) rest (ltb-false _ _ less))))
        ]

  -- With a limit from 1 to 100, a client that follows the cursors to the end is shown just the
  -- wanted rows of the table, each once and newest first, on at most as many requests as there are
  -- such rows, provided that no two of them were changed at the same instant.
  pub walk-all :
      (sql : Sql)
      → IsSql sql
      → (wanted : A → Bool) (limit : ℕ) → 1 ≤ limit
      → limit ≤ 100
      → (db : List A) → Distinct columns (select wanted db)
      → (requests : ℕ) → length (select wanted db) ≤ requests
      → walk sql wanted limit requests none db ≡ sort (newest_first columns) (select wanted db)
  unfolding after_cursor
  walk-all sql law wanted zero low small db distinct requests enough = absurd (omega (arith, low))
  walk-all sql law wanted (suc n) low small db distinct requests enough =
      let matching = select wanted db in
      let sorted = sort (newest_first columns) matching in
      walk-rest sql law wanted n small db requests none sorted (select-always sorted)
        (Decreasing-sorted columns sorted
          (sort-IsSorted (newest_first columns) (newest_first_total columns)
            (newest_first_trans columns) matching)
          (sort-Pairs (newest_first columns) _ (λ x y h e. h (sym e)) matching distinct))
        (rw (length-sort (newest_first columns) matching) enough)
