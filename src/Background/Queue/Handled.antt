-- ===== src/Background/Queue/Handled.antt =====
-- Backend/app/services/background_tasks.py: what a run of the queue does with each row.
use life_merge.Base.{
  ℕ, suc, ◌≢◌, ◌+◌, ◌-◌, ◌*◌, ◌<◌, ◌≡◌, refl, ◌⊎◌, inl, inr, true, false, ◌&&◌, Option, none, some,
  List, [], ◌∷◌, String, ltb, arith, Bool-cases, subst,
}
use life_merge.Base.Result.{Error, Result, ok, raise, integrity_error, Ensures, Ensures-bind}
use life_merge.Planner.Time.{minute_micros}
use life_merge.Sync.{Table, BatchSyncResult}
use life_merge.Background.Queue.{
  SyncOperation, QueueSettings, Worker, is_flush_error, is_due, finish, attempt, settle, drain,
  process_sync_queue,
}

not_flush : (e : Error) → is_flush_error e ≡ false → e ≢ integrity_error
unfolding is_flush_error
not_flush e caught same =
    let no : is_flush_error integrity_error ≡ false =
      subst (λ x. is_flush_error x ≡ false) same caught in
    cc

module _ {Json : Type 0} (table : Table) (worker : Worker Json table.Db) (settings : QueueSettings)
    (uuid : ℕ → ℕ) (finished : ℕ) where
  -- A row that was picked: it is free again, has one attempt more, keeps its change, and is not due
  -- until the time for a retry has passed.
  abbrev pub Picked : SyncOperation Json → SyncOperation Json → Type 0
  Picked op op' =
      (op'.locked ≡ false)
      × (op'.attempts ≡ op.attempts + 1)
      × (op'.id ≡ op.id)
      × (op'.payload ≡ op.payload)
      × ((t : ℕ)
          → t < finished + settings.sync_retry_minutes * minute_micros
          → is_due table worker settings uuid finished t op' ≡ false)

  -- The outcome that is recorded of a call: done, with the table that the call left, or the error that
  -- it raised, with what it left in the session.
  abbrev pub Recorded :
      table.Db
      → SyncOperation Json
      → Result (List BatchSyncResult × table.Db)
      → SyncOperation Json
      → table.Db
      → Type 0
  Recorded db op (ok (results, changed)) op' next =
      (op'.status ≡ "done") × (op'.last_error ≡ none) × (next ≡ changed)
  Recorded db op (raise e) op' next =
      (op'.status ≡ "error")
      × (op'.last_error ≡ some (worker.show e))
      × (e ≢ integrity_error)
      × (next ≡ worker.left db op)

  -- The first `limit` rows that are due are picked one after another, each on the table that the one
  -- before has left, and every other row is as it was. `n` rows were picked before.
  abbrev pub Handled :
      ℕ
      → ℕ
      → ℕ
      → table.Db
      → List (SyncOperation Json)
      → List (SyncOperation Json)
      → table.Db
      → Type 0
  Handled now limit n db [] [] after = after ≡ db
  Handled now limit n db [] (op' ∷ ops') after = ⊥
  Handled now limit n db (op ∷ ops) [] after = ⊥
  Handled now limit n db (op ∷ ops) (op' ∷ ops') after =
      ((is_due table worker settings uuid finished now op && ltb 0 limit ≡ true)
        × Picked op op'
        × ((next : table.Db) × Recorded db op
              (attempt table worker settings uuid finished now n db op) op' next
            × Handled now (limit - 1) (suc n) next ops ops' after))
      ⊎ ((is_due table worker settings uuid finished now op && ltb 0 limit ≡ false)
          × (op' ≡ op)
          × Handled now limit n db ops ops' after)

  not_due :
      (status : String) (error : Option String) (op : SyncOperation Json) (t : ℕ)
      → t < finished + settings.sync_retry_minutes * minute_micros
      → is_due table worker settings uuid finished t
          (finish table worker settings uuid finished status error op)
        ≡ false
  unfolding is_due finish
  not_due status error op t early = ground arith

  settle-Picked :
      (db : table.Db) (op : SyncOperation Json) (call : Result (List BatchSyncResult × table.Db))
      → Ensures
          (λ done. Picked op done.0 × Recorded db op call done.0 done.1)
          (settle table worker settings uuid finished db op call)
  unfolding settle finish
  settle-Picked db op (ok (results, after)) =
      ((refl, refl, refl, refl, not_due "done" none op), (refl, refl, refl))
  settle-Picked db op (raise e) = elim (Bool-cases (is_flush_error e)) [
    | inl broken ↦ rw broken tt
    | inr caught ↦ rw caught (
      (refl, refl, refl, refl, not_due "error" (some (worker.show e)) op),
      (refl, refl, not_flush e caught, refl),
    )
  ]

  drain-Handled :
      (now limit n : ℕ) (db : table.Db) (ops : List (SyncOperation Json))
      → Ensures
          (λ done. Handled now limit n db ops done.0 done.1)
          (drain table worker settings uuid finished now limit n db ops)
  unfolding drain
  drain-Handled now limit n db [] = refl
  drain-Handled now limit n db (op ∷ ops) =
      elim (Bool-cases (is_due table worker settings uuid finished now op && ltb 0 limit)) [
        | inl due ↦ rw due (
            Ensures-bind
              (λ done.
                Picked op done.0
                × Recorded db op (attempt table worker settings uuid finished now n db op) done.0
                    done.1)
              _
              (settle table worker settings uuid finished db op
                (attempt table worker settings uuid finished now n db op))
              _ (settle-Picked db op (attempt table worker settings uuid finished now n db op))
              λ step settled.
                Ensures-bind (λ done. Handled now (limit - 1) (suc n) step.1 ops done.0 done.1) _
                  (drain table worker settings uuid finished now (limit - 1) (suc n) step.1 ops) _
                  (drain-Handled now (limit - 1) (suc n) step.1 ops)
                  λ rest handled. inl (due, settled.0, (step.1, settled.1, handled)))
        | inr idle ↦ rw idle (
            Ensures-bind (λ done. Handled now limit n db ops done.0 done.1) _
              (drain table worker settings uuid finished now limit n db ops) _
              (drain-Handled now limit n db ops) λ rest handled. inr (idle, refl, handled))
      ]

  -- A run of the queue that returns has picked the first rows that are due, as many as a batch may
  -- have, one after another, and left every other row as it was. A row that was picked is free again,
  -- has one attempt more, and is not due for as long as a retry waits. It is done if its change went
  -- through, and the next row meets the table that the change has left; else it has the error that
  -- its change raised, which is no failure of a flush. What the last row has left is the table.
  pub process_sync_queue-Handled :
      (now : ℕ) (db : table.Db) (ops : List (SyncOperation Json))
      (out : List (SyncOperation Json) × table.Db)
      → process_sync_queue table worker settings uuid finished now db ops ≡ ok out
      → Handled now settings.sync_queue_batch_size 0 db ops out.0 out.1
  unfolding process_sync_queue
  process_sync_queue-Handled now db ops out h =
      subst (Ensures (λ done. Handled now settings.sync_queue_batch_size 0 db ops done.0 done.1)) h
        (drain-Handled now settings.sync_queue_batch_size 0 db ops)
