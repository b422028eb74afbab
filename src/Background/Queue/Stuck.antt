-- ===== src/Background/Queue/Stuck.antt =====
-- Backend/app/services/background_tasks.py: a row whose change cannot be flushed.
use life_merge.Base.{
  ℕ, suc, ◌-◌, ◌<◌, ◌≡◌, refl, inl, inr, true, ◌&&◌, List, [], ◌∷◌, ◌++◌, length, ltb, arith,
  Bool-cases,
}
use life_merge.Base.Result.{Error, Result, ok, raise, integrity_error, ◌>>=◌}
use life_merge.Sync.{Table}
use life_merge.Background.Queue.{
  SyncOperation, QueueSettings, Worker, is_flush_error, is_due, attempt, settle, drain,
  process_sync_queue,
}

module _ {Json : Type 0} (table : Table) (worker : Worker Json table.Db) (settings : QueueSettings)
    (uuid : ℕ → ℕ) (finished : ℕ) where
  -- The run raises, whatever the exception.
  abbrev pub Raises : {A : Type 0} → Result A → Type 0
  Raises call = (e : Error) × (call ≡ raise e)

  Raises-bind :
      {A B : Type 0} (call : Result A) (rest : A → Result B)
      → ((v : A) → Raises (rest v))
      → Raises (call >>= rest)
  Raises-bind (ok v) rest f = f v
  Raises-bind (raise e) rest f = (e, refl)

  Raises-then :
      {A B : Type 0} (call : Result A) (rest : A → Result B) → Raises call → Raises (call >>= rest)
  Raises-then call rest (e, h) = rw h (e, refl)

  settle-poison :
      (now n : ℕ) (db : table.Db) (op : SyncOperation Json)
      → attempt table worker settings uuid finished now n db op ≡ raise integrity_error
      → Raises (
          settle table worker settings uuid finished db op
            (attempt table worker settings uuid finished now n db op))
  unfolding settle is_flush_error
  settle-poison now n db op h = rw h (integrity_error, refl)

  module _ (now : ℕ) (op : SyncOperation Json)
      (due : is_due table worker settings uuid finished now op ≡ true)
      (poison : (n : ℕ) (db : table.Db)
        → attempt table worker settings uuid finished now n db op ≡ raise integrity_error)
      (after : List (SyncOperation Json)) where
    drain-Raises :
        (before : List (SyncOperation Json)) (limit n : ℕ) (db : table.Db)
        → length before < limit
        → Raises (drain table worker settings uuid finished now limit n db (before ++ op ∷ after))
    unfolding drain
    drain-Raises [] limit n db fits =
        let picks : ltb 0 limit ≡ true = ground arith in
        rw (due, picks)
          (Raises-then
            (settle table worker settings uuid finished db op
              (attempt table worker settings uuid finished now n db op))
            _ (settle-poison now n db op (poison n db)))
    drain-Raises (first ∷ before) limit n db fits =
        elim (Bool-cases (is_due table worker settings uuid finished now first && ltb 0 limit)) [
          | inl picked ↦ rw picked (
              Raises-bind
                (settle table worker settings uuid finished db first
                  (attempt table worker settings uuid finished now n db first))
                _
                λ step.
                  Raises-then
                    (drain table worker settings uuid finished now (limit - 1) (suc n) step.1
                      (before ++ op ∷ after))
                    _ (drain-Raises before (limit - 1) (suc n) step.1 (omega arith)))
          | inr passed ↦ rw passed (
              Raises-then
                (drain table worker settings uuid finished now limit n db (before ++ op ∷ after)) _
                (drain-Raises before limit n db (omega arith)))
        ]

    -- If a row that is due stands among the first rows, as many as a batch may have, and the flush
    -- of its change fails whatever was done before it, then the run raises, whichever rows stand
    -- before and behind it: it returns no rows and no table.
    pub process_sync_queue-Raises :
        (before : List (SyncOperation Json)) (db : table.Db)
        → length before < settings.sync_queue_batch_size
        → Raises
            (process_sync_queue table worker settings uuid finished now db (before ++ op ∷ after))
    unfolding process_sync_queue
    process_sync_queue-Raises before db fits =
        drain-Raises before settings.sync_queue_batch_size 0 db fits
