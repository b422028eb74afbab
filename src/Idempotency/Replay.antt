-- ===== src/Idempotency/Replay.antt =====
-- A request that is repeated (Backend/app/middleware/idempotency_snapshot.py).
use life_merge.Base.Result.{Result}
