-- ===== src/Background.antt =====
-- Backend/app/services/background_tasks.py: the jobs that a scheduler runs, with the rows of
-- Backend/app/models/sync_operation.py and notification.py. Queue is about the offline changes that
-- wait, Digests about the summaries that are sent.
pub mod Queue
pub mod Digests
mod Tests
