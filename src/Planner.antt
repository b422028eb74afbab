-- ===== src/Planner.antt =====
-- The planner of the backend: Backend/app/services/planner/components.py and the value types
-- that it computes with.
pub mod Time
pub mod Model
pub mod Values
pub mod Conflicts
pub mod Windows
pub mod Schedule
pub mod Generate
pub mod Edits
pub mod Answer
pub mod History
pub mod Service
pub mod Decision
pub mod Orchestration
mod Tests
