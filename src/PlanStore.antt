-- ===== src/PlanStore.antt =====
-- The plans in the database: the classes of Backend/app/models/planner.py and planner_models.py,
-- PlannerDomainMapper of Backend/app/infrastructure/mappers/planner_domain_mapper.py and
-- SQLPlannerRepository of Backend/app/infrastructure/repositories/planner_repository.py. A
-- relationship is the list of its rows, each once, in the order in which they were put; a query
-- gives them in any order, so that no statement speaks of it. A payload is a dict of JSON. Each date
-- of a plan is there, so that `or datetime.now()` never counts. What a save leaves is read in a
-- later session: in its own, the list in memory may have a new row twice.
pub mod Models
pub mod Rows
pub mod Mapper
pub mod Repository
mod Tests
