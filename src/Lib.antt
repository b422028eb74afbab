-- ===== src/Lib.antt =====
-- Verification of the LifeMerge backend (Backend/app) and of its planning service
-- (Backend/ai_service): weekly plans, the merging of offline changes, notifications, what a
-- subscription allows, accounts and their tokens, lists that are read page by page, and the routes of
-- goals, events, notes, money and reminders.
--
-- How the parts work together. A client asks for a plan; `PlannerService` asks the AI service over
-- HTTP and, where that fails or sends no slots, generates the plan itself. The user accepts or
-- declines slots, which makes or changes tasks. Clients that were offline send their changes as a
-- batch. Notifications go through a router of platforms. Before a route is reached, a request
-- passes the rate limit of its client, the access token gives its user, and its key tells whether
-- it has been sent before; the planner's routes look at the subscription as well. Jobs do the
-- changes that wait in a queue, in the way of a batch, and send the digests that are due.
--
-- The files:
--   Base         names, Boolean tests, lists, sorting, dicts and results that the others share;
--   Planner      Backend/app/services/planner/components.py, planner_service.py and
--                Backend/app/domain/value_objects/planner.py. Time and Model have the data, Values the
--                checks on construction, Windows `TimeSlotCalculator`, Conflicts `ConflictDetector`,
--                Schedule `SlotGenerator._schedule_tasks`, Generate `generate_slots`, Edits
--                `validate_slots`, Answer `AIOrchestrator`, History `PlanHistoryManager`, Service and
--                Decision `PlannerService`, Orchestration
--                Backend/app/services/planner_orchestration.py and Backend/app/api/ai_access.py;
--   Sync         Backend/app/services/batch_sync_service.py, over an interface to the table of tasks;
--   Push         Backend/app/services/push_service.py, over `str.lower` and the HTTP client;
--   AiService    Backend/ai_service/main.py;
--   Access       Backend/app/services/subscription_service.py and feature_flags.py;
--   Repositories Backend/app/repositories: Models has the rows, Lists each `list`, Pages what is on a
--                page, Behind and Walk what all pages show, Rows what an update changes;
--   Auth         Backend/app/services/auth_service.py, Backend/app/core/security.py,
--                Backend/app/api/deps.py and Backend/app/api/v1/auth.py, over the libraries for tokens,
--                passwords and digests;
--   RateLimit    Backend/app/middleware/rate_limit.py, over an interface to Redis;
--   Idempotency  Backend/app/api/idempotency.py, Backend/app/middleware/idempotency_snapshot.py and
--                Backend/app/repositories/idempotency_repo.py;
--   Tasks        Backend/app/application/services/task_service.py and subtask_service.py, and the route
--                of Backend/app/api/v1/tasks.py that changes a task;
--   Productivity Backend/app/api/v1/productivity.py: Goals, Events, Inbox, Finance, Budgets and Notices
--                have its routes with the checks of Backend/app/schemas/productivity.py, and Requests
--                puts those that write together, one request after another;
--   Background   Backend/app/services/background_tasks.py: Queue does the operations that wait, through
--                Sync, and Digests sends what is due, through Push;
--   PlanStore    Models has the rows and records of plans (Backend/app/models/planner.py and
--                planner_models.py), Mapper and Rows
--                Backend/app/infrastructure/mappers/planner_domain_mapper.py, Repository
--                Backend/app/infrastructure/repositories/planner_repository.py;
--   RequestContext Backend/app/middleware/request_context.py, with Backend/app/core/response.py;
--   AiRules      Backend/app/services/ai_rules_service.py, with its repository, schema and routes.
-- The modules named Tests have runs on concrete data and the theorems at concrete inputs.
--
-- How the code corresponds. Functions keep their names. An identifier is a number, and what
-- `uuid.uuid4` would draw is a function from counters to identifiers. A date is its ordinal, an
-- instant a number of microseconds; a datetime is naive or aware, and comparing the two raises as
-- in Python. A payload's ISO text stands for its parsed value where the code parses it. Exceptions
-- are values of `Result`. State is passed on: the dict of plans, the database behind the task
-- service (an argument with any behaviour), the table of tasks (an interface with laws). All loops
-- run over lists, so no fuel is needed; a client that follows cursors sends a given number of
-- requests, and as many as there are rows are enough. Log lines, metrics other than the router's,
-- and events are left out.
--
-- What SQLAlchemy does is passed on or written out: an update of the rows a query picks, a key that may
-- stand once, a column that may not be null. A call that raises leaves the database as it was, since
-- the session is closed without a commit; `Background.Queue` has the one place where the code goes on
-- after an exception. The unique indexes of Backend/alembic/versions on the digests of refresh tokens
-- and on the identifiers of slots and conflicts are written out, and so is the order of the dates
-- that the driver stores, which the invariant on events takes as a condition for naive dates. The
-- floats of the summary of a month are a parameter with any sum and difference, and the percentage of
-- a goal is a fraction.
--
-- Not modelled: the routes of subtasks and of reminders and `create_task` (they call or name what does
-- not exist), the routes of the planner over its use cases (they import modules that do not exist, as do
-- planner_app_mapper.py, planner_mapper.py and the adapters), the wiring of HTTP, configuration, the
-- headers that the rate limit sets, migrations, the aiosqlite stand-in, and the client in Flutter. The
-- lists of notification triggers and digests raise, and are left out. In PlanStore a row's own key and
-- the reference to its plan are left out, and so is the second copy that a new row has in the list in
-- memory until it is read again. The answer 409 of `patch_task` is left without its details, and a
-- NotificationPayload without its data. The loop of the AI service over calendar events is modelled
-- with even indentation, since Python refuses the file as it is. Numbers below zero are modelled only
-- for priorities.
pub mod Base
pub mod Planner
pub mod Sync
pub mod Push
pub mod AiService
pub mod Access
pub mod Repositories
pub mod Auth
pub mod RateLimit
pub mod Idempotency
pub mod Tasks
pub mod Productivity
pub mod Background
pub mod PlanStore
pub mod RequestContext
pub mod AiRules
