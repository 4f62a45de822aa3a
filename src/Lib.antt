-- ===== src/Lib.antt =====
-- The C4ISR server (Go): a verification library of its core logic.
--
-- The server keeps an operational picture: sensors report, rules raise alerts, operators issue commands
-- to assets, and a scenario engine replays exercises in virtual time. Each module of internal/ has a
-- domain, a service that checks and publishes events, and a repository over PostgreSQL; modules meet
-- through those events and a few small interfaces. What is modelled here:
--
-- - Platform.Apperr: internal/platform/apperr/apperr.go, application errors and their codes.
-- - Platform.Freshness (Thresholds, Bands): internal/platform/freshness/freshness.go, how current the
--   information on an asset or a track is.
-- - Platform.Table: a PostgreSQL table with a text key, as the queries of db/queries use it: look-up,
--   insert, guarded update, and the classes of errors a query may return.
-- - Commands: internal/commands/domain.go. Commands.Store is postgres_repository.go, Commands.Service is
--   service.go. Graph, Safety, History and Issue hold the theorems: on the lifecycle diagram, on one
--   transition, on sequences of calls, and on issuing.
-- - Incidents: internal/incidents/domain.go. Incidents.Store is postgres_repository.go with WithTx of
--   internal/platform/db/db.go, Incidents.Service is service.go. Opening, Moves and Stamps hold the theorems.
-- - Alerts: internal/alerts/domain.go and labels.go. Alerts.Store is postgres_repository.go with the unique
--   indexes of db/migrations, Alerts.Service is service.go. Calls, Rows and Count are what the proofs share;
--   Dedup, Delivery, Lifecycle and Final hold the theorems.
-- - Missions: internal/missions/domain.go. Missions.Store is postgres_repository.go over
--   db/queries/missions.sql, Missions.Service is service.go. Times are lemmas on the writes; Calls,
--   Planning and Lifecycle hold the theorems.
-- - Scenarios.Timeline and Scenarios.Engine: internal/scenarios/engine.go, the scheduled actions, the state
--   of one run under its lock, in Engine.Schedule a whole call of scheduleAfterMany, and in Engine.Run the
--   loop of `run`. Run.Numbers and Run.Polite are lemmas on such calls; Queue, Capacity, Run.Termination,
--   Run.Fair and Run.Ending hold the theorems.
-- - Platform.Geo and Platform.Metrics: Point of internal/platform/geo/geo.go, and the gauge of stale
--   entities of internal/platform/observability/metrics.go.
-- - Platform.Access: internal/platform/httpx/middleware.go, the table of routes with the permission
--   that each asks for, what the roles may, and the decision of Authorization. Platform.Access.Login
--   is Authenticate, and the chain of the two in internal/app/app.go. Routes are lemmas on the table;
--   Policy, Session, Roles and Login hold the theorems.
-- - Telemetry: internal/telemetry/domain.go. Telemetry.Store is postgres_repository.go with the state of
--   an asset from db/queries/assets.sql, Telemetry.Service is service.go, Telemetry.Monitor is
--   freshness_monitor.go. Seen, Growth, Insert, Turns and Attempts are lemmas on the queries and on a turn
--   of the loop; Projection, Latest, Delivery and Retry hold the theorems on ingestion, Keys, Shown and
--   Silence those on the monitor.
-- - Tracks: internal/tracks/domain.go. Tracks.Store and Tracks.Writes are postgres_repository.go with the
--   queries of db/queries/tracks.sql, Tracks.Correlation and Tracks.Service are service.go. Walk shows
--   that the handler keeps what each write keeps; Growth, Steps and Turning are lemmas; Evidence, Atomic,
--   Ownership and Redelivery hold the theorems.
-- - Examples: the theorems at concrete inputs.
--
-- How the code is rendered. A struct is a record, an enumeration a data type; a NULL text is the empty
-- text; an instant is a number of nanoseconds, a duration an int64 with its wrap-around written out. A
-- service call takes an `Env` and the tables and returns its result with the new tables and the events
-- published. `Env` holds what comes from outside: the clock, fresh identifiers, the other modules' answers,
-- the error of each query, and what other writers do between a call's read and its write. A theorem that
-- needs the other writers to behave says so in its hypotheses. The engine's locked sections are functions
-- on its state; concurrency is a step relation on them (Capacity) or functions that run between the
-- sections (Run, Schedule). Two limits: Create of the missions and Create of the commands, which send
-- several queries in no transaction, are modelled with no other writer between these queries; and a
-- commit that answers with an error is taken to have been rolled back, though PostgreSQL may have
-- committed.
--
-- Fuel: the run loop is recursion on fuel, since actions may schedule actions. A run needs no more than
-- 2 * 20000 rounds: a round that takes an action out lowers the number of those that wait, a round that
-- finds its action gone has seen a new event, and events are bounded by maxScheduledActions. So 40001 is
-- enough (Termination).
--
-- A float64 is its bit pattern; the distance over a time and the bearing of two points, which are
-- trigonometry on floats, and the rounding of a time by a timestamptz column are parameters (Outside). The
-- retry loops of the telemetry and the tracks are recursion on the list of their three attempts, each with
-- what it finds outside.
--
-- Not modelled: HTTP but for logging in and the permissions, configuration, logging, tracing and
-- wiring; the generated internal/dbgen, whose queries are read from db/queries; lists and their
-- paging; the rendering of messages; the wall clock of the engine, the building of its timeline, its
-- motion and the `emit` functions, `simulateCommand`; the persistence of its events, except for the
-- failures of the writes; and the modules geospatial, arearule, observations, classifications,
-- assessments, assets, sources, operators, picture, realtime and audit. apps/operator-ui is a front
-- end of another language.
pub mod Prelude
pub mod Platform
pub mod Commands
pub mod Incidents
pub mod Missions
pub mod Alerts
pub mod Scenarios
pub mod Examples
pub mod Telemetry
pub mod Tracks
