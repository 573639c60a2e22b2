-- ===== src/Lib.antt =====
-- Schedora, a job scheduler on PostgreSQL and Redis, as definitions that run.
--
-- The program. Clients create jobs through services/job_service.py, which writes the table `jobs` by
-- repositories/job_repository.py and puts the ids of PENDING jobs into a Redis sorted set by
-- services/redis_queue.py. A worker claims a job by services/scheduler.py, which asks for PENDING jobs
-- that are due and whose dependencies (services/dependency_resolver.py) succeeded, and sets them to
-- SCHEDULED. worker/job_executor.py then runs the handler that worker/handler_registry.py knows for the
-- type of the job, and writes the outcome. services/heartbeat_service.py keeps the table `workers` and
-- the heartbeat keys in Redis, finds the workers that went silent, and resets their jobs.
-- services/state_machine.py says which changes of a status are allowed, and services/retry_service.py
-- computes delays. All paths here and in the modules are those below src/schedora/ of the repository.
--
-- The files.
--   Base: tests, lists and equality. Errors: core/exceptions.py, results and actions. An action takes a
--     state and gives a result and the new state; what was written before an exception stays.
--   Enums, Models: core/enums.py and models/. A UUID and a time are numbers, times in microseconds; a
--     JSON column is its text.
--   Store: what the code relies on of PostgreSQL and Redis, as records of operations and their
--     laws. A table looks rows up by key, selects by a test, inserts (refusing a duplicate of a
--     unique column or a row against a CHECK constraint), updates and deletes. The widths of the
--     columns of `jobs` are in Models, and Jobs raises the DataError. A sorted set is kept in the
--     order of falling scores. Keys with a time to live exist until it has passed. Store/Sample
--     has stores that run and meet the laws.
--   StateMachine, Retry, Queue, Dependencies, Scheduler, Registry: the service of that name.
--   Jobs: the job repository and the job service. Heartbeat: the heartbeat service and what it calls of
--     the worker repository; Workers: the rest of that repository. Executor: the executor in its
--     production mode.
--   AsyncWorker: worker/async_worker.py in its production mode. Its polling loop is a function over a
--     list of turns; the loop again with its tasks, semaphore, counters and stop event is a step
--     relation. Handlers: worker/handlers, in a worker. Adapter: worker/database_adapter.py.
--   Lifecycle: a job from the request to its result, through the service, the queue, the worker and the
--     executor; one whose worker went silent; and, in Lifecycle/Steps, the calls of the services and the
--     executor that write the table `jobs` as a step relation, each a transaction, with any arguments and
--     in any order: create_job, cancel_job and transition_status of the job service, claim_job and
--     claim_ready_jobs of the scheduler, handle_stale_worker of the heartbeat service, and the sessions of
--     the executor. The repositories are called by these only. In production nothing calls
--     transition_status of the job service, so the theorems say what holds with it and what without it.
--   Workflows: the workflow repository and service. Background: services/background_tasks.py, whose
--     loops are functions over lists of turns. Cli: the life of the process of cli/worker_cli.py.
--   Api: the handlers of api/v1, with their status codes, and the checks of the requests for a job, a
--     worker and a workflow (api/schemas). Connections: core/redis.py. Observability: the gauges that are
--     read off the tables and the queue, the counters of jobs, and the counts of the middleware.
--   Examples: sample rows, and the theorems at concrete inputs.
--
-- What is an argument. The clock, new UUIDs, random numbers, the rows that other transactions hold
-- locked, what other sessions commit between two statements, how long handlers run, the reading and
-- writing of JSON, and the texts of messages. A method of a service is one step, but for the commits of
-- others that `create_job`, `create_workflow` and `cancel_job_during` take; the steps of an execution are
-- separate, with the commits of other processes between them. Loops run over lists or are step
-- relations, so there is no fuel.
--
-- What is not modelled. The durations among the metrics; the settings (numbers such as the timeout
-- of a heartbeat are arguments), the pool of connections to PostgreSQL, migrations and the
-- application object, which are calls of libraries; errors of the connections to PostgreSQL and
-- Redis; texts and JSON that PostgreSQL cannot store (as a NUL); a worker id of over 100
-- characters in `claim_job`, and the widths of the columns of `workers`; the checks of a heartbeat
-- request; the timeout of `stop`, which is a cancellation that may come at any time; the waits of
-- the background tasks; rollback of objects in a session's identity map; the test modes of the
-- worker and the executor. Delays are exact, and a timeout that equals the duration of a handler
-- runs out first: the rounding of floating-point seconds to microseconds is left out.
pub mod Base
pub mod Enums
pub mod Errors
pub mod Models
pub mod Store
pub mod StateMachine
pub mod Retry
pub mod Queue
pub mod Dependencies
pub mod Scheduler
pub mod Jobs
pub mod Heartbeat
pub mod Registry
pub mod Executor
pub mod AsyncWorker
pub mod Lifecycle
pub mod Handlers
pub mod Adapter
pub mod Connections
pub mod Workflows
pub mod Workers
pub mod Background
pub mod Cli
pub mod Observability
pub mod Api
pub mod Examples
