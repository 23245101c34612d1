-- ===== src/Lib.antt =====
-- Anchora runs agent workflows: steps in a graph of dependencies, each of which calls an agent with a
-- prompt. Jobs are workflows that outlive a process: they are recorded in PostgreSQL and handed out
-- by a queue in Redis to workers, which hold a lease on the job while they run it.
--
-- Workflow (internal/workflow/workflow.go). Workflow.antt has the types. Workflow/Validate.antt is
-- NewWorkflow and Workflow/Cycle.antt is hasCycle, whose loop over the queue has one round of fuel
-- for each step and one more: Cycle/Correct shows that this is enough. Workflow/Render.antt is
-- renderPrompt, with the regular expression as a matcher on characters. Workflow/Retry.antt is
-- runStep, with one round for each attempt that the options allow. Workflow/Waves.antt is readyWave
-- and skipBlocked, and Workflow/Run.antt is Run, with one round for each step: each wave takes a step
-- away. What Go leaves open, the order of map visits and of the arrivals on a channel, is a Schedule,
-- about which the theorems know only that it reorders. An agent is what it replies to the calls of
-- one step. The context is the error, if any, that ends the n-th wait of a step.
--
-- Queue (internal/jobs/queue.go). Redis.antt is the interface of the commands that the scripts call,
-- with their documented effect on lists, sorted sets and hashes; Redis/Memory.antt meets it.
-- Queue.antt has each script as a function on the database and each method as a call of it, which
-- can fail before or after the script has run. Queue/Refines.antt relates the scripts to an abstract
-- queue; Queue/Safety.antt and Queue/Leases.antt are about all sequences of scripts, which are the
-- interleavings of the workers, since Redis runs one script at a time.
--
-- Store (internal/jobs/store.go). Store.antt has the statements on the table of jobs, each atomic
-- and at one time, which now() reads; Store/Steps.antt the steps, Create and Get;
-- Store/Registry.antt the events and the workers. The rows that LIMIT and SKIP LOCKED select are a
-- parameter. The times of a job are in nanoseconds, those of its row in microseconds, which Create cuts
-- off. Store/Rows is what a statement does to one row; Claimable, Ownership, Consistent, Unique and
-- Answers, and the modules below Steps and Registry, are the theorems.
--
-- Settings (internal/config/config.go, internal/jobs/jobs.go). Config.antt has the validation and the
-- accessors of the file's settings, Service.antt those of the backend,
-- with which Node/Startup compares them. Durations are int64 with
-- their wrap-around.
--
-- Service (internal/jobs/jobs.go). Service/Program.antt has the methods of JobStore and JobQueue as
-- calls, and a program as the code between them: it makes a call and goes on with whatever the call
-- returns. Service/Backend.antt is Submit, Get, Events and Stats; Service/Lease.antt is holdLease;
-- Service/Attempt.antt is runJob with fencedAgent; Service/Worker.antt is process with abandon and
-- deadLetter; Service/Loops.antt is RunWorker, RunReaper and reap. What the goroutines of one delivery
-- do at the same time is a list of moments in any order: a beat of the heartbeat, the claim of a step,
-- a result that Run reports, the end of the context. The results of the run are those of the model of
-- Workflow.Run, whose agents fail where their claim did. The endless loops are for any finite number
-- of rounds. Contexts and log messages are left out. Service/Discipline, Submission, Recovery, Rounds
-- and Waits are the theorems, which hold whatever the calls return. Service/Cluster.antt puts the
-- workers, the reapers and the submissions of all nodes together, in any interleaving of their calls.
-- Cluster/World.antt lets these calls run on the models of the store and the queue: one call at a time
-- takes effect, and may be refused or lose its answer. Cluster/Custody.antt and its modules follow a job
-- from the call that takes it to the call that gives it on; Cluster/Earned.antt, Announced and Dispatched
-- are about the log and the push. Cluster/Kept, Outcome, Completed, Recovered and Submitted are the
-- theorems on that world.
--
-- HTTP (internal/httpapi/router.go). HttpApi.antt has the handlers with their status codes,
-- HttpApi/Stream.antt the stream of events, which polls the log once at the start and once for each
-- tick. What the JSON decoder and the number parser return is an argument.
--
-- Node (cmd/anchora/main.go, internal/einoagent/agent.go). Agents.antt is New and Run of an agent on a
-- chat model, which is a parameter. Node.antt builds the agents, the service and the workers from the
-- configuration; it keeps the open connections and the goroutines of the pool as lists, and the
-- WaitGroup as its counter. Which goroutines return in time is an argument.
--
-- Samples modules have the runs on small inputs and the theorems applied to them. Prelude has the
-- shared helpers.
--
-- Not modelled: the connections, the migration and the errors of the drivers; the encoding of
-- payloads and messages as text; the HTTP server, the router library, the flags and the signals of
-- cmd/anchora/main.go; what time the calls of a program take.
pub mod Prelude
pub mod Agents
pub mod Config
pub mod HttpApi
pub mod Node
pub mod Queue
pub mod Redis
pub mod Service
pub mod Store
pub mod Workflow
