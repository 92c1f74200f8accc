-- ===== src/Lib.antt =====
-- A model of the core of the speculative runtime, written in TypeScript under src/ of the
-- repository, and what is proved of it.
--
-- A producer hands plans of predicted actions to the runtime, which orders them by their
-- dependencies, runs them as candidates in transactions, and adopts a result if the actor asks for
-- the same action. Each part is a record with one function per operation; asynchronous code is cut
-- at its waits, and the pieces are the events of a run, in any order.
--
-- Prelude: names of the libraries, lists, Boolean tests, association lists for `Map`.
-- Numbers (src/number-utils.ts): a number is a multiple of 2^-1074 or not finite; clamped
--   quantities and counts are natural numbers. `increment` adds 1 to a count with the rounding of
--   numbers beyond 2^53, which `reserveRevision` needs; its minimum is a count, as its callers pass.
-- Settlement (src/settlement.ts): causes, identities, outcomes of predictions.
-- Order (src/dependency-order.ts): the traversal with its explicit stack. `drain` takes fuel, one
--   unit for each turn of the `while`; `turns` in Order/Complete counts enough of them from the vertices
--   and their dependencies, since a node is expanded once.
-- Candidate (src/candidate-execution.ts): execution states, reservations, leases.
-- The directory Plan (src/plan-runtime.ts, src/plan-proposal.ts): Plan/Proposal and Plan/Capture
--   take an update over, Plan/Opportunity owns the outcome of a prediction, Plan/State is the
--   state, Plan/Timing is `recompute`, Plan/Readiness is `dependencyReadiness` (the fuel of its
--   `while` is counted by `readiness_turns` in Plan/Readiness/Ending, as a node is expanded once),
--   Plan/Operations has the operations on a node, and Plan/Selections the selections of nodes and
--   the claims of predictions. A node is reached by its names, an opportunity, a graph or an owner
--   by an address. An update is applied by Plan/Replacement (equality of action executions),
--   Plan/Materialize (nodes and identities), Plan/Commit (the new runtime replaces the old one)
--   and Plan/Apply (`apply` and its refusals). The two traversals of `apply` share their fuel;
--   Plan/Apply/Ending takes the larger of their turns.
-- Transaction (src/effect-transaction.ts): the transaction of a branch, its validations and its
--   commit; Transaction/Coordinator makes it. Backends are the events' arguments.
-- Effect (src/effect-model.ts): the capabilities of backends and what an execution requires.
-- Recency (src/bounded-recency-map.ts): the map that evicts its oldest entry.
-- Budget (src/drafter-budget.ts): the requests and tokens of a task with their reservations. The
--   estimates of a prompt come from libraries and are part of a request.
-- Queue (src/post-settlement.ts): the bounded queue of events.
-- Content (src/artifact-reference.ts, src/content-chunks.ts, part of src/reuse-store.ts): manifests and
--   their validation, the chunker, the blocks in memory and ranged reads. The size of a block, the
--   bytes and the digest are parameters. `fill` takes as many turns as there are bytes, and so does
--   `read_chunk_range`, since each turn takes one at least.
-- Scheduler (src/scheduler.ts): forecasts and work; Scheduler/Ledger has admission and the failure
--   circuit, Scheduler/Priority the order, Scheduler/Preemption the selection of victims (its fuel is one
--   more than the entries, since each turn takes one), Scheduler/Resources the samples. Amounts and
--   ratios are exact, not rounded; the engine's sort is a parameter.
-- Preview (src/actor-stream-preview.ts): the previews of streamed calls; the parser is a parameter.
-- Timeline (src/timeline-computation.ts): the normalization of timeline evidence, which uses Order.
-- Semantics (src/action-semantics.ts): keys of actions, their projections and their matching, and
--   the ranges of reads. `JSON.stringify` is a parameter, and a projector that throws has no result.
-- Store (src/candidate-stores.ts): one scope of the candidate store with its entries by partition
--   and its index; Store/Settling has the calls of a run, and Store/Retention the
--   creation of entries and the eviction of results. Its sorts, with the scores, and the limits of hot
--   results are parameters, and callbacks do not call the store. A partition's text key is tagged data.
--
-- Not modelled: the store's lookup by inputs and its waiters, the
-- projectors of the tools and their registry, the stores on disk, the timer of the scheduler, the
-- leases of contents, the engine that composes the parts, the learners, and what is I/O (the
-- backends of Linux, sandboxes, tracing, databases, the host extension). Freezing and cloning of
-- objects are left out, since values here do not change. Fields that a part only carries are left
-- out.
pub mod Prelude
pub mod Order
pub mod Numbers
pub mod Settlement
pub mod Candidate
pub mod Plan
pub mod Recency
pub mod Budget
pub mod Transaction
pub mod Queue
pub mod Effect
pub mod Semantics
pub mod Store
pub mod Content
pub mod Scheduler
pub mod Preview
pub mod Timeline
