-- ===== src/Lib.antt =====
-- A verification library for the Go backend of Open Music Player (backend/internal).
--
-- Parts and files:
-- - PlayQueue (backend/internal/queue/queue.go): the playback queue of a user. PlayQueue.Types has
--   QueueItem and QueueState, PlayQueue.Edit what AddToQueue, RemoveFromQueue, ReorderQueue,
--   RetryQueueItem and recalculatePositions do to a loaded state, PlayQueue.Service the methods of
--   Service with their reads and writes of Redis.
-- - PlaylistSync (backend/internal/playlistsync): PlaylistSync.Types is types.go,
--   PlaylistSync.Reconcile the pure planning of reconciler.go, PlaylistSync.Reconciler its Reconcile
--   over the interfaces SourceAdapter and Store.
-- - Download (backend/internal/download): Download.Job is job.go, Download.Update how
--   queue.go makes and changes a job, Download.Queue and Download.Retry the methods of Queue as runs
--   on a Redis server that stop at the first error, Download.Worker processJob and its failure paths
--   in worker.go over a processor and a durable lifecycle that are parameters, Download.Backoff
--   calculateBackoff and the limits of NewWorkerPool.
-- - Research (backend/internal/research): Research.Types has the statuses and inputs of types.go,
--   Research.State the transitions, degradations and validations of state.go, Research.Rollout the
--   assignment of variants of rollout.go, over SHA-256 as a parameter.
-- - Research.Repository (postgres_repository.go of that package): Tables has the rows of the research
--   tables (db/db.go), the configuration and the errors; Queries and Loads the statements that the
--   transactions share; Create, Owner (Get, Events, Cancel, Retry), Lease (Claim, RenewLease), Recover
--   (RecoverExpiredLeases), Complete (AppendEnhancement, RecordTerminal, Degrade, RetryClaim, Finish)
--   and Review the methods, each a function of the tables that fails or returns the tables after the
--   commit; Calls runs one after the other, a failed one rolled back. Sql has what a SELECT or UPDATE
--   with a WHERE clause does to a list of rows. Writes is the relation of the single writes, and the
--   files whose names end in Writes show that each method is made of them; the invariants are by
--   induction on that relation.
-- - Research.SafeText, Ranking and Payload (protocol.go): the checks of texts and addresses, the order of
--   candidates, and the validation of a payload, over what `url.Parse` and the JSON decoder read; Ranked
--   and Accepted hold proofs. Research.Baseline (baseline.go) is NewBaselineBuilder and Build, over a
--   search and a rating of sources; TooMany holds a proof.
-- - Research.Worker (worker.go and runner.go): the durations and the back-off of a worker, and RunOnce and
--   result as transactions of Research.Repository; WorkerSteps, WorkerFence and Backoff hold proofs.
-- - Errors (backend/internal/errors): Errors.AppError is errors.go, Errors.Retry the loops of retry.go
--   over a function, a context and a wait that are parameters.
-- - Websocket (backend/internal/websocket/hub.go): Websocket.Hub has the hub and the cases of Run, a
--   panic being the absence of a next state.
-- - Validators (backend/internal/validators): Youtube is youtube.go over `url.Parse`, Registry the list of
--   validators; Canonical holds proofs.
-- - Matcher (backend/internal/matcher/similarity.go): Matcher.Levenshtein is levenshteinDistance,
--   Matcher.Scripts the edit scripts that it counts.
-- - Redis: the client library as a record of operations on a server, with its documented behaviour
--   as a record of laws; Redis.Memory is a server that has them. Redis.Queueing adds
--   lists, a transaction and publishing, and Redis.QueueMemory is such a server.
-- - Prelude: Boolean tests, lists over native numbers, Go strings as code points, Go's integers.
--
-- Conventions: a Go `int` that is an index or a count is a natural number, and one that a caller
-- supplies a signed integer. Only calculateBackoff of Download computes near 2^63, and wraps
-- around there. Time stamps are numbers. A fallible method returns a result type of its part. New IDs
-- and clock readings are arguments. Loops are structural recursions, so no fuel is used.
--
-- Research.Repository uses the validations and degradations of Research.State, and
-- Research.Worker calls its transactions. The other parts do not
-- call each other in the modelled code; PlayQueue and Download share a job's ID and
-- the Redis server.
--
-- Transactions of the research repository follow one another, in any order. The row and advisory locks
-- order them; only what Claim has read before it gets its locks may be out of date, so the
-- tables that it reads its candidates from are an argument, any tables. The clock is read once in a call.
--
-- Not modelled: the other packages of the backend (among them api, auth, discovery, processor, storage,
-- musicbrainz and the repositories of db), SoundCloud addresses, other SQL, HTTP handlers,
-- subprocesses, JSON encoding, logging, and the client, extension and agent programs in other languages.
mod Prelude
pub mod Redis
pub mod PlayQueue
pub mod PlaylistSync
pub mod Download
pub mod Research
pub mod Errors
pub mod Websocket
pub mod Matcher
pub mod Validators
