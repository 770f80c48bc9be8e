-- ===== src/Lib.antt =====
-- Verification of the core of Weibo, a stream processing engine: event-time windows, watermarks,
-- keyed state, the two-phase checkpoint protocol with its recovery, and the controller of the jobs.
--
-- How the parts interact. A source, wrapped by `WatermarkSource`, interleaves records with watermarks.
-- The window operator assigns each record to windows, buffers it in keyed state and fires windows when
-- a watermark passes them. A barrier makes it hand a snapshot to the checkpoint coordinator, which,
-- once the sink has prepared its transaction, persists the checkpoint, commits the transaction and
-- marks the checkpoint completed, in the files of `FileStorage`. The planner groups the operators of a
-- job into stages; a stage with several workers merges their outputs and aligns their barriers. Sinks
-- write through the batch writer. The controller runs each job in a container of its own and drives it
-- towards the state that its user wants. After a crash the engine decides from the storage and the
-- sink's marker which checkpoint to resume from.
--
-- Files.
--   Base.antt           signed integers with the wrap-around of int64, maps, Boolean tests
--   Types.antt          types/record.go: Record, NewWatermark, NewBarrier, WithHeader
--   Window.antt         window/*.go: WindowStart, AssignWindows of the three assigners, MergeSessions
--   WindowKey.antt      operator/window.go: windowKey.String, parseWindowKey, and the codecs
--   WindowOperator.antt operator/window.go: Process and what it calls
--   ReduceOperator.antt operator/reduce.go: Process, the eviction of closed windows, Restore
--   State.antt          state/state.go: the contract of ListState; its children state/memory.go
--   Watermark.antt      watermark/bounded.go, source/watermark.go: partitionWatermark, Run
--   JoinOperator.antt   operator/join.go: the interval join, Process and what it calls
--   AlignedMerge.antt   pipeline/markers.go: alignedMerge, with the turns of its goroutines
--   Planner.antt        pipeline/planner.go, pipeline/keyed_stage.go: BuildPlan, NewKeyedStage
--   BatchWriter.antt    sink/batch.go: run, with the cases of its select as events
--   Checkpoint.antt     checkpoint/checkpoint.go: CheckpointData and the contract of Storage
--   FileStorage.antt    checkpoint/checkpoint.go: FileStorage, its pointers and its retention
--   Coordinator.antt    checkpoint/coordinator.go: On..., finalize, step, abortFatal, reportFatal
--   Recovery.antt       engine.go: resolveCoordinatedRecovery
--   Positions.antt      source/source.go: EncodePositions, DecodePositions
--   OffsetTracker.antt  source/kafka_offset_tracker.go: the offsets of a Kafka source
--   Lifecycle.antt      control/lifecycle/lifecycle.go: the phases of a run, the restart policy
--   Controller.antt     control/controller.go, control/reconcile.go, control/store/sqlite.go: the requests
--                       of a user and the passes of the reconciler, on the rows and containers of a job
--   Examples.antt       the theorems at concrete inputs, and runs
--
-- How code becomes definitions. A time is its count of nanoseconds since the Unix epoch, an integer;
-- where the source calls `UnixNano` or computes on int64, the result wraps around. A Go map is an
-- association list. A struct with methods is a record and functions on it; what a channel delivers is
-- a list, in the order in which the loop takes it. A panic by division by zero is `none`.
--
-- Fuel. The loops of `Sliding.AssignWindows` take size + slide + 2 rounds of fuel; each round moves the
-- start by a slide that is at least 1, and the loops stop within size + slide of the record.
--
-- Parameters. The texts of `time`, `strconv`, `encoding/binary` and `encoding/json` are a `Codec`,
-- and for positions a `PositionCodec`; the answers of the sink, of the test hook and of the offset
-- commit are an `Environment`; the checkpoint storage is a `Storage`, whose fields say what a
-- caller may rely on, failures included. `FileStorage` takes the answers of the operating system to the
-- calls that write from a list, and the JSON of a checkpoint from a `CheckpointCodec`. The order in which
-- the goroutines of `alignedMerge` run is a list of turns. The answers of the database, the container
-- backend, the secret provider, the clock, the YAML parser and the workflow compiler to the controller are
-- functions of the number of the call, in `Outside`; a call of the database that fails has no effect.
--
-- Not modelled: mutexes and, but for `alignedMerge`, goroutines (each handler is one step), contexts and
-- their cancellation, reads of the file system that fail, an error of the storage's `Load` in recovery,
-- native snapshots, logging, tracing and metrics other than the late counters; sources and sinks of other
-- systems, the run of the other stages, the HTTP API, the sweep of orphans and the container backends of
-- the control plane, the job agent and the workflow compiler. Each operation of the
-- controller on a job is one step. `lockJob` makes it so for the passes and for most of the rest; a
-- submission before its launch, the first `GetJob` of a cancel, a restart and a deletion, and a savepoint take no
-- lock in the source, and are one step with the rest of the operation all the same. The JSON text of the
-- snapshot of a join is left out; that of a window operator is the codec's. With `async` the batch writer's
-- goroutines may write in another order than the one in which they are started, and only the latter is modelled.
pub mod Base
pub mod State
pub mod Types
pub mod Window
pub mod WindowKey
pub mod WindowOperator
pub mod Watermark
pub mod Checkpoint
pub mod FileStorage
pub mod JoinOperator
pub mod AlignedMerge
pub mod Planner
pub mod BatchWriter
pub mod Coordinator
pub mod Recovery
pub mod Positions
pub mod OffsetTracker
pub mod Lifecycle
pub mod Controller
pub mod ReduceOperator
pub mod Examples
