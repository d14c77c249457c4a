-- ===== src/Lib.antt =====
-- Kill my cluster: a replicated key-value store. Clients' commands go through the log of a Raft
-- cluster, whose nodes keep their terms, votes and entries in a write-ahead log, and each node
-- applies the committed commands to a state machine. A durable store on the same write-ahead log
-- stands beside it.
--
-- Storage (internal/storage)
--   Storage/Record.antt  record.go: encodeCommand and decodeCommand.
--   Storage/Wal.antt     wal.go: Append, Sync, Close, OpenWAL, replayWAL. A log is the bytes that an
--     fsync covers, those in the page cache and those in the buffer; a crash keeps the first and any
--     prefix of the others. The replay loop has the file's length as fuel, one unit a frame of at
--     least eight bytes.
--   Storage/Store.antt   store.go and snapshot.go: the store, Open, Put, Delete, Get, Len, Close, and
--     Snapshot as its calls on the file system, any of which may be the last. A rename, and the name
--     of a log that Open creates, are not stable before the directory is synced. A file is known by
--     what it decodes to (encoding/gob is not read), and one that is not wholly written does not decode.
--
-- Raft (internal/raft)
--   Raft/Log.antt        log.go: the log in memory. sort.Search is its halving loop, with the length
--     as fuel.
--   Raft/Disk.antt       persist.go: the records that each call leaves, also when it fails, and the
--     state that openPersister recovers from them. Their bytes are not modelled.
--   Raft/Node.antt       node.go: the node, NewNode, and the transitions that its handlers share. The
--     clock, the random numbers and the outcome of each write are an argument, `Env`.
--   Raft/Handlers.antt   node.go: HandleRequestVote, HandleAppendEntries, HandleInstallSnapshot and
--     Snapshot.
--   Raft/Leader.antt     replicate.go and batch.go: replicateOnce and sendSnapshotLocked, each cut at
--     its RPC in two; maybeAdvanceCommitLocked; commitPropBatch.
--   Raft/Election.antt   node.go: a tick of runElectionTimer, pre-votes, elections, the answers to
--     both, CheckQuorum and the commit-stall watchdog.
--   Raft/Applier.antt    node.go: a pass of runApplier.
--   Raft/Commit.antt     how commit indices and terms move.
--   Raft/Duplicate.antt  HandleAppendEntries on entries that are there already.
--   Raft/Votes.antt      the steps of a node's life, with the votes that it gives in each.
--   Raft/Cluster.antt    the nodes of one cluster, their vote requests and the answers, as a step
--     relation. A vote request is answered at most once; an answer may be lost. A node may also be
--     asked by anybody for a vote whose answer nobody hears. The append and snapshot messages that a
--     node gets, and the answers to them, are arbitrary.
--   Raft/Reads.antt      batch.go and node.go: serveReadBatch, confirmLeadership, heartbeatAck, the
--     lease of ReadIndex, WaitApplied. What the node is at each unlock is an argument.
--   Raft/Clocks.antt     node.go: withDefaults, and NewNode on a configuration. Durations are int64.
--   Raft/Mirror.antt     node.go, batch.go and persist.go: the log in memory and the records on disk.
--
-- State machine (internal/kv)
--   Kv/Command.antt      command.go: Encode and Decode.
--   Kv/Machine.antt      machine.go: Apply with the dedup table, Get, Watch, Unwatch.
--   Kv/Machine/Image.antt  machine.go: Snapshot and Restore; encoding/gob is a parameter.
--   Kv/Cluster.antt      cluster.go: handleApply, maybeSnapshotAt and the requests;
--     Kv/Cluster/Waiting.antt has the proposers that wait for an index.
--   Kv/Client.antt       client.go: tryOrder, demote, invalidate, stub and viaLeader. Each sweep over
--     the nodes has its time and its replies as an argument, and a call has the number of sweeps as
--     fuel: 33 of them, which wait at least 250 ms each, are past the deadline of 8 s.
--
-- Control plane (internal/controlplane)
--   ControlPlane/View.antt   engine.go: the leader, the quorum and its last loss, from the nodes' states.
--   ControlPlane/Audit.antt  audit.go: observe; ControlPlane/Audit/File.antt has write, rotateLocked and
--     tailAudit. encoding/json is a parameter.
--   ControlPlane/Limits.antt engine.go: allowDisrupt.
--
-- Numbers are natural numbers. Sums of terms, indices and counters wrap at 2 ^ 64 and lengths in the
-- formats at 2 ^ 32 as in the source; an int is assumed to have 64 bits, and sums of lengths of
-- slices do not reach that. A call under a mutex is one step. nil and the empty slice are one value.
-- Each Tests.antt evaluates theorems at concrete inputs.
--
-- Not modelled: gRPC transports and generated code, which carry messages; the rest of the control
-- plane, metrics, commands and the web page, which are input and output around the above; and the
-- goroutines and timers that call the handlers and gather batches, of which any order is allowed.
pub mod Prelude
pub mod Storage
pub mod Raft
pub mod Kv
pub mod ControlPlane
