-- ===== src/Lib.antt =====
-- A model of the core of the Raft library in Go at the root of the repository.
--
-- The program. A server keeps its current term and its vote in a stable store, its log in a log store,
-- and the rest of its state in memory (state.go). Its main loop (raft.go) handles one call at a
-- time: vote requests, pre-vote requests, entries from a leader, and the wish to stand for election. A
-- leader counts in commitment.go how far each voter stores the log, which gives the commit index;
-- processLogs sends what was committed to the state machine. The membership is a configuration
-- (configuration.go) that the log itself changes, one server at a time. NewRaft (api.go) builds a
-- server from what its stores hold. inmem_store.go implements both stores, log_cache.go puts a ring
-- buffer before a log store. A candidate asks for votes and counts them (runCandidate); a leader keeps one
-- replication goroutine for each other server (replication.go), which sends entries or a snapshot
-- (snapshot.go) and reports to commitment.go. runFSM (fsm.go) applies to the state machine what was
-- committed; RecoverCluster (api.go) forces a configuration on a server that stands still. config.go says
-- which options are sane.
--
-- The files.
--   Prelude        shared names, Boolean tests on the native numbers, lists, 64-bit successor
--   Configuration  configuration.go, and quorumSize of raft.go; below it Check (which configurations
--                  are sound), Change (what a change does to the membership), Quorum
--   Commitment     commitment.go; below it Sort (the index that a majority reaches), Majority (the rule of
--                  the commit index), Order (reports in any order), Membership (changing voters)
--   LogStore       the interfaces of log.go and stable.go, with their laws
--   InmemStore     inmem_store.go; below it Logs and Kv (the two interfaces), Range (the two ends)
--   LogCache       log_cache.go over any log store; below it Coherence
--   Node           state.go and the setters of raft.go; the environment of a server
--   Vote           requestVote, requestPreVote and electSelf of raft.go; below it Casting and Ballots
--                  (what the disk keeps of the votes given), UpToDate (to whom votes are given)
--   Process        processConfigurationLogEntry, prepareLog and processLogs of raft.go; below it Batches
--                  (what is sent to the state machine), Unvoting and Untouched
--   Append         appendEntries of raft.go, in stages; below it Entries and Success (what becomes of the
--                  log), Unvoting
--   Start          NewRaft and restoreSnapshot of api.go; below it Unvoting, First and Snapshotted (starts
--                  from one entry, and from a snapshot)
--   Bootstrap      BootstrapCluster and HasExistingState of api.go; below it Once, Launch (what NewRaft
--                  makes of the stores) and Live (liveBootstrap of raft.go)
--   Recover        RecoverCluster of api.go; below it Replayed, Rebuilt and Restart (what NewRaft makes of it)
--   Candidate      preElectSelf and runCandidate of raft.go; below it Tally and Winning
--   Follower       the heartbeat timer of runFollower, processRPC and processHeartbeat of raft.go; below it
--                  Standing (who stands for election) and Terms
--   Cluster        the servers side by side; below it Election (one leader in a term)
--   Leader         the state of a leader, dispatchLogs, appendConfigurationEntry, startStopReplication of
--                  raft.go; below it Dispatch, Peers, Change and Reign (the two ends of runLeader)
--   Leading        branches of leaderLoop, checkLeaderLease, pickServer of raft.go, verifyFuture of
--                  future.go; below it Commits, Lease, Choice, Verified, and Serving (the calls of
--                  clients, and leadershipTransfer; below it Guarded and Pending)
--   Replication    replication.go; below it Request (what a request carries), Progress (the next index)
--                  and Modes (one request at a time, or a pipeline)
--   Snapshot       snapshot.go and installSnapshot of raft.go; below it Compact, Install and
--                  UserRestore (restoreUserSnapshot of raft.go)
--   InmemSnapshot  inmem_snapshot.go; below it Saved
--   FileSnapshot   file_snapshot.go; below it Whole, Newest (the order of the snapshots), Names and Reaped
--   Options        config.go, ReloadConfig of api.go, checkRPCHeader of raft.go; below it Sane and Reload
--   Fsm            runFSM of fsm.go; below it Batching and Replicas (two servers)
--   ConnPool       the pool of connections of net_transport.go; below it Exclusive
--   Server         a server under a sequence of events, crashes and restarts included; below it Safety,
--                  and Keeping, Snapshots and Bootstraps for its parts
--   Samples        concrete data, for the modules named Tests
-- The modules named Unvoting are about handlers and the vote on disk, Untouched about the log store.
--
-- The correspondence. A Go struct is a record, an enumeration a data type, a slice a list and a map an
-- association list. A function that changes shared state takes the state and returns it. A read of a
-- store that can fail gives `found`, `not_found` or `failed`; a write gives whether it succeeded and the
-- store that is left. A panic is the result `panicked` (or `die`), with the two stores that survive
-- it. Function names are those of the source in snake case; a loop of the source is a function by
-- recursion on the list or on the rounds that it makes. Only replicateTo, which goes on as long as its peer
-- makes it, runs on fuel, one for each pass; what is stated of it holds for any fuel.
-- Indexes and terms are numbers. The wrap of a 64-bit number is written out for the term after the
-- last, the next index of a peer, the index that restoreUserSnapshot burns, the difference of indexes in
-- shouldSnapshot, and DeleteRange at both ends of the range; elsewhere the indexes of a log are taken to
-- stay below the last 64-bit number, so that the one after an index is greater.
--
-- The two stores, the codec of configurations and peers, the transport's addresses, the application's
-- state machine, and the checksum and the order of names of file_snapshot.go are parameters.
-- The laws of the stores are in LogStore: what was written is read back, a failed write of one value
-- leaves the old value or the new one, and other keys do not change. InmemStore is an instance.
--
-- What a goroutine of replication meets (answers of the transport, the clock, the stop channel, the
-- snapshot store) is the parameter Surroundings; while one call of replicateTo runs, the leader's own
-- state is the same. What the state machine and the snapshot store answer to the taking and installing
-- of a snapshot is an argument.
--
-- Not modelled: the selects of the main loops with their timers and channels, and how long a transfer of
-- leadership waits; observers, metrics, log output, and transports beside their pool. Handlers
-- are atomic, as in the main loop; a crash comes between two events or as a panic in a handler. The events
-- of Server are all places where a server sets its term.
pub mod Prelude
pub mod Configuration
pub mod Commitment
pub mod LogStore
pub mod InmemStore
pub mod LogCache
pub mod Node
pub mod Vote
pub mod Process
pub mod Append
pub mod Start
pub mod Bootstrap
pub mod Server
pub mod Candidate
pub mod Cluster
pub mod Leader
pub mod Leading
pub mod Replication
pub mod Snapshot
pub mod InmemSnapshot
pub mod FileSnapshot
pub mod Options
pub mod Fsm
pub mod Follower
pub mod Recover
pub mod ConnPool
pub mod Samples
