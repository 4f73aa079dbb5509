-- ===== src/Lib.antt =====
-- Parts of cs426-fall24 (Go): a Raft peer and the simulated network it runs on, a sharded key-value
-- cache with its consistency checker, a video recommendation service, a queue and a semaphore.
--
-- Raft (cs426-fall24/lab3/lab3/raft/raft.go) is a peer that elects leaders, replicates a log and
-- applies the committed entries. Raft/State.antt has the fields of `Raft` as a record, the log
-- entries and the RPC arguments, and `Outcome`: a step is done, has panicked (an index out of
-- range, a nil pointer) or blocks on a full channel. Raft/Log.antt has the log as raft.go indexes
-- it, with `lastLogIndex` and `lastLogTerm`. Raft/Vote.antt has `RequestVote`, the election branch of
-- `ticker` and `conductElection`; Raft/Append.antt has `AppendEntries`; Raft/Replicate.antt has
-- `sendHeartbeats`, `handleAppendEntries` and `respAppendEntries`; Raft/Node.antt has `Make`,
-- `readPersist`, `Start`, `Kill`, `GetState` and a round of `applyEntries`. Raft/Cluster.antt puts
-- peers together as a step relation: requests of elections, replies, heartbeats and timers in any
-- order, with messages lost, repeated or late; the AppendEntries traffic of a peer is any request
-- and any reply, so that what holds there holds for every sender.
--
-- A handler runs under the lock of its peer, so it is one function from the peer to an outcome.
-- A goroutine that lets the lock go in the middle is one function for each stretch between
-- (`conduct_election` and `vote_reply`, `begin_append`, `finish_append` and
-- `end_append`, which is the deferred `persist`). A timer is a flag: a
-- tick of it will come. labgob and the persister keep the persisted fields as they are. Numbers
-- are natural; the one negative value of the code, -1 for nobody or for no entry, is `none`. The
-- channel of commit signals holds 1000, as made by `Make`; a send on a full one blocks.
--
-- The cache (cs426-fall24/lab4/kv) keeps values with a lifetime on servers that each host some
-- shards. Kv/ShardMap.antt has shardmap.go and util.go: the placement of shards, `IsValid`, its
-- two views, listeners and `GetShardForKey`; a listener's channel is the count of notifications
-- that it has received. Kv/Server.antt has server.go: `Get`, `Set`, `Delete`, `GetShardContents`, the
-- ticker of a shard, `retrieveShardData`, and `handleShardMapUpdate` as `begin_update` and
-- `finish_update`, its two stretches under the lock, with the copies that have arrived between them
-- as an argument; the shard map may change between its reads. A server asks the shard map for its shards and for the nodes of a shard, and
-- other servers for the contents of a shard. Kv/Client.antt has client.go, which reads
-- from one server of a shard and writes to all, and Kv/ClientPool.antt has clientpool.go. `none` is
-- a panic. Times are nanoseconds of a clock that does not go back, and are arguments of
-- the handlers; a Go map is an association list, in one of the orders in which Go may visit it.
-- hash/fnv, the random start of a rotation and the answers of other nodes are parameters.
--
-- Sync has two pieces of cs426-fall24/lab0. Sync/Queue.antt has queue.go; a lock makes each
-- operation one step. Sync/Semaphore.antt has semaphore.go: the counter, and a step relation of the
-- goroutines in `Post` and `Wait`, each of which touches the counter first and the channel then. Its
-- counter is an int64 in the code and has no bound here: it stands for fewer than 2^63 calls.
--
-- Net has the simulated network of lab3 (cs426-fall24/lab3/lab3/labrpc/labrpc.go) and the persister
-- (cs426-fall24/lab3/lab3/raft/persister.go). Net/Names.antt splits `service.method`; Net/Server.antt has
-- `MakeService` and the two `dispatch`; Net/Network.antt has the tables of `Network` with the methods that
-- change them, a `*Server` as its place in a list; Net/Deliver.antt has `Call` and `processReq`: its
-- goroutine, the one that runs the method, and a step relation in which they take turns with anything
-- that others do to the network and to the receivers. labgob and reflect stand in a method's `call`;
-- the draws of a request are arguments and its delays are left out. Net/Harness.antt has the harness of
-- the Raft tests (cs426-fall24/lab3/lab3/raft/config.go): `connect`, `disconnect` and `crash1` against
-- these tables, and the comparison of what the peers apply, with what it keeps per peer as functions
-- of the peer's number.
--
-- Checker.antt has cs426-fall24/lab4/checker/checker.go: what is recorded of writes and how a read is
-- judged. Checker/Runs.antt puts it beside a store, seen from one key: writes that begin, are taken
-- by the store at any moment, and complete or fail, and one read.
--
-- VideoRec has the recommendation service of cs426-fall24/lab2/lab1 with the user service, the video
-- service, the ranker and the failure injection of cs426-fall24/lab1 (the same files in lab2/lab1).
-- VideoRec/Server.antt and Recommend.antt have `GetTopVideos`, its batches over the two services, the
-- ranking, the fallback and the counters; Refresh.antt has the pools of connections and the cache of
-- trending videos; Users.antt, Videos.antt, Injector.antt and Ranker.antt have the services behind.
-- `Services` is what the recommendation service sees of them; Recommend/Behind.antt fills it with
-- the two. `Run` says whether a piece returns, panics or is still in its loop when the fuel is used
-- up. Random draws, the random databases, sort.Slice, hash/fnv and bcrypt are parameters.
--
-- Only the batch loops of VideoRec run on fuel, one unit for a batch: as many as there are ids are
-- enough where the batch size is not 0. Every other loop is over a list or a number of rounds that
-- the code fixes. The counters of VideoRec and Net wrap as in the code (`add64`, `add32`).
--
-- The rest of the repository is not modelled: the merged channels and fetchers of lab0, the first
-- version of the recommendation service in lab1, det_bcrypt (a copy of golang.org/x/crypto's bcrypt),
-- labgob, the loops of the harness of Raft that
-- wait in real time, the other test harnesses, the watcher of the shard map's file, and the commands, loggers, mock
-- clients and generated code. Memory reordering and data races are not modelled, and a handler of
-- Raft is atomic where it holds the lock.
--
-- Prelude has what the parts share: tests on numbers, lists and maps over native numbers, signed
-- integers. Tests has the theorems at concrete inputs.
pub mod Prelude
pub mod Raft
pub mod Kv
pub mod Sync
pub mod VideoRec
pub mod Net
pub mod Checker
mod Tests
