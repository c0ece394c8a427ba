-- ===== src/Lib.antt =====
-- babyray is a small Ray: a driver gives tasks to the local scheduler of its node, which runs them
-- on its own worker or hands them to the global scheduler; workers fetch functions from a function
-- table and put results into the node's object store; the object table of the global control store
-- (GCS) knows which node holds which object, calls waiting clients back, and has lost objects made
-- again.
--
-- Files, with the code that they model (paths from the repository's root):
-- Wire is proto/rayclient.proto, the messages, a record each, with the fields' names in snake case.
-- Config is go/config/config.go. Config/Wiring has the addresses at which the services listen and
-- which their clients dial, as texts, and NODE_ID; Config/Address reads such a text independently,
-- and Config/Reach says where each leads. AppConfig is config/app_config.yaml. Mains is the main
-- function of each process, up to where it serves; Mains/Serving and Mains/Boots take them as one
-- system.
-- FuncTable is go/cmd/gcsfunctable/main.go (RegisterFunc, FetchFunc); Fetch has its proofs.
-- ObjTable is go/cmd/gcsobjtable. Database is db.go, over an interface `Sql` of the calls to SQLite
-- and `IsSql`, what SQLite documents of them, with proofs in Database/Flush. Server is the
-- state of main.go. Locations is getNodeId, NotifyOwns and RequestLocation, with proofs in its
-- children Found, Notify, Waiters, Keeps and Answers. Recovery is flushToDisk, GetObjectLocations
-- and the handlers for lineage, live nodes and generating nodes, with proofs in Flush, Report and
-- Lost. Startup is NewGCSObjServer and the creation of the table, with proofs in
-- Startup/Durable. AppendFile is WriteObjectLocationsToAOF; Reader reads its lines, and the proofs
-- are in Lines and Log. AppendFile/Flushing is flushToDisk with its constant `flush_to_AOF` true.
-- Trace runs all handlers and the flush in any order, with proofs in Waiters, Invariant, Forgotten
-- and Jammed; Trace/Registering interleaves the tests and the writes of calls of RegisterLineage
-- with the other calls, with proofs in its children Kept, Quiet and Whole. Sqlite is a concrete
-- database that meets `IsSql`.
-- GlobalScheduler is go/cmd/globalscheduler/main.go: Heartbeat, SendLiveNodes and its loop, and in
-- Best getBestWorker, in Schedule the handler of that name. Proofs are in Live, Best/Scan,
-- Best/Minimal, Best/Bytes and Schedule/Dispatch.
-- Worker is go/cmd/worker/main.go: Run as a step relation over any number of calls, KillServer,
-- ReviveServer and WorkerStatus. Execute is executeFunction and the script
-- go/cmd/worker/execute.py. Proofs are in Slots, Progress, Drained,
-- Execute/Base64, Execute/Foreign and Execute/RoundTrip.
-- LocalScheduler is go/cmd/localscheduler/main.go: TruncateHighBit, Schedule, KillServer,
-- ReviveServer, and in Heartbeats one round of SendHeartbeats. Proofs are in Routing and
-- Heartbeats/Backoff.
-- LocalObjStore is go/cmd/localobjstore/main.go: Store and Copy; SharedMemory is its use of the
-- system's calls, over an interface `System` and `IsSystem`, what they document; Get is that
-- handler before and after its wait, and AvgBandwidth; Channels is the wait, the map of channels
-- with any number of calls of Get and LocationFound. Proofs are in SharedMemory/Contents,
-- Get/Holds, Get/Ops, Get/Fetching and, for the channels, Owners, Stranded and Served. PlainMemory
-- is a concrete system that meets `IsSystem`.
-- Recovering runs the local scheduler and the object table together, Recovering/Silence also the
-- global scheduler, Publishing the object store and the object table, and Publishing/Delivery two
-- object stores and the table between them. Tasks is one call of the worker's Run over the function
-- table, the script and the object store; Tasks/Published adds the object table, and Tasks/Steps
-- relates the call to the steps in Worker.
-- Common holds the shared names: tests, lists, results with an error, Go's maps (Dict), the
-- operations on float32 that the code uses (Float), strings as lists of bytes with the decimals of
-- strconv (Text), int (Integers), and net.SplitHostPort and net.JoinHostPort (Net). The messages of
-- a status are native strings. A Tests module of each part has runs on small inputs and the
-- theorems at concrete inputs.
--
-- How the code is modelled:
-- A Go map is a list of entries; a range loop visits them in the list's order, and the theorems
-- hold for every list, so for every order. A uint64 or uint32 is a natural number, with the
-- wrap-around written out where the code does arithmetic on it. A handler is a function from the
-- state to the new state and its reply; what it starts with `go`, the callbacks and the calls of
-- other services, is in its result. Randomness, the clock, the answers of other services, of SQLite
-- and of the system are arguments, and a hypothesis about one states its documented behaviour.
-- float32 is a type with the operations that the code uses and two laws of IEEE comparison. The
-- functions recur on lists; the retries of SendHeartbeats recur on fuel, of which one more than the
-- errors is enough. A run of the object table takes each handler as a whole, those that take no
-- lock (RegisterLiveNodes, RegisterGenerating, GetObjectLocations) among them, and RegisterLineage,
-- which gives up its lock between its test and its write; ObjTable/Trace/Registering takes these
-- apart. The calls of the worker's Run, and those of Get and LocationFound, are interleaved one
-- shared access at a time. The decimals of FormatUint are made on fuel, for which the number itself
-- is enough, and the lines of the append-only file are read on fuel, for which its length is
-- enough.
--
-- Not modelled: logging, the options of gRPC and the errors of its Serve, the memory statistics
-- loop, pickling and the Python function itself, the chain conductor (it does not compile),
-- the generated stubs and the Python client.
pub mod Common
pub mod Wire
pub mod Config
pub mod FuncTable
pub mod Mains
pub mod ObjTable
pub mod GlobalScheduler
pub mod Worker
pub mod LocalScheduler
pub mod LocalObjStore
pub mod Recovering
pub mod Tasks
pub mod Publishing
