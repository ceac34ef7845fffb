-- ===== src/Lib.antt =====
-- accur8/godev: a verification library of the repository's core logic.
--
-- wal-listener follows PostgreSQL's logical replication. The loop of `Stream` takes one replication
-- message at a time: `ParseWalMessage` decodes its bytes into the transaction at hand, a commit turns
-- the transaction's actions into events that are published one by one, and the position of the
-- message is acknowledged to the server. A second goroutine reports the position periodically.
--
-- Files (paths of the program are from the repository's root):
--   Prelude            names that the modules share: tests, lists, integers, byte strings, maps
--   Wal/Outcome        results, errors (wal-listener/listener/errors.go) and run-time panics
--   Wal/Buffer         bytes.Buffer as the parser uses it, and functions that read from it
--   Wal/Word           integers in a byte order, two's complement, int64 multiplication
--   Wal/Protocol       the message types of wal-listener/listener/protocol.go
--   Wal/Reader         readInt32, readString, readColumns, … of wal-listener/listener/parser.go
--   Wal/Messages       getBeginMsg, getUpdateMsg, … of the same file
--   Wal/Parser         ParseWalMessage of the same file, a function on transactions
--   Wal/Strconv        ParseBool, Atoi and ParseInt of Go's library
--   Wal/Transaction    wal-listener/listener/wal_transaction.go: actions, columns, AssertValue
--   Wal/Event          CreateEventsWithFilter, and wal-listener/publisher/event.go
--   Wal/Listener       processMessage, AckWalMessage, … of wal-listener/listener/listener.go
--   Wal/Service        Stream, Process, slotIsExists, … and the steps of the two goroutines
--   Wal/Reads          what a reading function takes from the buffer, and how that composes
--   Wal/Encode         the messages as a PostgreSQL server writes them
--   Wal/Decode         the parser against that encoder
--   Wal/Rows, Columns  the relation store, field maps and columns of actions
--   Wal/Safety         positions, delivery, acknowledgement, failures, retries
--   Wal/Fixtures, Tests   concrete data, and the results at it
--
--
-- hermes is a message broker over NATS. A mailbox has an address, a reader key and an administration
-- key; two key-value buckets hold the mailboxes, a map in memory caches those that were read, and each
-- channel of a mailbox is a stream. Two passes run over all mailboxes: one purges those that expired,
-- one writes those that changed.
--
--   Hermes/Name        hermes/model/model-opaques.go: names are pointers, compared as such
--   Hermes/Message     the messages of hermes/hproto, as far as the broker reads or builds them
--   Hermes/Mailbox     hermes/mailbox.go: HasSent, IsValidChannel, IsPurgable, RunRpcInboxReader, …
--   Hermes/Store       the state of hermes/mailbox-store.go, AddChannel, UpdateMailbox
--   Hermes/Lookup      _CreateMailboxImpl, FetchMailboxByAdminKey, MailboxLookup, …
--   Hermes/Passes      Purge, ForEachMailbox, and the passes of hermes/server.go
--   Hermes/Publish     DirectPublishSendMessageRequestX, PublishMessage, JetStreamPublish
--   Hermes/Rpc         RawRpcCall of hermes/api/hermes-api.go
--   Hermes/RpcServer   hermes/rpcserver/hermes_rpcserver.go: registration, calls, ping; a served
--                      function gives a result or an error, and does not panic
--   Hermes/Session     hermes/activews.go: subscriptions; Reader: StartProtocol, runClientReader, …
--   Hermes/Session/Stopping, Running   the end of subscriptions; Brokered: sessions over the store
--   Hermes/Creation    what creation leaves in the buckets
--   Hermes/Removal     Purge after creation
--   Hermes/Fresh, Channels     names that were just allocated; the channels of a request
--   Hermes/Misses, Named       lookups; fetching a named mailbox twice
--   Hermes/Growth, Timeouts    the counter of names; RPC calls and the reader of the inbox
--   Hermes/Unsent, Purging     publication when nothing is found; the two passes
--   Hermes/Uncached    the operations of the store in any order
--   Hermes/Fixtures, Tests   concrete stores and messages, and the results at them
--
-- iter has iterators, which other parts use over slices.
--
--   Iter/Iterator      iter/iter.go: an iterator as a machine with a state
--   Iter/Yields        what an iterator yields; Map, Filter and ToArray against those of lists
--   Iter/Effects       ForEachE, over a state that its function changes, and FromFn
--   Iter/Concat, Tests   Concat; concrete slices
--
-- a8nats has work queues over NATS, and a8 generic functions on slices.
--
--   WorkQueue          RunWorkQueue, RunProtoWorkQueue, … of a8nats/a8nats.go
--   WorkQueue/Settles, Tests   what becomes of the messages; concrete queues
--   Slices             RemoveDupes, ConcatMultipleSlices and RunPar of a8/a8.go
--   Slices/Dupes, Bounds, Parallel, Tests   each of them, and concrete slices
--
-- launchy is an agent on each machine. In a pass it lists the units of systemctl and the records that
-- the server nefario has for the machine, and sends the server what is to change; a map in memory
-- keeps the services by name.
--
--   Nefario/Crud       SystemdServiceCrud and ListSystemdServices of nefario/nefario.go, and the queries
--   Nefario/Consumers  the cycle of Run in the same file, with its consumers
--   Nefario/Messages   runNefarioConsumer of the same file, over the work queue
--   Nefario/Stops, Changes, Own, Cancels, Cycle, Tests   what a cycle stops, starts and keeps
--   Launchy/Slurp      RunServiceSlurpLoopOnce of launchy/agent.go up to its request to the server
--   Launchy/Fleet      the pass together with the server, over a broker that may lose a call
--   Launchy/Last, Views, Names, Keys, Distinct, Listing   names in the lists and in the table
--   Launchy/Turns, Insertion, Handles  a turn of the loop and what its actions do to the table
--   Launchy/Sending, Caching, Converge the loop over all names
--   Launchy/Passing, Stale, Orphan     passes; a failing systemctl; a lost request
--   Launchy/Fixtures, Tests            a machine and a table, and the results at them
--
-- The agent also reads the lines of journalctl. It tells the server of each process of a service that
-- starts and ends, and sends what the process writes in records.
--
--   Journal/Batches    SubmitChanPublisher of launchy/journalctl-utils.go: a process's buffers
--   Journal/Delivery, Flow     what is counted and sent
--   Journal/Lines      MessageKind and MessageLine of the same file, and the state of the reader
--   Journal/Reading    SubmitJournalCtlStdoutReader, StartProcessRunSlurp, Shutdown, and processRecord
--                      of launchy/agent.go
--   Journal/Processes, Histories, Events   the processes that the server is told of
--   Journal/Kinds, Crashes, Tests   the lines that panic; concrete lines and buffers
--
-- devops deploys applications: a directory of configurations has servers, users and applications, and a
-- deployment copies an application's files and runs commands on its server.
--
--   Devops/Tree        loadRoot, loadServer, loadUser, loadApp and FindApp of devops/deploy.go
--   Devops/Deploy      ParseDeployInfo and DeployApp of the same file
--   Devops/Command     Deploy
--   Devops/Installs, Commits, Tests   what a run does; a concrete disk
--
-- Modelling. Strings are lists of bytes, Go's integers are ℤ or, where unsigned, ℕ; wrap-around is
-- written out where the code multiplies. A function that can panic has the panic as an outcome. The
-- parser's loops are structural (on a declared size), so no fuel is needed. A time is the number of
-- nanoseconds since 2000-01-01. The listener's collaborators (publisher, repository, replicator,
-- uuid.New) answer by functions of the actions so far; what the listener does to them is a trace, the
-- latest action first. The two goroutines interleave between whole rounds of the loop; a heartbeat reads
-- the position in one step and reports it in a later one.
--
-- In hermes a name is an address and a text; the store counts the addresses given out, and `same`
-- compares addresses. The mutex of the store makes each of its operations one step. uuid, encoding/json,
-- protobuf and the NATS server are the parameters `Services`; the goroutine that publishes a send
-- receipt is given as the receipt. The clock is read once for each operation. The cache is a list,
-- whose order the passes follow.
--
-- An iterator's loops take fuel, as an iterator may never end; over a slice of length n, filtered,
-- 2 n + 3 is enough. In Concat the iterators that follow have states of the first one's type.
--
-- In launchy and nefario the server's table is the list of its rows; its primary key is the uid. The
-- model's query keeps the order of the rows, which PostgreSQL does not promise: it matters only where
-- a name stands twice for a minion. A call that is carried has its answer carried, too. PostgreSQL's
-- refusals, protojson, reflect.DeepEqual, the order of a map's keys and the text of systemctl's output
-- are parameters (`Database`, `Host`).
--
-- The reader of the journal is one sequence of events with the ends of publishers and the records that
-- come; a process is known by the number of the call that named it. The loop of a publisher is a list of
-- rounds, each with the clock and the choice of its select. A channel takes all that is sent to it.
--
-- What a deployment does is a trace, the latest action first, and the machine (`Machine`) answers by it.
-- A server.hocon or user.hocon that is not parsed is not modelled: the parser is a package that is not
-- here, and loadServer and loadUser call it without the recover that loadApplicationDotHocon has.
--
-- A session of hermes uses the mailboxes through the record `Broker`, which the store fills. A work
-- queue is given the turns of its loop as a list; a message is settled before the next is read. The
-- queues of a session are those that it started; where they end by themselves is not followed.
--
-- Not modelled: logging, metrics, configuration files, JSON encoding and the connections themselves;
-- time.Parse, uuid.Parse, json.Unmarshal and the "%v" format are parameters; EqualFold and ToLower are
-- those of ASCII. The other programs of the repository are listed with the components of the manifest.
mod Prelude
pub mod Wal
pub mod Hermes
pub mod Iter
pub mod Slices
pub mod Nefario
pub mod Launchy
pub mod WorkQueue
pub mod Journal
pub mod Devops
