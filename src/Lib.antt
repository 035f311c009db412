-- ===== src/Lib.antt =====
-- The Score: a daemon that keeps a graph of the sessions, processes and workspaces of coding agents,
-- and answers a JSON-RPC API about it.
--
-- How the parts interact. Clients report sessions, workspaces and edges, and ask for listings. The
-- handler of a request (internal/api) reads the parameters, calls the store (internal/store) and
-- returns a result or an error. Before it lists the sessions it reconciles the store with the
-- process table: internal/runtime says which processes are agents, a session is stored for each of
-- them, and the inferred sessions and process edges that were not seen again are removed. Every
-- change of the store is recorded in its event log and offered to its subscribers. The command `score`
-- reaches the daemon through the client (internal/client), one connection and call at a time, and its
-- commands start and stop the daemon, print what it answers, and report sessions to it.
--
-- Which file models what:
--   Base, Strings: lists, 64-bit integers, Go maps as association lists with string keys,
--     sort.Slice as a stable insertion sort, and what the code uses of the packages strings, strconv
--     and path/filepath.
--   Model: internal/model/model.go, one record per struct; Model/Status, Model/Confidence and
--     Model/Attention are its constants.
--   Store: internal/store/store.go. Store is the struct, with the channels of the subscribers, the
--     readings of the clock that are to come and whether a goroutine panicked. Store/Log has
--     appendEvent, ListEvents, Subscribe and cancel; Store/Sessions, Store/Workspaces, Store/Edges,
--     Store/Sources and Store/Lineages the methods on the resources, each named as in the source in
--     snake case, taking the store and returning it beside the result. Store/Invariant is what holds
--     of every store. Store/Graph is what a store promises, a specification: four finite maps and the
--     changes of them, without order, log and clock.
--   Runtime: internal/runtime. Runtime/Infer is agent_process.go, Runtime/Ps the parser in
--     process_unix.go; the record Os holds what they ask of the operating system. Runtime/Cwd and
--     Runtime/Tasklist are process_cwd_unix.go and the parser of process_windows.go.
--   Api: internal/api/handler.go. Api/Reconcile is reconcileProcessSessions, one function per loop and
--     per round of a loop; Api/Handle is Handle, one clause per case of its switch; Api/Serve is
--     ServeConn and handleSubscribe, over the list of what arrives on a connection.
--   Daemon: internal/daemon/server.go and cmd/scored/main.go, the sources of a fresh server, the accept
--     loop and the exit status. Daemon/Stopping has the goroutines that end the daemon, beside the loop.
--   Ipc: internal/ipc, the default address, and how it is listened on and dialled.
--   Client: internal/client/client.go. Client/Calls relates a call to Handle, and Client/Subscribe is
--     SubscribeEvents with the connection of handleSubscribe.
--   Cli: cmd/score. A command is a program over the daemon's store that ends with its output or exits
--     with a status and a message (die, dieDaemon, usage, call and callErr are in Cli). Cli/Main is the
--     choice of the command, Cli/Flags what the commands use of package flag, Cli/Display, Cli/Read,
--     Cli/Inspect, Cli/Observe and Cli/Run the commands of main.go, Cli/Lifecycle and
--     Cli/Lifecycle/Control those of lifecycle.go. Cli/Run/Child is the environment that a command of
--     `score run` gets, Cli/Run/Nested such commands inside one another, and Cli/Run/Signals the
--     goroutine that waits for a signal beside the command. Cli/Keeps has what a chain of calls keeps.
--   Tests: the theorems at concrete inputs.
--
-- Bounds. A 64-bit counter wraps around as in Go (`int64_succ`); the theorems that need it say that
-- no number has wrapped. The log keeps `max_events` events, 5000 in a fresh store, and a channel
-- buffers 128. A time is a natural number of nanoseconds, 0 where `IsZero` holds. Two definitions run on
-- fuel: the printing of a number, whose fuel is the number itself (what is printed is
-- read back in Strings/Numbers/Laws), and the loop of waitForDaemon, whose
-- fuel `rounds` is the timeout divided by the 100 ms that every round sleeps, and two more; a theorem
-- says that it is enough where the clock advances by the sleep.
--
-- Parameters: what encoding/json makes of a text (the record Json) and of a value on its way through the
-- client (the record Wire), what `ListProcesses` returns (the type Listing), what the runtime, the
-- address and the commands ask of the operating system and of packages strconv and time (the records Os,
-- Probe, Ipc.Host, Ipc.Network, Read.Host, Programs and Machine), and the results of the system calls of
-- start and stop (the records Starting and Stopping). What is relied on of a network is
-- Ipc.Meets.IsNetwork.
--
-- Interleavings: each method of the store runs as one step. The goroutines around one subscription,
-- which run outside the lock, are the step relation of Store/Log/Feed; those that end the daemon are
-- that of Daemon/Stopping, and the goroutine of `score run` beside its command that of
-- Cli/Run/Signals.
--
-- What the other connections do between two requests is a function on the store, given with them.
--
-- Not modelled: the inside of sockets and pipes, the alignment of columns by text/tabwriter, the
-- layout of printed JSON, the floating-point count of days in humanDuration (an argument), and the
-- one-line calls of the operating system in detach_unix.go and detach_windows.go.
pub mod Base
pub mod Model
pub mod Strings
pub mod Store
pub mod Runtime
pub mod Api
pub mod Ipc
pub mod Daemon
pub mod Client
pub mod Cli
pub mod Tests
