-- ===== src/Lib.antt =====
-- Verification of nats-desktop: the core of the desktop client's backend, desktop/internal.
--
-- The program and its parts. A session (desktop/internal/messaging) is one subscription shown in
-- the window. A receipt passes its header filters, is numbered and goes to the display side (a
-- bounded ring, a rate meter and the counters, under the session's mutex) and, while the session
-- runs, to the pusher, which batches messages for the frontend; a throttle limits the state events.
-- The batches reach the window through a hub that drops a client which falls behind. The connection
-- manager (desktop/internal/connections) owns the one live connection and its five-state machine,
-- driven by Connect, Disconnect and the callbacks of the client library. The JetStream surface
-- (desktop/internal/jsadmin) validates forms and translates them to the configurations of the
-- client library and back, and shows the messages of a stream in pages. The buckets
-- (desktop/internal/buckets) read and write keys, forward the updates of a key-value or object
-- bucket through a bounded queue, and transfer objects one at a time, with progress events. The
-- monitor (desktop/internal/monitor) keeps a table of the servers that have answered.
--
-- Where what is modelled.
-- Base: Boolean tests, lists, signed integers (Int), remainders (Modulo), UTF-8 (Utf8), texts as
--   the Go library reads them (Text) and 64-bit durations (Duration).
-- Messaging: desktop/internal/messaging. Ring is `ring`, Pusher is `pusher`, RateMeter is
--   `rateMeter` and Filter is `HeadersMatchFilters`, all of pipeline.go, with the validation of
--   sessions.go; Wire is types.go and `buildMsgOut`. Session is `session` and `stateThrottle` of
--   sessions.go and `handleJS` of jsposition.go: State the record and its snapshot, Throttle the
--   state events and timers, Receive the path of a message, Control the operations of the user.
--   Manager is `SessionManager` of sessions.go; its `subscribe` is a parameter, what the client
--   library makes of a new session, and Manager.Worker is the resubscription after a reconnect. Hub
--   is `MsgHub` of wshub.go. Session.Subscribe is `subscribe` and `resubscribe` with the client
--   library's answer, and what other goroutines do during the call, as arguments; Positions is
--   `consumerConfigFor` of jsposition.go.
-- Connections: desktop/internal/connections. Manager is `Manager` of manager.go and Backoff is
--   `reconnectBackoff`.
-- JsAdmin: desktop/internal/jsadmin, forms.go and types.go. Errors is `ClassifyError`, Streams and
--   Consumers are the forms, Cluster is `clusterHealth`; Browser is `BrowseStream` of browser.go,
--   Backup is backup.go, and Consumers.Edits and Consumers.Preview are `UpdateConsumer`,
--   `CopyConsumer` and `PreviewNext` of consumers.go.
-- Buckets: desktop/internal/buckets. Watch is one watcher of watch.go and Registry is
--   `watchRegistry`; Transfer is transfer.go and Names its check of object names; Errors is
--   `ClassifyKvError` of forms.go and `classifyObjError` of objects.go; Forms is the validation of
--   forms.go. Kv is the operations on the keys of a bucket in kv.go: its record `KvClient` is what
--   they call of the client library, and Kv.Documented the laws that the library and the server are
--   documented to keep. Edits is the forms of existing buckets and what an update submits.
-- Monitor: desktop/internal/monitor. Servers is the table of known servers of `collectSnapshot`,
--   and Events is `EventSubjects` and `ValidateConnQuery` of forms.go.
-- Versions: `CompareVersions` of desktop/internal/version/version.go, `ServerAtLeast` of
--   desktop/internal/natsver/natsver.go and `pauseGate` of desktop/internal/jsadmin/consumers.go.
-- Tests: the theorems on concrete inputs.
--
-- How state and concurrency are modelled. A function that changes an object maps its record to the
-- new record and the list of events emitted; a call of several critical sections is their
-- composition. Where goroutines interleave, each critical section is a step, and the theorems hold
-- for every sequence of steps (Messaging.Pusher.Concurrent, Messaging.Session.Steps, Messaging.Hub,
-- Connections.Manager.Schedules and Guards, Buckets.Watch, Buckets.Registry). In JsAdmin.Backup the
-- callbacks of the library read the flag and emit in any order, before and after the end of the call.
-- Time is an argument, in nanoseconds, and a timer that fires is a step of its own. Errors are values.
--
-- Bounds. Every function is structural. Only the caller that follows the pages of a stream
-- (JsAdmin.Browser.Paging) has fuel, one more than the stream has messages: a page that has more
-- after it shows at least one of them. Counters of messages and generations are int64 and uint64
-- that grow by one; they are left unbounded. The counters of watchers, of their dropped events, of
-- transfers and of transferred bytes, and the sequence of the next page, wrap around at 64 bits, as
-- do the durations made from a form and the shift of the backoff. Native integers of forms are
-- unbounded, since they are only compared and copied.
--
-- What is not modelled: sockets, the client library and its subscriptions, the registry of
-- contexts, the timers of the runtime, JSON, base64 and logging; the list of sessions; the lists of
-- buckets, objects and streams; the file system of a transfer and of a backup; what the monitor
-- makes of the answers of a cycle; the command-line client. The tables of letters and digits are a
-- parameter of the form validation, and the texts that errors print with quotes are kept as the
-- error's argument.
pub mod Base
pub mod Messaging
pub mod Connections
pub mod JsAdmin
pub mod Buckets
pub mod Monitor
pub mod Versions
pub mod Tests
