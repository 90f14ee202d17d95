-- ===== src/Lib.antt =====
-- omnia-backends: backends that give WebAssembly guests their messaging, storage, version control and
-- models. This library models the parts in which the repository decides something itself, leaves the
-- client libraries it calls as parameters, and proves what makes those parts correct.
--
-- Kafka (crates/kafka/src). The consumer pulls records, hands each to a guest, and stores an offset for
-- commit once nothing at or below it can be lost. `Shared` (consume.rs) calls the tracker under a lock:
--   Kafka/Tracker.antt: `Tracker` of tracker.rs, method by method. `Event` is a call and `step` what it
--     leaves; `output` in Kafka/Tracker/Commit.antt is what `Shared` then hands to `store_offset`.
--   Kafka/Tracker/Prefix, Watermark, Invariant, Sorted: the loops and the well-formedness.
--   Kafka/Tracker/Access, Slots, Shrinks, Revoked: how one record fares under each call.
--   Kafka/Tracker/History, Kept, Told, Tracks, AtLeastOnce, Latest: the tracker against the history of its
--     calls.
--   Kafka/Registry.antt: registry.rs, the wire format and the checks by a schema. The registry's client,
--     JSON and JSON Schema are the record `Libraries`. A call fetches its schema anew: the cache in
--     front of the fetches is not modelled. Texts for the log are left out.
--   Kafka/Lanes.antt: consume/lanes.rs, and in `Step` the tasks of consume.rs that take lanes and slots:
--     a slot taken before a pull, a record pulled, woken behind another, done. Links is about one chain of lanes, Fifo about whole runs.
--
-- Git (crates/git/src):
--   Git/Glob.antt: `matches`, `tokens` and `glob` of vcs/policy.rs. Reference states the meaning of a
--     pattern, Table, Folding, Bound and Paths lead the code to it.
--   Git/Diff.antt: `TreeDiff`, `parse_tree_diff`, `shared` and `rule_for` of vcs/policy.rs.
--   Git/Pins.antt: command/pins.rs, the `-c` overrides built from a repository's configuration. Which
--     bytes are UTF-8 and how others read is the record `Utf8`. A run of git is the listing it gave.
--   Git/Transport.antt: the rest of command/pins.rs, the arguments of a transport and the quoting of the
--     git binary, which is an argument here.
--   Git/Refusal.antt: vcs/refusal.rs, the class of what a failed git said.
--
-- Sandbox (crates/sandbox/src/proxy.rs):
--   Sandbox/Address.antt: `DeniedAddress`, over the addresses of the standard library. Ranges relates the
--     classes to address blocks.
--   Sandbox/Proxy.antt: the allowlist and the handler of a request. Resolving a name, the host's own
--     addresses, the parser of IP literals and whether an address answers are the record `World`.
--
-- Filesystem (crates/filesystem/src):
--   Filesystem/KeyValue.antt: the bucket of keyvalue.rs on a disk of two trees of files. A list of faults
--     gives the outcome of each call of the file system, so every place a call may fail is covered, and a
--     path that is a directory or lies below a file fails besides. Refusals is about keys that are no path,
--     Paths and Swap about a disk where no call fails by itself.
--     Walking the tree for `keys` is not modelled; `add_i64` of the omnia backend is an argument.
--
-- GenAI (crates/genai/src): one completion, as rounds with a provider's model.
--   GenAi/Chat.antt: what the loop exchanges. The provider, the tools, the guest's check and the reply's
--     bound are the record `World`, whose answers may depend on all that happened before: `Act` is a call
--     with its outcome, and a conversation's state keeps the log of them.
--   GenAi/Conversation.antt: conversation.rs, the fields and texts of `Conversation`. Round is one round (`next_reply`,
--     `exec_chat`, `tool_round`, `failed`, the refusals), Run the loop over replies, nudges and checks.
--   GenAi/Conversation/Budget, Dialogue: what a conversation spends and what it sends and runs.
--   GenAi/Truncate.antt: `truncate`, on the bytes of UTF-8.
--   GenAi/Tools.antt: `Tools::call` of tools.rs, which a conversation sees as a part of `World`, and the
--     text of a command's result in shell.rs.
--
-- Cursor (crates/cursor/src/protocol.rs): the client of the `sdk.v1` bridge.
--   Cursor/Frames.antt: the Connect envelope, `FrameStream::next` and the errors of a call.
--   Cursor/Wire.antt: the requests and their JSON; Readers has the responses, as serde reads them.
--   Cursor/Rpc.antt: `Rpc` with its calls and `ensure_loopback`; Messages is `RunStream::next`. The HTTP
--     layer, the JSON codec and the parsers of URLs and IP addresses are the record `Outside`, which answers
--     a request by what the request says alone.
--   Delivery and Stream relate a run's messages to the frames sent, however HTTP cuts the bytes.
--
-- Azure table (crates/azure-table/src/store):
--   Azure/Filter.antt: `to_odata` of filter.rs and what it uses. Literals reads a quoted text as OData does.
--   Azure/Document.antt: document.rs and query.rs. JSON and doubles are the record `Codec`, and a double is
--     its text, so that a finite one is read as itself is a hypothesis.
--
-- Base: `Machine` is the monad of state and failure of the conversation, with rules for what holds after
-- a run; `Json` is a JSON value. Further lists, options, results, Boolean tests and `BTreeMap` as a sorted association list, over the
-- native numbers. `same` compares keys, and an instance of `Ord` orders them.
--
-- Integers: counters of the tracker are natural numbers, since 2^64 calls are out of reach; a schema id
-- is its 32-bit pattern, and a bound stands where a theorem needs it. Bytes are natural numbers, and
-- theorems that need them below 256 say so; the rounds of a conversation are naturals, and a count of
-- tokens read from JSON is held to 64 bits. Fuel: `advance_loop` runs on the number of early reports,
-- of which every round takes one; a conversation on one more than its budget of rounds, of which every
-- reply takes one; a run's stream on one more than its bytes, of which every frame takes five; a number's
-- digits on the number. All other loops are structural.
--
-- Not modelled: sockets, processes, files and the async runtime; the delivery loop's backlog and
-- handler, and the partitioner; the blob store of the file system; requests of the GenAI crate and its telemetry; Cursor's
-- callbacks and agents; the requests of the Azure table; the crates for Azure blobs, identity and vault, MongoDB, NATS, OpenTelemetry, Postgres and Redis; the sandbox's sessions and child processes.
pub mod Base
pub mod Kafka
pub mod Git
pub mod Sandbox
pub mod Filesystem
pub mod GenAi
pub mod Cursor
pub mod Azure
