-- ===== src/Lib.antt =====
-- Colca: an MQTT broker for plants organised as a tree. Every level runs the same Go program, colcad. A
-- node stores each record it accepts, keeps the current value of each path, replicates to its parent,
-- and carries commands down and their acks up. This library models the parts that decide: what a topic
-- and its parts are, which class a contract has and where it travels, who may do what, whether a command
-- runs, what an append, an ack, a push of a child and a prune leave in the store, how often a refusal is
-- written, how many requests are served, and when the parent is asked.
--
-- The parts and their files. Text is a list of bytes, as Go's strings are.
--   Prelude     tests, lists, byte strings with strings.Split and strings.Join, Go maps as association
--               lists or functions, sorting, (value, error) results, and integers for durations.
--   Uns         plugins/uns. Topic: Parse. Mount: MountInsert, MountStrip and UnderMount, a hop up and
--               a hop down the tree. Classes: ClassOf, StreamFor and the uplink streams. Grant:
--               ParseGrant and FormatGrant. Entry: the identities of the registry, Entry.Validate and
--               what a kind may use. Authz: Authorize, AuthorizeCmdAt and AuthorizeBrowse. `Authorize`
--               parses the topic, collects the zones of the entry's grants with ParseGrant, and
--               compares paths; a subscription is decided on the fixed path of its filter. Records: what the
--               store asks of a record it files (uns.go, redelivery.go, replication_policy.go).
--   Engine      internal/engine. Ledger: commandLedger (ledger.go), which knows a command that is sent
--               again and whom an ack belongs to. Commands: admitCommand, refuseForeignUse and
--               AckRecipient, by which the doors act on the ledger's verdicts, and Engine.ClassOf
--               (contracts.go). Audit: auditRepeats (audit_repeats.go), which counts the repeats of a
--               denial.
--   Repl        internal/repl. LinkState (linkstate.go): the backoff of a node that its parent does not
--               know, and the failures of the lanes.
--   Store       internal/store. Keys (keys.go, and the keys of the other files): the keys under which
--               everything is stored, and their order. Data: records and current state as they are stored, one table for each family of
--               keys, the writes of a batch, and the counters held in memory. Encode (store.go, targetindex.go):
--               addRecord, the writes of one record. Streams (store.go, replication_policy.go):
--               appendAdvancingLocked, and AppendAdvancing and AppendIfKVUnchanged on top of it. Cursors
--               (store.go, cursorgroup.go): the positions of consumers, and commitAcks, which takes a
--               group of acks to disk in one batch. Pages (store.go, readpage.go): readRange and a
--               consumer that reads page after page. Replicated (replgroup.go, store.go): what a child
--               pushes, commitReplicated for a group of pushes, and AdoptChildStore. Journal (store.go): what was
--               pruned, and the gap it leaves a consumer.
--               Policy (store.go): policyScan, what the retention lets go of. Prune (store.go): Prune and
--               PruneScanned.
--   Broker      internal/mqttsrv. Offline (offline.go): what is queued for clients that are away.
--   Node        internal/clock and internal/httplimit. Clock: the skew to the parent. Limiter: Acquire
--               and its release, with the sweep and the eviction of callers.
--   Examples    the definitions run on concrete data, and the theorems at concrete inputs.
--
-- Names are the source's in this language's spelling: `mount_insert` is MountInsert, `expire` the method
-- of commandLedger. A struct is a record, an enumeration a data type, an error a constructor of the
-- component's own type, without the text of its message. A method that changes its receiver takes the
-- state and returns the new one beside its result. A lock makes a method one step, so that a history of
-- steps is any interleaving of the callers; histories are lists of operations or step relations. The
-- clock's reading is an argument of each operation. Times are natural numbers of nanoseconds, within the
-- range of int64, where Go's arithmetic does not saturate.
--
-- Bounds. Recursion is on the structure of lists, but for three functions on fuel. One writes a number's
-- decimal digits, with the number itself as fuel. `merge_down` merges the spans of a journal, with their
-- number as fuel, as each round takes one away. `read_through` reads as many pages as it is given; a
-- page brings a consumer on unless none is left, so one more than there are records is enough. The
-- constants are the source's: 65535 bytes of a topic, 16384 commands for ten minutes, 2048 denials for
-- five minutes, 64 spans of a journal, and so on.
--
-- Parameters. What mochi, the MQTT server, answers is a function. The topic root, set once for the
-- process, is an argument. What a node knows about its elements is the function it injects as `Scope`.
-- The jitter of the backoff is any number within its bound. float64, in the token buckets, is a record
-- of operations without laws, as no theorem depends on it. The JSON of correlation ids, of outcomes, and
-- of an ack without its result, is given as functions on bytes. Of Pebble the store relies on this: a
-- batch is applied as a whole or not at all, which the argument `disk` says, writes into a batch in
-- memory do not fail, and values are read as they were written. Each family of keys has a table of its
-- own. The length of a record as JSON and the fields read of a payload are functions (`Setting`,
-- `Payloads`). Which records the filter on heads can judge, and when a read is cancelled, are functions
-- of the query. What the retention plans at a prune is any function of the span. In the store, times are
-- natural numbers of milliseconds, and offsets and byte counts natural numbers below 2^64, which a
-- stream does not come to.
--
-- Not modelled. In the store: the caches, of policies and of incarnations beyond the one adopted, that
-- hold what would be read again, the waking of readers, the group of plain appends, the scan of current
-- state, reads by signal and by target, retention by signal, eviction, compaction and moves, which
-- delete records within a stream, and the store's own incarnation. What stands on the store: replication
-- over the wire, the retention's loop, the historian. The engine's accept path and the executors of
-- commands. The other hooks of the broker, HTTP, tokens, files and metrics: input and output around the
-- decisions. JSON payloads and their validation.
pub mod Prelude
pub mod Uns
pub mod Examples
pub mod Engine
pub mod Node
pub mod Repl
pub mod Store
pub mod Broker
