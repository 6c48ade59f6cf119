-- ===== src/Lib.antt =====
-- Verification of the MsgRiver workspace: a local service that accepts messages into a durable
-- queue, delivers them through connectors to external providers, and records what is known of each
-- delivery.
--
-- The parts of the program, and which file models which:
--
--   crates/msgriver-store/src/lib.rs is the durable queue, on SQLite. Store/Schema.antt has the
--   tables of its migrations 3 to 5 (migration_v3_m2_delivery.sql, migration_v4_driver_queue.sql,
--   migration_v5_whatsapp_inbound.sql) as lists of rows, with their CHECK, PRIMARY KEY and UNIQUE
--   constraints, and transactions as a state monad: a statement that breaks a constraint fails,
--   and an error or a failed commit rolls back. What the engine manages to do in one operation is
--   a parameter, so that every theorem covers its failures. Store/Validation.antt has the
--   `valid_*` functions, Store/Queue.antt the operations `m2_*`, `m3_submit` and `m6_*`, and
--   Store/Inbound.antt `m4_set_inbound_enabled` and `m4_submit_inbound`, all under the names of
--   the source. Store/Trace.antt strings calls together: `Call` is any call that changes the
--   store, `history` a sequence of them. Store/Trace/Replaced.antt and Store/Trace/Handing.antt
--   read single calls off the table, in terms of what is stored under each id;
--   Store/Inbound/Calm.antt and Store/Trace/Steady.antt are about the operations that do not
--   concern the rate events. Store/Evolution.antt says how a row may change and
--   Store/Calculus.antt and Store/Queue/Effects.antt that each operation keeps to it;
--   Store/Inversion.antt reads off what a transaction that succeeded did.
--
--   crates/msgriver-core/src is the pure core, which the service asks for decisions.
--   Core/Error.antt models lib.rs, Core/Math.antt math.rs, Core/Fence.antt fence.rs,
--   Core/SafeTime.antt safetime.rs and clock_checkpoint.rs, Core/State.antt state.rs,
--   Core/Retry.antt retry.rs, Core/Generation.antt generation.rs, Core/Incarnation.antt
--   incarnation.rs, Core/Ring.antt ring.rs, and Core/Mac.antt the MAC provider boundary of
--   canon.rs, whose provider is a parameter. Fallible functions return the model's own `Result`,
--   with the source's rejection classes.
--
--   crates/msgriver/src/initialization_key_pair holds the formats of the control journal, in which
--   the service keeps its clock and key decisions. Journal/Record.antt models
--   control_journal_record.rs (frames, each bound to the one before it), Journal/Command.antt
--   fixed_root_command_record.rs (frames of commands), Journal/ClockBody.antt
--   clock_checkpoint_body.rs, Journal/Authority.antt clock_authority_projection.rs,
--   Journal/KeyEvent.antt recovery_key_event.rs, Journal/Profile.antt
--   recovery_key_generate_profile.rs, Journal/Header.antt control_journal_header.rs,
--   Journal/RingManifest.antt recovery_ring_manifest.rs and Journal/Pointer.antt
--   active_state_pointer.rs. Journal/Wire.antt, Journal/Words.antt and Journal/Labels.antt have
--   what these share: results, the reading of a wire by offsets, words, and the labels in front of
--   what is authenticated. A wire is a list of bytes; an array keeps its width in a predicate
--   (`Fits`).
--
--   crates/msgriver/src/state_mac_key_*.rs holds what the service decides about the keys of its
--   state MACs. StateKeys/File.antt models initialization_key_pair/state_mac_key_file.rs,
--   StateKeys/Path.antt state_mac_key_path.rs, StateKeys/Rows.antt state_mac_key_manifest_row.rs
--   and state_mac_key_meta_row.rs, StateKeys/HighWater.antt state_mac_key_high_water.rs,
--   StateKeys/Manifest.antt state_mac_key_manifest.rs and StateKeys/Snapshot.antt
--   state_mac_key_snapshot.rs, which composes the last four over what the store has read.
--
--   The modules below these hold the proofs, and the modules called Tests the theorems at concrete
--   values. Common.antt and the modules below it are the shared helpers: Booleans, lists, machine
--   integers, big-endian words and the library names that every file uses.
--
-- Correspondence. Texts and byte arrays are lists of numbers, a text its UTF-8 bytes. An `i64` is
-- an integer; where the source computes with `checked_*` the model tests the range, and where it
-- uses plain unsigned arithmetic or a cast the remainder is written out. Tables list their rows
-- latest first; nothing depends on that order but what the source's ORDER BY fixes. SHA-256 and
-- HMAC-SHA-256 are crates of their own and parameters: a theorem that needs their outputs to have
-- 32 bytes says so, and none assumes that they have no collisions: where one would be needed, the
-- conclusion has it as an alternative. A MAC provider answers with tags of 32 bytes. The loops of
-- the source are bounded by their own counters, which the model recurses on, so there is no fuel.
--
-- Of the transition table that the architecture specifies, crates/msgriver-core/src/state.rs has a
-- part; every other pair of a state and an event ends in its scaffold error, and so in the model.
--
-- Not modelled: opening the database and its migrations' bookkeeping, label texts, the bounded
-- grammar, the canonical encoding and the raw-key HMAC of the core, the connectors, the protocol
-- crate, the client, and the service binary with the reader and the directory checks of its key
-- files. Of the control journal, the image that is put together from these formats, the commands
-- and the publication on the file system are not modelled.
pub mod Common
pub mod Core
pub mod Journal
pub mod StateKeys
pub mod Store
