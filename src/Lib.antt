-- ===== src/Lib.antt =====
-- agent.d: a daemon that runs actions of scripts and language-model runners under a grants file.
-- This library models the parts that decide what may run, who is asked, and what is kept.
--
-- The parts and how they interact. A runner, an interface or a service calls an action. The executor
-- (crates/executor) looks up what the action requires, asks the permission engine
-- (crates/permissions) for a decision against the grants file, and turns each decision that may be
-- answered into a question for the approval broker (crates/approvals). What is approved goes back to
-- the engine, until it allows the action or refuses it. While a run is in flight the executor keeps a
-- record of it. Services (crates/services) are tasks that a supervisor starts again. Chat sessions
-- (crates/sessions) are kept per owner, who is read off the caller. What a shell command of an action
-- may reach follows from the permissions it holds (crates/shell): the names it may look up, and the addresses
-- that it was answered. Runners (crates/runners) are composed from skills; who answers their questions is
-- settled when a run starts. Patches (crates/fs) are applied to files hunk by hunk. The UI of a chat is a tree on the
-- daemon (crates/ui) that its clients copy.
--
-- The files and the code they model:
--   Base             texts as lists of code points, association lists in key order for BTreeMap and
--                    HashMap, ascending lists for BTreeSet, and the lemmas that the parts share
--   Permissions      crates/permissions/src: Pattern (`match_spec`), Host (`canonical_host`), Slug
--                    (`Permission`, `PermissionSet`, `Denial`), Grants (the grants file, its
--                    lookups and `check_grants`), Engine (`check_approved`, layer by layer)
--   Executor         crates/executor/src: Dispatch (the question loop of `run_with_changes` and
--                    `escalate`), Runs (`Runs` of runs.rs), Redaction (`redact_value`, `redact_str`),
--                    Interpreters (`interpreter_warning`), Compaction (`compaction_cut` and what a run
--                    sends and stores around it)
--   Services         crates/services/src/lib.rs and `start_service` of crates/executor/src/lib.rs: the
--                    registry and the supervisor with its backoff
--   Approvals        crates/approvals/src/lib.rs: `Broker`, each call as a step
--   Sessions         crates/sessions/src: scopes and `MemSessionStore` of lib.rs, and
--                    Redb (`RedbSessionStore` of redb_store.rs) over tables as maps
--   Shell            crates/shell/src: Dns (the codec of dns_wire.rs), Output (the capture of a
--                    program's output), Policy (`concrete_ancestor`), PermitSet (`PermitSet` of
--                    netfilter/permitset.rs), Gateway (dns_pin.rs, and gateway.rs with the log of what
--                    happens to a set)
--   Runners          crates/runners/src/lib.rs: Approval (`resolve_approval`), Options (`validate` of
--                    `RunOptions`), Prompt (`compose`)
--   Ui               crates/ui/src: Tree (`Tree` and `apply`), Document (`Document`, its changes and
--                    captures), Keys (`normalize_key`), and how the client of
--                    crates/cli/src/tui/remote.rs plays frames
--   Fs               crates/fs/src: Patch (`apply_patch` of patch.rs)
--   Tests            runs at concrete inputs
--
-- State is passed explicitly: an operation takes the state and returns the new one. What happens in
-- any order, as the broker's calls and those on run records, is a log of events, the latest first.
-- Numbers are natural numbers; a counter that the code keeps in 64 or 32 bits is taken modulo its
-- range, and token counts saturate as the code's do.
--
-- Bounds and fuel. `match_spec` calls itself after it has turned back slashes round, and is given two
-- rounds, which are enough since the second finds none. The question loop is given four rounds: the fourth
-- asks nothing, so the code's loop has no fifth. The walk over the labels of a DNS name is given as many
-- rounds as the packet has bytes, the walk from an element to its parents as many as there are elements
-- and two more, the split of a text into lines as many as it has characters, and the destruction of an element as many as there are links to children and one more:
-- each label takes a byte, each line of a text takes a character, no element stands above itself, and each element is pushed by one link.
--
-- What is taken from outside: reading IP addresses, IDNA and the full lowercase of the standard
-- library (the fields of `Platform`), the answers to questions with the grants that hold after them,
-- new ids, the time, the tests of the platform's paths, how each call of a service's body ends, the
-- reading of bytes as UTF-8, and JSON values with their equality.
-- A JSON value is looked into only where it is a text, a list or an object.
--
-- What is not modelled: the reading and writing of the grants file, the daemon's database, the hub,
-- the layout and the drawing of the user interface, the sandboxes and their sockets, packages,
-- the Lua and MCP bindings, and the clients of model providers.
pub mod Base
pub mod Permissions
pub mod Executor
pub mod Sessions
pub mod Approvals
pub mod Services
pub mod Shell
pub mod Tests
pub mod Ui
pub mod Runners
pub mod Fs
