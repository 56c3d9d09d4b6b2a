-- ===== src/Lib.antt =====
-- Session Kit: what the inventory decides about terminals, account moves and closes.
--
-- Session Kit runs every login in a named shpool session and lists the sessions with the AI
-- conversation that runs in each. Its Python library (lib/sessionkit_inventory) collects one
-- inventory and decides from it. This library models what it decides: the pure core of the modules
-- below, with the files that they read and write as explicit state. The parts, and their files:
--
-- Json: the values that json.loads returns, with dict access by key (get, put, pop). Python's
-- numbers are integers and floats of whole millionths.
--
-- Common: valid_uuid, clean_text and shpool_id_mutation_policy of
-- lib/sessionkit_inventory/common.py. What Python's tables of Unicode decide (which characters are
-- control or space characters, casefold, title, repr) is a parameter, the record Unicode; ascii is
-- an instance of it.
--
-- Terminal: apply_terminal_numbers of lib/sessionkit_inventory/terminal.py, with _terminal_ai_key
-- beside it, _terminal_generation_key of state_io.py and the quarantine rule of validation.py.
-- Keys computes a row's two keys, Number is the run, row by row: the local variables of the loop
-- are the record Pass, a raised error is an err. The SHA-256 digest of a generation is a
-- parameter. Validator is _validate_terminal_registry; what the validator of a run returns, or
-- that it raises, is an argument of the run. Sets of numbers are lists. The search for a free
-- number runs on as much fuel as there are reserved numbers: each step passes one of them, and
-- none twice. Rows is the run as an indexed relation, by which Steps, Distinct, Entitled, Bounds,
-- Prefixes, Continuity, Retire and Errors reason.
--
-- Hops: the ledger of automatic account moves of lib/sessionkit_inventory/account_guard.py. Ledger
-- is the document and load_hop_ledger, Operations the calls, Pending the list of undelivered
-- notices. Each call holds a lock while it reads, changes and replaces the document, so a call is
-- one step on what is stored, and an interleaving of processes is a list of Calls. The token of
-- uuid4 and the moment of a call are arguments. A document is one of the right shape, missing, or
-- of a shape that is refused.
--
-- Reaper: the plan of automatic closes of lib/sessionkit_inventory/reaper.py. Candidates holds the
-- two predicates on a row, Plan is plan_auto_close and what it stores between two passes. The
-- SHA-256 of a proof's JSON is a parameter, and so is what a pass reads (a Pass): the daemon's
-- list, the inventory, the process facts, the clock. A pass that raises stores nothing.
--
-- Lifecycle: lib/sessionkit_inventory/lifecycle.py. Intents models the tombstones of conversations
-- that were closed on purpose, Exits the record of a provider's exit. Each call holds the
-- document's lock, so a sequence of calls is a list; what is stored is the JSON value, which is
-- validated when it is read. The session's key, an HMAC, the fresh token of a write and the length
-- of a document of tombstones as it is written are arguments.
--
-- Validation: guard_live_inventory and strict_live_inventory of
-- lib/sessionkit_inventory/validation.py. Guard is the first, with the four sets of its loop as
-- the record Seen, and Strict the second. Adds is about any loop that refuses what it has seen.
--
-- Moves: the decision of lib/sessionkit_inventory/account_guard.py, on the hop count that Hops
-- gives. Usage reads the feed (usage_state, target_still_eligible, spent_aliases), Blocks is
-- session_block_reason, Plan is plan; Sorted, Safe and Justified reason about it. What
-- account_choices and binding_for return is an argument, and so are the settings. A fraction of a
-- usage window is a whole number of millionths, compared and rounded exactly; the sentences of a
-- verdict are constructors, and an alias is a text.
--
-- Selection: parse_number_selection of lib/sessionkit_inventory/common.py. Grammar is the
-- function, with its sets of numbers as ascending lists; Set, Chosen and Accepts say what such a
-- list is, which numbers are chosen and which answers are accepted.
--
-- Labels: state_word and session_state of lib/sessionkit_inventory/labels.py.
--
-- Closed: the ledger of closed sessions, lib/sessionkit_inventory/closed_sessions.py. Ledger has
-- the rows, record_close and forget, Listing the list of load_closed. A row is a line of the file:
-- blank, a JSON value, no JSON, or a last line without its end; with its length, which is a
-- parameter for a new row. A call holds the lock, so the checks that the file did not change
-- meanwhile are left out. The table of the list is a list of rows, found by provider and identity,
-- with the columns that it shows. Known is entry_from_inventory with _record_closed_session of
-- lib/session_inventory.py, which fills in what its caller did not know. Command is what a shell
-- that ends records, the action closed of _lifecycle_command, with _validated_last_exact of
-- lifecycle.py; Entered and Handed reason about the two. Whether a conversation can be read back
-- is a function, and whether a file can be written is a field of the request. The release of a
-- worktree and what is printed of it are left out.
--
-- Origins: lib/sessionkit_inventory/origins.py. Stamps has the stamps, _validated_pair and
-- read_origins, with the TypeError that a schema version without a hash raises, and the limit on
-- the length of the file; Store the calls record_origin and prune_origins. Each call holds the
-- store's lock, so a sequence of calls is a list. The clock, the fresh token of a write, the
-- length of a document that is written and the numbers that int gives for the three variables of
-- the environment are arguments. A written document keeps the order of the dict, which json.dumps
-- sorts and nothing here looks at. Bounce has the markers of restarts, with a directory as the
-- list of its entries, from which a marker can always be removed, and Apply says of a row who
-- asked for its session. Sound is about what is read, Calls relates the file to a dict of stamps,
-- Kept and Asked follow a stamp and a marker. Which characters isalnum takes is a parameter. The
-- sweep of the markers of sessions that are gone renames and links files; it is left out, with
-- origin_for.
--
-- Picker: the screen of lib/sessionkit_tui. Order is canonical_session_order_key of
-- lib/sessionkit_inventory/model.py, Model the snapshot and the panel (model.py, frame.py), Marks
-- and Rows are rows.py, Actions is actions.py, State and Events are state.py, Panels and Enter its
-- panels and its Enter, App its mouse and the keys of app.py. An event takes the moment that the
-- clock shows and returns the new state; Enter and a click return the commands to run as well. A
-- step is a key, the report of a command, a refresh or a drawing. The screen takes keys from 32 to
-- 126 only, so typed text is ASCII. The accounts and models that a panel offers are functions of
-- the provider, and what stands on a line of the screen is an argument of a click. Texts are
-- printed as str does (Print, Digits), on as much fuel as the number itself, of which each step
-- takes a digit off.
--
-- How they interact: Terminal numbers the rows of an inventory, and Validation decides whether an
-- action may rely on the numbered inventory; it uses the quarantine rule of Terminal. Reaper reads
-- such an inventory and reads from it what Lifecycle has recorded of an exit. Moves decides on the
-- hop count of Hops, and its caller reserves the move there before it switches. Closed's command
-- reads the provider's exit as Lifecycle has it, writes the ledger first and then Lifecycle's
-- tombstone. The recorded origin that Origins puts on a row is the one that Closed writes into the
-- ledger, and the origin is what Picker shows or folds a row by. Picker's order uses Labels, and
-- it reads numbers with the tests of Selection. Base holds the shared helpers: Boolean tests,
-- lists over native numbers, Python's integers and dicts.
--
-- Not modelled: reading and writing files, locks and atomic replacement, /proc, sockets,
-- subprocesses and the clock, which are input and output; the collector, the providers' readers,
-- names, accounts, projects, recovery; of the text interface the drawing, the parsing of the
-- snapshot and the running of commands. The shape tests on the ledger of moves are one case of
-- what is stored (malformed). Limits on the size of a file are left out with its reading, except
-- in Closed, Origins and the tombstones of Lifecycle. A list or a dict that is looked for in a set
-- of texts or numbers raises a TypeError; outside Origins it is refused like any other unknown
-- value.
pub mod Base
pub mod Json
pub mod Common
pub mod Terminal
pub mod Hops
pub mod Reaper
pub mod Lifecycle
pub mod Validation
pub mod Moves
pub mod Selection
pub mod Labels
pub mod Picker
pub mod Closed
pub mod Origins
