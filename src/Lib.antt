-- ===== src/Lib.antt =====
-- The daemon of Memix, daemon/src: it watches a workspace, keeps what it learns of a project, and
-- compiles a context within a budget of tokens for an assistant. This library models parts of it that
-- hold state or decide, and shows how they behave.
--
-- The parts and their files. A module has the data and the operations of one source file, and its
-- child modules have the theorems on them; each child named Tests has concrete runs.
--   Error      daemon/src/error.rs: the errors, and which of them are worth a retry.
--   Retry      daemon/src/retry.rs: with_retry, with_retry_counted, with_retry_if and the backoff,
--              over the errors. An attempt is a function of its number, and the result of a run has
--              the delays that it slept, so that the order of attempts and delays is explicit.
--   Graph      daemon/src/observer/graph.rs: the dependencies between files, kept from both sides.
--   Calls      daemon/src/observer/call_graph.rs: the calls between functions, and who calls what.
--   Risk       daemon/src/risk/mod.rs: the score of a change to a file, from its dependents, its
--              breakages, its changes and its issues.
--   Compiler   daemon/src/context/compiler.rs: the five phases that fill a context within a budget.
--              Draft is what the phases collect; compile gives nothing where the source panics.
--   Context    daemon/src/context/mod.rs: compile and its passes. Context.Reach searches the graph for
--              the relevant files, Context.Skeleton, Context.History and Context.Rules make the
--              sections, Context.Ranking sorts them (with GENERATED_DIRS of constants.rs), and
--              Context.Fitting chooses among them. An error is none.
--   Layers     daemon/src/context/hierarchy.rs: layers of context by priority, and their resolution.
--   Brain      daemon/src/brain: schema.rs and manager.rs in Brain, validator.rs in Brain.Validator,
--              orchestrator.rs in Brain.Selection, hierarchy.rs in Brain.Value and
--              Brain.Inheritance.
--   Differ     daemon/src/observer/differ.rs: the entities that an edit of a file adds, removes, changes.
--   Agents     daemon/src/agents/mod.rs: the agents that run at a saved file and at the start of a
--              session. Agents.Reports and Agents.Save have their reports; Agents.Session the calls; Agents.Parse reads the file of
--              agents for reload.
--   Indexers   daemon/src/indexer_manager.rs: the background indexers by project, and their tasks.
--   Recorder   daemon/src/recorder/flight.rs: the bounded timeline of a session and its counters.
--   Registry   daemon/src/workspace_registry.rs: the open workspaces, the one in focus, the tasks.
--   Tokens     daemon/src/token/tracker.rs: the counters of a session and the totals over sessions;
--              manager.rs, the trackers of the workspaces, in Tokens.Manager.
--              Tokens.Atomic has record_ai_call as single atomic operations that interleave: a Step is
--              one operation of one call, and Steps are any interleaving.
--   Filters    daemon/src/token/filters/filter.rs: the filters for source code, and the excerpt of a
--              text. Filters.Pipeline has the filters for the output of commands, toml_filter.rs.
--   Base, Dict the shared helpers: numbers, texts, lists, stable sorting, maps and sets.
--
-- A method that changes its object is a function from the old record to the new one, and a sequence of
-- calls is a list of them that `run` or `replay` goes through; a lock makes each call one step, so an
-- interleaving of tasks is such a list; the lock-free counters of Tokens.Atomic are the exception. A function keeps its source name where that is free; an enum
-- is a data type with the source's variants.
--
-- Numbers are natural numbers. The wrap-around of the `u64` counters of Recorder and Tokens, the
-- saturation of the access count and the overflow checks of the backoff are written out; the other sums are of
-- sizes of texts and lists in memory, which are far below the largest `usize`. A text is measured in
-- bytes of UTF-8.
--
-- Hash maps are lists of entries in the order of their first insertion. The source leaves their order
-- open, and where a result has that order it stands for one choice.
--
-- Bounds: a retry loop runs on 33 rounds of fuel. The backoff of the 33rd attempt overflows its shift
-- and ends the run, so no run needs more. The search of Context.Reach has a round for each name that the
-- edges mention, one for the active file and one to stop; a name comes into its queue once. All other
-- loops are structural.
--
-- What is not in daemon/src is a parameter: the file system and the hash in Compiler, what
-- the record Host of Context has, the clock and
-- new identifiers, the regular expressions in Brain.Validator, the tokenizer in Brain.Selection, the regular
-- expressions in Filters, the records Host and Texts and the instants of the clock in Agents, the entities
-- in Differ, the
-- parser and the printer of JSON in Brain.Value and Brain.Inheritance, floating-point rates in
-- Recorder, the file of totals in Tokens, and the operation that is retried. Only what is written as a hypothesis is assumed of one.
--
-- Not modelled: the HTTP server, storage, synchronisation, parsing of source code, embeddings,
-- indexing and watching, which are mostly calls of third-party crates; the extension, which is
-- TypeScript; the history of tokens, learning and discovery; logging.
pub mod Base
pub mod Dict
pub mod Error
pub mod Retry
pub mod Graph
pub mod Risk
pub mod Compiler
pub mod Context
pub mod Recorder
pub mod Registry
pub mod Calls
pub mod Layers
pub mod Brain
pub mod Tokens
pub mod Filters
pub mod Agents
pub mod Differ
pub mod Indexers
