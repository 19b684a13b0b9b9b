-- ===== src/Lib.antt =====
-- Verification of the semantic intelligence layer: from the payloads of the network to the evidence
-- that can be searched, and the agent that investigates it.
--
-- A RADIUS or access payload becomes raw evidence (internal/adapters, internal/services/ingest), raw
-- evidence becomes a unified event (internal/services/normalize), and a unified event becomes a
-- document that is found by its terms (internal/services/index). The query services bound and check
-- a query and pass it to the store of sessions, of access events or of documents. Each store has a
-- memory and a file backend.
--
-- The agent works on these events: internal/agents/harness/investigation.go normalises a request,
-- plans phases, and for each phase asks the policy for a decision, builds queries, calls a query
-- service and appends a step to the run's record, which it saves in the run store. The watcher of
-- internal/agents/runtime/daemon.go looks for subscribers whose sessions keep ending soon and starts
-- a run for each, once for an event.
--
-- Files, and the code that they are about:
--   Agents          internal/agents/types.go and tools/tool.go: runs, steps, requests
--   Policy          internal/agents/policy/: evaluate, matches, default_rules
--   Contracts       internal/contracts/unified/{sessions,access,retrieval}/types.go, with
--                   NormalizeTerms in Retrieval/Terms; Evidence is
--                   internal/contracts/raw/evidence/record.go and the envelopes of
--                   internal/platform/messaging/messaging.go
--   Storage         what the stores share: a JSON-lines file and its scanner, the search of a list
--   RunStore        internal/storage/metadata/agents/store.go: Upsert and Get, memory and file
--   SessionStore    internal/storage/metadata/sessions/store.go: Append and Search
--   AccessStore     internal/storage/metadata/access/store.go: Append and Search
--   RetrievalStore  internal/storage/metadata/retrieval/store.go: Append and Search, by its parts:
--     Scoring, Ranking        scoreDocument, scoreResults, and the order of the hits
--     Versions                the versions of a document in the lines of the file store
--   RawStore        internal/storage/raw/store.go: Append and Replay, memory and file
--   Query           internal/services/query/: the three services in front of the stores
--   Adapters        internal/adapters/{radius,access}/: Adapt, NormalizeRecord, the configuration;
--                   Shared and Routing hold what the two have in common
--   Pipeline        internal/services/: the services that pass evidence on, by their parts:
--     Ingest                  ingest and accessingest: files to raw records and envelopes
--     Normalize               the loop that normalize and accessnormalize share
--     Sessions, Access        the two services that it makes, with buildEnvelope
--     Index                   index: lines of unified events to documents
--   Harness         internal/agents/harness/investigation.go, by its parts:
--     Goals, Plan, Requests   the known questions, buildInvestigationPlan, normalizeRequest
--     Windows, Queries        resolveInvestigationWindow and the three build...Queries
--     Evidence, Timeline, Summaries   what a step keeps of a search, and its summary
--     Steps, Phases, Finish, Run   evaluate, the run...Step functions, RunInvestigation
--     Gate                    what the decisions of a run allow, and how the steps keep to it
--     Coordinator             NewService, StartRun, ContinueRun, GetRun, and the memory store of runs
--   WatcherStore    internal/storage/metadata/agents/watcher_state.go: the states of the watcher
--   Watcher         internal/agents/runtime/daemon.go: RunCycle, by its parts:
--     Candidates, Requests    detectCandidates and its order, buildRunRequest
--     Cycle                   one round over the tenants
--     Counts, Limits          what a candidate counts; the accepted configuration and short sessions
--   Base            texts, lists, results, sorting, maps and times, as the other files use them
--
-- How the code is modelled. A text is a list of code points, and where the code counts bytes the
-- model counts those of UTF-8; the tables of Unicode letters and of lower and folded case are a
-- parameter, CharTables, of which IsLatin says what a theorem needs to know. An instant is a number
-- of nanoseconds, and the instants that the program meets are far above the durations that it takes
-- off. An error is a value of Error, and a fallible function returns a Result. A map is an
-- association list; where the code ranges over a map, or sorts by an order in which elements tie,
-- the order of Go is not determined and the model takes that of insertion. A score, which is a float
-- with at most one half in it, is the number of its halves.
--
-- A file is none, where there is none, or its lines; how JSON is written and read is a parameter,
-- Codec, Json or Decoders, with the law that what is written is read back where a theorem needs it,
-- and the failures of the disk are a parameter too. A record of raw evidence is read back with its
-- payload as json.Compact leaves it, by the parameter RecordCodec. How a time or a number is printed is a parameter,
-- Stamps. A context is the sequence of answers of ctx.Err. A run of the harness passes on a World: the
-- number of clock readings and the list of acts, which are the decisions asked for, the searches and
-- the saves; the policy, the stores and the clock are functions that the record Service holds, and may
-- answer anything. A service of the pipeline passes on its Progress: what it has written, its store,
-- the publisher's state and its counts, also when it stops at an error.
--
-- All loops are recursion on the list that they go through, so no fuel is needed; the loop over the
-- phases also counts down the budget, and the watcher's loop over the candidates the runs that a
-- tenant has left. A round of the watcher takes the store of its states, the query services and the
-- harness as parameters, with states that it passes on. Integers are unbounded but for the product
-- that the watcher takes of an int64.
--
-- Not modelled: nil contexts, the mutexes (each operation is one step), log lines, and the parts of
-- the repository that are input and output around these: the messaging client, the HTTP handlers, the
-- commands and the reading of YAML. The validation of internal/platform/config/config.go and the
-- protocol of internal/transport/assistant are not modelled either.
mod Base
pub mod Agents
pub mod Policy
pub mod Contracts
pub mod Storage
pub mod RunStore
pub mod SessionStore
pub mod AccessStore
pub mod RetrievalStore
pub mod Query
pub mod Adapters
pub mod RawStore
pub mod Pipeline
pub mod Harness
pub mod WatcherStore
pub mod Watcher
