-- ===== src/Lib.antt =====
-- The verification library of devsignal, a service that gathers job postings, moves them through a
-- pipeline of stages, merges duplicates, judges how real a posting is, and serves a feed to users that
-- sign in. Paths are from the root of the repository.
--
-- The parts and how they interact. A runner polls the job boards that are due: each poll turns the
-- postings that it sees into rows of the table `opportunity`, and counts a miss for those that it does
-- not see; the counts of a day decide whether the source has degraded. Workers claim rows of the table
-- in one state, run the handler of a stage on each and move the row to the next state; a sweeper gives
-- stranded rows back. The first stage derives title, location and signature by internal/normalize; the
-- second compares a posting with those of its block by the cascade of internal/dedupe. The feed lists
-- what is ready and open, page by page, with the assessment of internal/ghostrisk. The API
-- authenticates by the sessions of internal/auth, whose changes go to a hash-chained audit log.
--
-- Which file models what:
--   Pipeline/State            internal/pipeline/state.go: State, Next, Terminal, Degradable
--   Pipeline/Row, Table       internal/store/pipeline.sql.go: each statement on a row, and on the table
--   Pipeline/Queue            internal/pipeline/queue.go: Claim, Advance, Fail, Release, Sweep, backoff
--   Pipeline/Ops              these operations as the steps of any number of workers and sweepers
--   Pipeline/Worker           internal/pipeline/worker.go: handleOne, process and Run
--   Dedupe/Tokens, SimHash    internal/dedupe/simhash.go: tokenize, Shingles, BlockKey, SimHash, Hamming
--   Dedupe/Decide             internal/dedupe/decide.go: Decide, titlesAgree, normalizeURL, AutoApply
--   Stages/Sweep              internal/stages/dedupe.go: sweepOne, merge
--   Stages/Normalizer         internal/stages/normalize.go and its statements of internal/store/stages.sql.go
--   Stages/Deduper            internal/stages/dedupe.go: Handle, with the statement of its candidates
--   Ingest/Rows, Store        internal/store/ingest.sql.go: the statements of a poll
--   Ingest/Upsert, Run        internal/ingest/ingest.go: upsert, resolveCompany, RunSource
--   Ingest/Runner             internal/ingest/runner.go, cursor.go: tick, runOne, RunOnce, execute
--   Ingest/Health             internal/ingest/health.go, internal/store/health.sql.go
--   SourceHealth              internal/sourcehealth: Compare, ShouldQuarantine
--   Ingest/Ghost, Requeue     a poll together with the ghost risk, and with a worker of the queue
--   Normalize/Title,          internal/normalize: ParseTitle, ParseLocation, sortedStrings
--   Location, Location/Countries
--   Feed/Mapping, List        internal/opportunity/service.go, dto.go: List and what it shows, with
--                             ListOpportunities of internal/store/feed.sql.go
--   GhostRisk                 internal/ghostrisk: Assess, DaysOpen and the texts of the reasons
--   Auth/Audit                internal/auth/audit.go: Append, chainHash, VerifyChain
--   Auth/Passwords            internal/auth/password.go: HashPassword, VerifyPassword, NeedsRehash
--   Auth/Store, Rows          internal/store/auth.sql.go: the tables and their statements
--   Auth/Service, Login,      internal/auth/service.go: issue, Register, Login, Refresh, revokeFamily,
--   Refresh, Access           Authenticate, Logout
-- The modules below a component hold its theorems; its Examples apply them to concrete data. Prelude
-- holds what all share: tests, lists, texts as code points or bytes, signed integers, rounding.
--
-- State and concurrency. A table is a list of rows, and a statement changes the rows that its WHERE
-- clause selects. Where an operation runs two statements or transactions, what others commit between
-- them is an argument (`others`). `up` says whether the database runs a transaction, `locked` which
-- rows another transaction holds. Interleavings of workers are sequences of steps.
--
-- Bounds and fuel. Numbers are natural; versions, attempts and counts stay below 2 ^ 31 in the
-- database, so their sums do not wrap. The FNV hash keeps its 2 ^ 64. The only fuel is that of the
-- roundings, of decimal digits and of bits: ten doublings reach every int64 from 2 ^ 53, five every
-- confidence, a number has fewer digits than itself plus one, a signature has 64 bits; and a client of
-- the feed makes at most one request more than there are postings. A confidence is a float32 in units of 2 ^ -28. Go leaves the conversion of a float64 beyond int64 to
-- the platform; `backoff` takes the result as an argument.
--
-- Taken as parameters: the count of days that floating-point division makes of a duration, Unicode's
-- case tables beyond ASCII, SHA-256, argon2, base64, the printing and scanning of the argon
-- parameters, the JSON text of an event and of a cursor, the database's folding of an email's and a
-- domain's case, drawn secrets, the database's LIKE, the text of a cursor of the feed, the adapters of
-- the boards, the operations of float64 in the rates of a source with the laws on rounding, and the
-- wording of reasons and errors. New ids of a poll are the numbers from a counter on.
--
-- Not modelled: HTTP, configuration, logging, telemetry, object storage and the command line, which are
-- I/O; generated scanning code; enrichment with its stage, a single posting of the feed, and the
-- profile.
pub mod Prelude
pub mod Pipeline
pub mod Dedupe
pub mod GhostRisk
pub mod Auth
pub mod Stages
pub mod SourceHealth
pub mod Ingest
pub mod Normalize
pub mod Feed
