-- ===== src/Lib.antt =====
-- lazypock is a backend on Postgres: collections with a records API, access rules,
-- authentication, realtime subscriptions and files. This library models parts of its core logic.
--
-- Base: shared names; text as code points (Base/Text), dictionaries with distinct keys
-- (Base/Dict), Rust's Result and postconditions on it (Base/Outcome).
--
-- Filter: crates/db/src/query/filter.rs. Filter/Lexer has the lexer, one function for each arm of
-- `tokenize`, over the text that is left; Filter/Parser has the recursive descent parser with its
-- depth counter. Both run on fuel: one round more than there are characters for the lexer, three
-- calls for each token and three more for the parser. Filter/Grammar is the grammar as trees, and
-- Filter/Lexer/Spelling the spelling of tokens. A number is kept as its numeral, whose rounding
-- to a double is not modelled, and an error is its message without the byte position.
--
-- RateLimit: crates/api/src/rate_limit.rs. The per-address limiter and the account lockout, over
-- an explicit instant; a call is taken to happen at one instant. The middleware that calls them
-- is not modelled.
--
-- Realtime: crates/realtime/src/hub.rs, with the event of event.rs and the request context of
-- crates/db/src/rls/context.rs. Realtime/Hub has the registry, `dispatch` as its three parts (who
-- is concerned, the sends, what is remembered) and `replay`, whose queries are numbered, since
-- the database goes on between them. The channels of tokio and the visibility query are
-- parameters; a channel is held by its subscription's id; and a dispatch is one step, although
-- the source lets go of the lock while it sends. The registry topic's notice, the bus loop and a
-- failed query of the log are not modelled.
--
-- Sessions: crates/auth/src/sessions.rs on the table `_sessions` of
-- migrations/0001_system_tables.sql. Each SQL statement is a function on the rows, and `rotate`
-- runs its statements at one instant; Sessions/Races has the statements of several requests
-- interleaved. Sessions/Rotation describes a rotation by what it does to the rows. The digest and
-- the random draws are parameters, and a connection that fails is not modelled.
--
-- Paging: crates/db/src/query/pagination.rs. Page requests, the cursor's text and
-- `Page::from_params`. An i64 is one of the integers; the sixteen digits that the writing of a
-- cursor has as fuel are those of sixty-four bits. The SQL text of the cursor's predicate and
-- `from_time`, which reads the clock's type, are not modelled.
--
-- Sort: crates/db/src/query/sort.rs. The reader of the `sort` parameter; an error stands without
-- the text that it quotes. The compilation of a sort into SQL is not modelled.
--
-- Net: crates/core/src/net.rs and crates/api/src/client.rs. Net/Address has addresses as numbers
-- of 32 and 128 bits and the test for public ones, Net/Proxies the trusted blocks and the address
-- of a request, Net/Hosts the allowlist and Net/Patterns the readers of both lists. The standard
-- library's reading of an address and of a small number from text is a parameter, an error stands
-- without the text that it quotes, and the header of a request is the one that was found.
--
-- Schema: crates/db/src/types.rs, ddl.rs and the types of collections.rs. Schema/Json has the
-- JSON of options, Schema/Types identifiers, kinds and quoting, Schema/Options the options of a
-- field with its column's type and default, Schema/Collections the validation of a collection,
-- Schema/Ddl the statements. The value of a double and its printing are a parameter (`Numbers`),
-- as are the digest of index names and the lookup of a relation's table. The statements are not
-- run. Schema/Quoting reads quoted text as SQL does.
--
-- Query: crates/db/src/query/compile.rs and projection.rs. Query/Context has what a filter may
-- name, Query/Operators the SQL of one comparison, Query/Compile that of a filter along its
-- relations; a hash map is an association list. `FilterContext::build` counts the depth that is
-- left, which is its termination. The list of parameters is handed on from call to call. The
-- printing of a number is a parameter. Query/Compile/Paths, Query/Context/Fields,
-- Query/Context/Reach and Query/Context/Depth follow a path through the contexts, Query/Like
-- reads a pattern as SQL does. Query/Projection has the `fields` projection and the `expand`
-- selection of projection.rs, whose maps are sorted association lists.
--
-- Crons: crates/api/src/crons.rs on the table `_crons`. Crons has the table, the claim of the
-- jobs that are due and what is validated; Crons/Due says which jobs a claim hands out;
-- Crons/Handlers has the requests of an operator and the tick of the scheduler, with the audit
-- trail. A transaction is one step, and the rows that other transactions hold locked are a
-- parameter, as are the reading of expressions and time zones, their next occurrence, the
-- statements and requests that a job makes, and the clock. Jobs of the same time keep the order
-- of the table.
--
-- Records: crates/db/src/validation.rs, with is_valid_id of crates/core/src/id.rs. Records has
-- the checks of a record against its collection, Records/Values those of one value,
-- Records/Encoding the text that a value is bound as, and Records/Encoding/Arrays a reader of
-- array literals as Postgres has it. The failures are a list with the first one of each name,
-- with its code and without its message; the values compared are numbers of JSON, and the reading
-- of a text as a double is a parameter. The statements that store a record are not modelled.
pub mod Base
pub mod Filter
pub mod RateLimit
pub mod Realtime
pub mod Sessions
pub mod Paging
pub mod Sort
pub mod Net
pub mod Schema
pub mod Query
pub mod Crons
pub mod Records
