-- ===== src/Lib.antt =====
-- Striem: a self-hosted log search with a challenge of questions, modelled from its Go sources.
--
-- A deployment manifest names datasets and the questions of a challenge. The loader checks it and
-- configures the database; the API server lets each client run a few queries at a time, answers
-- questions about the challenge state and takes submitted answers; KQL queries are compiled to SQL
-- that calls functions registered with SQLite. The modules follow these parts.
--
-- Common: Boolean tests, lists and int64 over the native numbers, texts as lists of code points
--   (of bytes in Kql), results with errors.
-- Challenge: internal/database/questions.go. A `Store` is the table investigation_progress together
--   with the challenge that the process holds. `configure` is ConfigureChallenge,
--   `challenge_state` ChallengeState, `submit_answer` SubmitAnswer, `cooldown_after`
--   cooldownAfter. `upsert`, `select`, `update` and `delete` are the SQL statements on the table.
--   Which statements fail is an argument (`Faults`), and so are SHA-256, case mapping and the text
--   of times (`Host`); `IsClock` says that RFC 3339 with nanoseconds is read back. A transaction
--   works on a copy of the table that replaces it on commit. Times are nanoseconds since Go's zero
--   time, and durations are int64 with the wrap of 64 bits written out.
-- Limiter: internal/api/client_limit.go as a transition system. The clientSlots live in a heap of
--   addresses, the map of the limiter holds addresses, and each query that is between its
--   acquire and the end of its release is listed with its phase. The critical sections, a send and
--   a receive are one step each; any order of steps is a run. `Log` is the log limiter.
-- Store: internal/database/database.go. A `World` is the database (`Db`), the fields of Store behind
--   eventStorageMu (`Memory`) and the number of statements so far. An operation is an `Action`: a
--   chain of statements, each of which the `Engine` may refuse, as it decides by their number; a
--   transaction that fails restores the database. A process that dies is an engine that refuses all
--   later statements. `Rules`, `Deferred` and `Succeeding` are rules by which an action leads from a
--   state to one on success and one on failure (`Triple`). FullText is the full-text index
--   (SyncFullTextIndex and around it), Indexes the other indexes (CreateEventIndexes,
--   DropEventIndexes), Datasets the rows.
-- Ingest: the statements of `Import` in internal/ingest/ingest.go. What it reads is an `Input`: the
--   records in the order in which the workers' results are accepted, and whether an error ends
--   them. The discovered fields and the preparation of statements are not told apart. `Order` is
--   the buffer by which acceptResult finds that order; its loop has the number of entries as fuel.
-- Deployment: internal/deployment/loader.go. `Validate` is validateChallenge, which decides what
--   ConfigureChallenge is ever called with; `Prepare` the loop of Load over the configured datasets,
--   with the file system as an argument (`Files`); `Load` the rest of Load, which calls the store,
--   the import and ConfigureChallenge. `time.ParseDuration` and `strings.ToLower` are arguments.
-- Kql: the SQL functions of internal/database. Ipv4 is kql_ipv4.go with the parsers and
--   kqlIPv4IsPrivate of sqlite_functions.go; `Netip` models what they use of net/netip and
--   math/bits. An address is its 32 bits as a number. Array is kql_array_move.go,
--   kql_array_search.go and kql_array_operations.go but for kqlArraySum; the decoder and the
--   compaction of encoding/json are arguments (`Json`), and so is what packJSONValue gives. Scalar is
--   normalizeNumber, decodeJSONScalar and sqliteScalarEqual of sqlite_functions.go. Sets is
--   kql_sets.go: a `DynamicSet` is a list of entries for the map, and a loop over a map takes the
--   entries in their order; `Tokens` stands for the JSON decoder. Punycode is kql_punycode.go;
--   UTF-8 is an argument of it.
--   Range is the integer branch of kqlScalarRange in kql_scalar_range.go, whose loop has at most
--   2^20 rounds in the source too. Join is kql_string_join.go, with the driver's nil slices and the
--   test of UTF-8 as arguments.
--
-- Bounds and fuel. The loop of cooldownAfter counts its rounds, which are the attempts beyond the
-- tenth. The theorems on waiting times take cooldowns and a span of time of at most 2^62 ns, 146
-- years, so that no difference of times leaves int64; the loader admits cooldowns of an hour.
-- `cidr_blocks` has the number of addresses that are left as fuel, of which each round takes one at
-- least. The loops over arrays count their rounds, which are the elements. `decimal`, strconv.Itoa,
-- has its number as fuel, which each step divides by ten. `read_set_key` has three rounds for each
-- token and two; `decode_loop` has the length of its input, of which each round takes a byte at least;
-- `encode_loop` has one more than the number of runes, of which each round handles one at least;
-- `put_digits` has one more than the number that each of its rounds lowers; their theorems say that this is enough. `adapt_loop` has the
-- number that each of its rounds divides.
--
-- Not modelled: reading files and YAML, the decoders, workers and field discovery of the ingestion,
-- the schema of the database and its migration, the HTTP handlers, the KQL compiler (a library
-- outside the repository) with the rewriting around it, the other SQL functions (floats, hashes,
-- regular expressions, XML), and the web front end.
mod Common
pub mod Challenge
pub mod Limiter
pub mod Store
pub mod Ingest
pub mod Deployment
pub mod Kql
