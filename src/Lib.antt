-- ===== src/Lib.antt =====
-- Models of yellowstone-common, a Go library of utilities for services.
--
-- Base62 models encoding/base62. Base62.antt has base62.go's encodings and encoders (NewEncoding is
-- new_encoding, get6bits and next keep their names, encodeV2 is encode_v2), Base62/Decoder.antt the
-- decoder with its buffer (decode is decode_loop, Decode is decode, DecodeToBuf is decode_to_buf),
-- Base62/Integer.antt integer.go, and Base62/Default.antt default.go. A byte is a number below 256, a
-- byte slice a list of bytes; shifts, masks and wrap-around are written out. An index out of range is
-- none or panic. The encoders' loops take a round for each bit of the source, and AppendUint's 64
-- rounds; both are enough since a round consumes five bits, or a factor of 62. Base62/Digits.antt
-- describes the digits that are written by an independent function on the reversed source.
--
-- Cache models cache/cache.go in Cache.antt: each method keeps its name, and takes the times of its
-- clock reads. sync.Map is an association list. One tick of the cleaning goroutine is sweep, taken as
-- one step; GetOrLoad is get_or_load, of a caller that starts its own flight. Cache/History.antt compares
-- any sequence of these steps with a cache that is never cleaned. Cache/Flights.antt has any number of
-- callers of GetOrLoad at once, as a step relation: where each caller stands, and for each text of a key
-- the leader of its flight. Cache/Cleaning.antt has the goroutine of New that cleans, interleaved with the
-- calls of others, as another. Where v.(V) panics, on a nil value of an interface type, get_or_load gives
-- none for the result, and new does where time.NewTicker panics. A load that panics is not modelled.
--
-- Honey models the package honey. Its store (github.com/evrblk/monstera/store) is not in this
-- repository: Honey/Store.antt makes its transaction a parameter, with what is relied on, that it reads
-- its writes, as the record ReadsWrites; Honey/Memory.antt is one such store, for the concrete runs.
-- Honey/Replicas.antt models honey/replica_prefix.go: GetOrAssignPrefix takes the state that is
-- committed to the next, and its mutex makes a call one step. Honey/Table.antt and the files in
-- Honey/Table model honey/tables.go: the base table in Table.antt, its pages in Table/Pages.antt, and
-- each kind of table or index in a file of its own; utils.ConcatBytes and the messages' methods are
-- parameters. Table/Laws.antt relies on what an iteration over a prefix visits (Iterates), and
-- Table/Walk.antt, on the pages behind a token, on what EachRange visits from one key on (Ranges).
-- Table/Traverse.antt follows the tokens from page to page, with a page of fuel for each row and one.
-- Table/Indexes.antt relies on what a write does to the rows (Writes), Table/Indexes/Deletes.antt on what
-- a delete does (Deletes), and Replicas/Listing.antt on a read that finds the rows (Reads).
-- Replicas/Assignments.antt has any calls of GetOrAssignPrefix, one after the other, and Replicas/Total.antt
-- relies on operations that do not fail (Works).
-- Honey/Portable.antt models honey/portable.go. The store's commits, the stream format
-- (github.com/evrblk/fenestra) and the tables of a core are parameters; a reader is the finite sequence
-- of what its Next gives. Portable/Replay.antt says what is relied on: the rows that a transaction
-- stands for, with commits of at most 512 entities that succeed (Contents), and inserts that see only
-- the rows (Inserts and Follows), and Portable/Split.antt that a table keeps an entity by its shard key (Keeps).
--
-- Metrics.antt models FromGrpcError of metrics/helpers.go, from the code and the message that
-- status.FromError gives. Middleware/Monitoring.antt models Unary of middleware/monitoring.go, which
-- uses it: what it counts, times and logs is a list of events. Middleware/Authentication.antt models
-- Unary of middleware/authentication.go up to the call of the handler, over the files of the keys, the
-- signatures of github.com/evrblk/evrblk-go/authn, the metadata and strconv.Atoi as parameters;
-- Authentication/Requests.antt has one request after another, each with the files as they are then.
--
-- Validatortest.antt models AssertAllFieldsChecked of validatortest/fields.go, over what reflect, runtime
-- and go/parser say of a function and its file. Common/Sorting.antt has sort.Strings.
--
-- Genmarshal.antt models codegen/genmarshal/main.go up to the list of the types that it generates code
-- for, over what filepath.Walk visits and what go/parser says of a file. Genmarshal/Code.antt has main
-- and the code that it writes: the calls of github.com/dave/jennifer are data, File.Save a parameter.
--
-- Workers.antt models workers/interval.go as a step relation, without the length of the interval.
--
-- Utils/TimeZones.antt and the files below it have the list of names in utils/tzinfo.go, in parts.
--
-- Not modelled: utils/sort.go, where each function is a copy and one call of sort.Slice; what
-- honey/portable.go does to free resources; the constructors that only call Prometheus; the HTTP server in
-- metrics/server.go; the texts of errors, and the log.
pub mod Base62
pub mod Cache
pub mod Common
pub mod Genmarshal
pub mod Honey
pub mod Metrics
pub mod Middleware
pub mod Utils
pub mod Validatortest
pub mod Workers
