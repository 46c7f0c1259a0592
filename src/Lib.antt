-- ===== src/Lib.antt =====
-- Chrono desk keeps the participants and the finishes of a race on the organiser's computer. Tablets
-- that issue race packets send it operations, the site sends it a feed of changes and a bootstrap, and
-- cameras at the finish send it photos. This library models the code that decides what these messages
-- do and what they leave in the database, translated from the Go sources.
--
-- Files, with the paths of the sources from the repository's root:
--   - Prelude, Prelude/Tests, Prelude/Lists, Prelude/Classes: shared names; Boolean tests on the native
--     numbers; lists; the interface of Boolean equality.
--   - Text/Chars, Text/Decimal, Text/Date, Text/Timestamp: the patterns and texts of
--     internal/packetissuance/validation.go (`identifierPattern`, `uuidPattern`, `validText`,
--     `validDate`), and what strconv and time do for them and for `validAssignedBib`.
--   - Packet/Model and its children: internal/packetissuance/model.go, the error codes and equality.
--   - Packet/Validate, Packet/Rows, Packet/Numbers, Packet/Persons, Packet/Moves, Packet/Apply,
--     Packet/Reverse: internal/packetissuance/transitions.go. `apply` is `Apply`, with a function
--     `apply_…` for each case of its switch; `reverse_move` is `ReverseMove`.
--   - Packet/Fields, Packet/Json, Packet/Canonical, Packet/Operation, Packet/ParseCommand,
--     Packet/ParseOperation, Packet/FeedChange, Packet/ParseFeed, Packet/Bootstrap:
--     internal/packetissuance/validation.go. `fields_agree` are the field checks in `parseOperation`,
--     `parse_operation_json` is `parseOperationJSON`, `parse_feed_page` is `ParseFeedPage` and
--     `parse_bootstrap` is `ParseBootstrap`.
--   - Packet/Reserves: internal/packetissuance/reserve_origins.go.
--   - Service/ThreeWay: the three-way comparisons of internal/service/packet_issuance.go and
--     `mergePacketFeedValue` of internal/service/packet_issuance_feed.go.
--   - Service/Decision: `packetMergeDecision` of internal/service/packet_issuance.go.
--   - Service/Receive and its children: `Receive`, `receiveOne` and `persist` of
--     internal/service/packet_issuance.go (Batch, General, Persist), `receiveNumber` of
--     packet_issuance_numbers.go (Numbers) and `receiveReserveReturn` of packet_issuance_return.go
--     (Returns).
--   - Service/SiteFeed and its children: `ApplyPacketFeedPage` of
--     internal/service/packet_issuance_feed.go.
--   - Service/SyncRetry: internal/service/sync_retry.go; its loop has fuel for four attempts, which is
--     enough since the fourth answer is returned as it is.
--   - Service/Clubs, Service/Categories: packet_issuance_clubs.go and age_categories.go of the same
--     directory.
--   - Service/Merge: internal/service/merge.go.
--   - Store/Db: transactions, `WithinTx` of internal/infrastructure/sqlite/store.go.
--   - Store/Tables: the rows of the tables that packet issuance uses, by the record types of
--     internal/infrastructure/sqlite/packet_issuance_store.go and internal/domain/models.go.
--   - Store/Feed, Store/Changes, Store/Publish, Store/Operations, Store/Registrations: the feed of the
--     desk, the writers to it, the stored operations and the rows of packet_issuance_store.go.
--   - Store/Members: the members, races, events and affiliations that packet issuance reads and writes.
--   - Store/Site: the rows, actions, cursor and rebases of the site in packet_issuance_store.go.
--   - Store/Retention: internal/service/packet_issuance_retention.go.
--   - Store/Journal: sequences of transactions on the feed; Service/Receive/Afterwards: of operations of
--     the tablets as well.
--   - Finish/Stream: `Signal` of internal/finishchange/signal.go and the hub of
--     internal/transport/publicweb/finish_hub.go, for one race, with the hub's count of the clients of
--     all races; an interleaving of the goroutines is a sequence of actions.
--   - Samples, and the modules whose names end in Tests: concrete rows, messages, tables and photos, runs
--     on them, and the theorems applied to them.
-- The other modules hold proofs and are named for what they prove.
--
-- How the parts meet: the parsers of Packet turn a message into an operation and compare its changes
-- with those that `apply` derives; the decision of Service puts the operation on the current rows of
-- the desk, first by the three-way comparisons, then by `apply` or `reverse_move` again. The receiver
-- reads these rows from the tables, writes the changes, stores the operation with its outcome and
-- publishes it in the feed of the desk, in one transaction per operation. The retention archives the
-- beginning of the feed. A page of the site feed is merged into the rows and relayed in the same feed.
--
-- How the code is modelled:
--   - A function that returns an error is a `Result`, with the text of the error as a `Code`; a second
--     result that is a Boolean is an `Option`. A pointer that may be nil is an `Option`.
--   - A map is a list of entries of which the newest counts. Loops over a list are recursion on it, so
--     that no fuel is needed, but in `round_trip_from` (above) and in `decimal`, which has as much fuel as
--     the number plus one: each round divides the number by ten.
--   - An int64 that comes from a message is an integer within its bounds, by `parse_int`. Times and
--     window lengths of photos are natural numbers.
--   - Strings are sequences of Unicode code points; the length of a text is counted in bytes of UTF-8.
--   - The parsers start from decoded JSON. `decodeValue` (encoding/json) is not modelled: `none` in its
--     place is an error. SHA-256 in `ContentHash` is not modelled.
--   - The database is a record of lists of rows. A statement is a function of it that fails where a
--     key, a foreign key or a check of schema.sql fails; a statement fails for no other reason. A
--     column of JSON is the decoded value, and the compressed changes of the archive are the changes.
--     A run ends with a result or a failure and the tables, and `within_tx` takes the old tables after a
--     failure. Sequence numbers and times are natural numbers, without the bound of an int64; a time
--     before 1970 is 0.
--   - The receiver takes SHA-256, `decodeValue`, the age rule of the timing-core package and the clock as
--     the record `External`. A panic of the code is a failure. A map of affiliations is applied in the
--     order of the changes.
--   - The decision takes `FindPacketOperation` as a parameter; the receiver gives it that of the tables.
--   - In the stream of finishes the number of commits stands for the finishes that are read.
--
-- Not modelled: in internal/infrastructure/sqlite the roster, the migrations, the synchronisation and the
-- edge tables; the servers of internal/transport but for the
-- hub, the clients and the remaining services of internal/service, internal/credentials, the timing
-- processor and the ranking (internal/processor, internal/ranking), which call a package outside the
-- repository, and the user interface. They are not part of how an operation of a tablet is decided.
pub mod Prelude
pub mod Text
pub mod Packet
pub mod Service
pub mod Finish
pub mod Store
pub mod Samples
