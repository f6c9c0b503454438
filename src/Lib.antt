-- ===== src/Lib.antt =====
-- A model of the FANET backend: a service that receives packets of FANET devices over MQTT, decides
-- which devices are plausible, writes them to a database in batches, sends them to the clients of a map,
-- and answers where the aircraft are.
--
-- How the parts interact. The MQTT client hands topic and payload to `Parser.Parse`
-- (internal/mqtt/parser.go). What it decodes goes to the message handler of
-- cmd/fanet-api/main.go, which converts it, asks `ValidationService.ValidatePilot`
-- (internal/service/validation.go) to rate a pilot, has it stored in Redis and hands it to
-- `BroadcastManager` (internal/handler/broadcast.go) for the clients around it; `BatchWriter` (internal/service/batch_writer.go) collects what
-- is stored and writes it in batches. Objects with a position are indexed by
-- `SpatialIndex` (internal/geo/spatial.go): a `QuadTree` (internal/geo/quadtree.go), with query results
-- kept in `LRUCache` (internal/geo/cache.go), and
-- `BoundaryTracker` (internal/service/boundary_tracker.go) decides which objects a
-- snapshot has. The points of a track pass chains of
-- filters (internal/filter), which drop or mark the points that cannot be right and number the
-- segments.
--
-- Which module models which part:
--   * Prelude: shared names, tests, lists by native numbers, Go's signed integers, Go maps as
--     association lists, and `float64` as the interface `Float`. No equation of floating-point
--     arithmetic is assumed by it; a theorem that needs one takes it as a named hypothesis
--     (`IsOrdered` of Geo.QuadTree.Bounds).
--   * Models: internal/models. `Points` has `GeoPoint` and the distances of geo.go and of
--     internal/geo/geohash.go, `Aircraft` the aircraft types, `Bounds` the rest of geo.go; `Pilots`,
--     `Thermals`, `Stations` and `Grounds` are the objects with their methods, `Protos` their `ToProto`.
--     `Checks` is what the methods `Validate` answer.
--   * Wire: the messages of ai-spec/api/fanet.proto that the hub sends.
--   * Process: cmd/fanet-api/main.go. `Converters` has its converters, `Messages` the handler of decoded
--     messages: what it calls is a list in the order of the calls, what Redis answers an argument. The handler
--     runs in a goroutine for each message and locks the validation service twice: what the others do
--     to the service in between is an argument, any function.
--   * Handler: internal/handler/broadcast.go, the hub of the WebSocket clients, with what feeds it in
--     internal/handler/websocket.go. `Updates` has the packets, `Groups` the registration of clients,
--     `Sending` the batches, `Hub` the state and its steps: each case of the `select` of `run`, the
--     cleaning, the methods that other goroutines call, and a client that reads its channel. A list of
--     steps is any interleaving. What `Cover` answers and what the protobuf marshaller accepts are
--     arguments; the other modules hold the proofs.
--   * Mqtt: internal/mqtt/parser.go. A slice is a list of numbers below 256; a read out of range is the
--     outcome `panic`, an `error` the outcome `err`. `Fields` computes the fields from raw bytes with
--     the source's widths, `Packets` and `Service` are the methods of the packet types, `Envelope` is
--     `Parse` itself.
--   * Service.Validation: internal/service/validation.go with its data of
--     internal/models/validation.go. `Pilot.validate_pilot` is `ValidatePilot`; the state of a device is
--     held by a pointer in the source, here each change is a write of the map's entry. The lock makes
--     every method one step, so that a run is a list of calls. `Settled` has the runs of all calls, the
--     other modules those of packets.
--   * Service.Boundary: internal/service/boundary_tracker.go, with the clock as an argument.
--   * Service.Batch: internal/service/batch_writer.go. `Lane` is one of its three queues with the worker that
--     empties it, `Retry` its `retryOperation`, `Writer` the three lanes with the methods' names. A
--     worker's `select` and its wait for the database are separate steps, so that a list of steps is any
--     interleaving of the goroutines; what the repository answers is an argument.
--   * Geo.QuadTree: internal/geo/quadtree.go. `Bounds` has the rectangles, `Node` the tree, `Index` the
--     locked structure around it with the map of objects.
--   * Geo.Geohash: the codec of internal/geo/geohash.go, on lists of bytes; `Cells` holds its proofs.
--     `Cover` has its `Neighbors` and `Cover`.
--   * Geo.Cache: `LRUCache` of internal/geo/cache.go, of values of any type.
--   * Geo.Bloom and Geo.Spatial: the Bloom filter, `GeoCache` and `SpatialIndex` of
--     internal/geo/spatial.go; `Fresh` holds the proofs. The rounded texts of the caches' keys are an
--     argument. A query locks the cache, the tree and the cache in turn: what other goroutines do in
--     between is an argument, and the runs of `Fresh` are those in which nothing does.
--   * Filter: internal/filter. `Points` is the data of internal/filter/interface.go. `Duplicates`, `Speed`,
--     `Outliers`, `PreCleanup` and `Teleports` are the filters named so, `Medians` and `PingPong` what they
--     use; `Segments` is the loop that `TimeGaps` and `Segmentation` share. `Chain` is `FilterChain` with
--     the default chain and that of level 1, `Segmented` the filter that runs level 1 on each segment,
--     `Levels` the chain of level 2. `Intervals`, `Labels`, `Numbering`, `Marking`, `Removal`, `Chains`,
--     `Visits` and `Order` hold the proofs. `fmt.Sprintf` is an argument; the order in which Go visits a
--     map is one too.
--   * Auth: internal/auth. `Tokens` has the users, the cache and the validator, `Middleware` the checks of
--     requests, `Remembered` the proofs. Redis is a store with the answers to its commands, the time to
--     live of `SET` among them; that it keeps a key for this time and no longer is a hypothesis. Requests
--     follow one another.
--   * Samples: a floating-point instance of whole numbers, concrete inputs and tests.
--
-- Bounds and fuel. `insert` of the quadtree can split the node that it fills, and then inserts into the
-- new children, which may split in turn. The model bounds these nested splits by the fuel `max_depth`
-- (12): a node splits only above that depth, and each nested split is one level deeper, so that
-- insertion from the root never runs out. The loop of the cache's `Clean` has the length of the list as
-- fuel, since each round removes an element. Counters and times are unbounded numbers: they are Go's 64-bit
-- `int`, `int64` and `time.Duration`, which no run of the service fills. Scores are numbers too; the
-- thresholds that the program uses are not negative. `Cover` steps through floating-point numbers, and has fuel that
-- no theorem relies on. The loops of
-- the filters and the retries of the batch writer are structural, over the points or the attempts left.
--
-- Not modelled: logging, Prometheus counters, and the parts that are input and output only (the HTTP and
-- WebSocket handlers, Redis, MySQL, the MQTT connection, configuration). The segmentation by activity and
-- the two-stage chain are still to come.
pub mod Prelude
pub mod Models
pub mod Geo
pub mod Filter
pub mod Mqtt
pub mod Service
pub mod Wire
pub mod Process
pub mod Handler
pub mod Auth
pub mod Samples
