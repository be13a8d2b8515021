-- ===== src/Lib.antt =====
-- Verification of gosk, a SignalK data platform for ships.
--
-- Sensors are read by connectors, whose raw bytes mappers turn into deltas; deltas travel over a
-- message bus to writers, which serve them to clients or store them. A receiver ashore compares
-- what it has stored with what the ship has, and asks for what it misses. A delta
-- (message/mapped.go) is a context with updates, each of which holds values under paths. The
-- library models eight parts:
--
--   Connector connector/main.go and connector/line.go. `Process` is process, which puts raw
--             messages on the bus, `Lines` Publish, receive and scan with the scanner of the
--             package bufio, and `LineWriter` Subscribe. The packages that encode a raw message
--             are the parameter `RawCodec`, and what the bus refuses is an argument. The
--             connections themselves are input and output.
--   Modbus    protocol/modbus.go and connector/modbus.go. `Codec` is the frame format
--             (InjectModbusHeader, ExtractModbusHeader and the four conversions), `Client` the
--             methods Read and Write of ModbusClient, `Poll` the poll loop with the buffer behind
--             its slices. `Connector` is Publish and receive of the connector, with a step for
--             each round of a poll and one for the channel done, and a buffer for each poll that
--             its slices show; `Subscriber` is Subscribe, which writes raw messages to the device.
--             The device (github.com/simonvetter/modbus) is the parameter `Device`: operations on
--             a state of its own.
--   Message   message/mapped*.go and message/raw.go. `RawJson` is MarshalJSON and UnmarshalJSON of
--             raw messages. `Values` holds the value types and the two comparisons of interface
--             values, `Delta` the builders, ToSingleValueMapped, ToMapped, Merge and both Equals,
--             `Merger` the five Merge methods, `Decoding` the function Decode with the
--             mapstructure package as a parameter. Pointers carry an address, since == compares
--             addresses.
--   Mapper    mapper/main.go, mapper/expressions.go, mapper/modbus.go, mapper/aggregate.go,
--             mapper/expression_filter.go, mapper/ratelimit_filter.go, mapper/nmea0183.go,
--             mapper/json.go, mapper/csv.go and mapper/canbus.go, with FrameToBytes of
--             connector/canbus.go. `Process` holds the loops process and processMapped,
--             `Expressions` runExpr with the expression engine as the parameter `Engine`,
--             `Registers` and `Modbus` the two halves of DoMap of the Modbus mapper, `Aggregate`
--             the aggregate mapper, `ExpressionFilter` and `RateLimit` the two filters, `Nmea0183`
--             DoMap of the NMEA mapper. The parser of sentences (github.com/munnik/go-nmea) is the
--             parameter `Nmea`: what it parses is a `Sentence`, with a result or an error for each
--             interface that the sentence has. `CanFrame` is the format of CAN frames
--             (FrameToBytes, createFrame), `CanSignal` is extractSignal, with the arithmetic of
--             floats as the parameter `Arithmetic`, and `CanBus` NewCanBusMapper and DoMap; the
--             messages of the DBC file are an argument. `Json` is DoMap of the JSON mapper, with
--             encoding/json as the parameter `unmarshal`. `Csv` is DoMap of the CSV mapper, which
--             uses the scanner of `Connector.Lines`, and `CsvFields` what it calls of the packages
--             strings and strconv; regexp and the parser of floats are the parameter `CsvCalls`.
--             `Tank` holds the functions that expressions call, among them HeightToVolume, with
--             the arithmetic of floats as a parameter.
--   Writer    writer/websocket.go, in `Writer.Websocket`: `Pattern` (isPatternMatch),
--             `Subscriptions` (handleSubscribeMessages, isSubscribedTo), `Cache` (injectOrUpdate,
--             retrieveAll) and `Hub`, the loop `run`: one step for each round of its select, with
--             the buffers that are full as an argument of the step. `Serve` is what stands around
--             it: serveWs, readPump, writePump and receive turn what comes in into steps of the
--             hub; encoding/json is the parameter `Unmarshal`. `Writer.Mqtt` is writer/mqtt.go,
--             with the two buffers and the JSON and zstd codecs as a parameter. Of writer/lwe.go,
--             `Writer.Lwe` is the choice of the multicast group, `LweTagBlock` the tag block with
--             its line count and its checksum, and `LweBlocks` a description of its text. Each
--             message has a goroutine, which writes to its connection outside the lock; here
--             multicast is one step, in the order in which the lines are counted. Texts are lists
--             of code points there. `SignalK` is writer/signalk*.go: the clients with the
--             goroutines that send them deltas, and the requests that wait for the first reading
--             of the database, around the cache of `Database.MessageCache`.
--   Reader    reader/mqtt.go, in `Reader.Mqtt`: the payload that the MQTT writer made of a buffer
--             comes apart into deltas again. zstd, JSON and the bus are the parameter `Decoder`.
--   Database  database/postgresql.go: `Rows` (the loops over the rows of an answer), `Queries`
--             (the queries of the transfer), `MappedRows` (a delta as a row, and back), `Batch`
--             (queue and flush). The database is the parameter `Connection`, with an operation for
--             each SQL statement. A flush is one step, so no write falls into the middle of it.
--             `MessageCache` is database/bigcache.go, with the cache of bytes
--             (github.com/allegro/bigcache) as the parameter `ByteCache` and encoding/json as
--             `CacheCodec`. Which values that gives back is the hypothesis `Reads`.
--   Transfer  transfer/*.go: `Messages` (topics and payloads), `Requester` (count requests and
--             their answers), `DataRequests` (the channel of periods and its workers), `Responder`
--             (the side of the ship). The queries of Database, the encoding of messages and the
--             bus are parameters, clock readings are arguments. What the code does for each origin
--             in a goroutine of its own happens here for one origin after the other, without the
--             random pause before it, which is taken to be positive.
--
-- The connectors put raw messages on the bus, which the mappers and the subscribers of the
-- connectors read. The mappers read the frames of Modbus and build the deltas of Message; the
-- cache and the subscriptions of the websocket writer, the rows of Database and the buffers of the
-- MQTT writer hold these deltas; Reader reads what Writer.Mqtt publishes; Transfer asks Database.
-- `Prelude` holds what all parts share: Boolean tests, lists, results with errors and panics
-- (`Outcome`), integers and association lists for Go maps. Such a list keeps the order of
-- insertion, where the order of a Go map is not fixed: what is stated of maps is stated of
-- lookups.
--
-- Conventions. A uint8 or uint16 is a natural number whose range is a hypothesis, and arithmetic
-- that wraps is written with a remainder. A panic is an outcome of its own. A nil map or slice is
-- `none`. Floats are a parameter with their equality. A time is an instant, a number without its
-- location.
--
-- Bounds. Loops over data recurse on the data. Two definitions run on fuel: `missing_periods`, the
-- loop over periods of transfer/request.go, for which a theorem gives the fuel that is enough, and
-- `digits_of`, the digits of a number, which has the number itself as fuel: each round divides by
-- the base, which is at least two. The loops without end are run over a given number of ticks
-- (`poll`) or calls (`publish` of lines), or a given list of events or messages (`run`, `process`,
-- `process_mapped`), which stand for every finite prefix of a run.
--
-- The buffer of the scanner is that of the package bufio, 65536 bytes: a longer line ends a scan,
-- and the next call of receive goes on behind what the scanner had read.
--
-- Not modelled: goroutines and sockets, JSON and YAML encoding, the text of SQL statements, the
-- connection pool and the migrations of the database, the JSON of the SignalK data model, the
-- stdout writer, the CAN socket and the HTTP connector, configuration files, logging, the command
-- line, the reuse of the scanner's buffer while a line waits in the stream, and the data races on
-- the subscriptions of a websocket client, which its reader changes while the hub reads them: here
-- each message of a client is one event.
pub mod Connector
pub mod Database
pub mod Mapper
pub mod Message
pub mod Modbus
pub mod Prelude
pub mod Reader
pub mod Transfer
pub mod Writer
