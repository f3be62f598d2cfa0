-- ===== src/Lib.antt =====
-- A verification library for the IoT stack: sensors publish readings by MQTT, a gateway forwards
-- them by HTTP, and an HTTP server stores each reading in two databases by Two-Phase Commit over
-- gRPC. Modelled are the parts on this way, from a sensor's value to the two databases and back to
-- an HTTP client.
--
-- The parts and their files:
--   Types                pkg/types/sensor_data.go: readings. A time is its nanoseconds since the
--                        zero time, a float64 its bit pattern.
--   Types.Floats         the comparison of float64 values by their bit patterns; the rounding
--                        arithmetic is the parameter `Arithmetic`.
--   Rpc                  pkg/rpc/database.proto: the messages. google.protobuf.Timestamp is the
--                        parameter `TimestampPb`; `KeepsTime` says that it keeps a time.
--   Database.Service     internal/database/service.go, `DatabaseService`: a record for the state
--                        (readings, limit, prepared transactions, time-out) and a function for
--                        each handler. Every handler holds the service's lock, so runs are
--                        sequences of requests and clean-up ticks (Database.Service.Request).
--   Database.Client      internal/database/client.go, `Client`: one call for each method. gRPC is
--                        the argument `Fate` of a call: answered, lost on the way to the server,
--                        or with its answer lost.
--   Database.Client.Performance  its latency test.
--   Database.Connection  internal/database/client.go: the factories and closing of both clients,
--                        over the set of open connections.
--   Database.Statistics  the statistics of both performance tests.
--   Database.Coordinator internal/database/client.go, `TwoPhaseCommitClient`: the two phases over
--                        the list of servers. Before each call arrives, its server may handle any
--                        requests of others and ticks (`Call.meanwhile`); `Undisturbed` says that
--                        there are none.
--   Http.Message         pkg/http/request.go and response.go: requests and responses.
--   Http.Strings         what pkg/http uses of Go's strings and strconv packages.
--   Http.Parse           pkg/http/request.go, `ParseRequest` and `ReadBodyFrom`: the request in
--                        the bytes that a connection delivers until it ends.
--   Http.Client          pkg/http/client.go: the bytes of a request.
--   Http.Url             pkg/http/client.go, `parseURL` and `parsePort`.
--   Http.Response        pkg/http/response.go, `Write` and `String`, request.go, `String`, and
--                        client.go, `parseResponse`. The order in which `range` visits the
--                        headers is the argument `visit`, any reordering.
--   Http.Exchange        pkg/http/client.go, `HttpClient`: the whole exchange over a network, the
--                        record `Link`; Http.Exchange.Loop connects it to Http.Server.
--   Http.Server          pkg/http/server.go: the table of handlers, and the answer to a request;
--                        Http.Server.Preserve lifts what every handler keeps to the server,
--                        and Http.Server.Session runs the connections in the order of their
--                        handlers, until a request crashes the program.
--   Http.Server.Accept   pkg/http/server.go, `Start`, `Stop`, `acceptConnections` and the goroutines
--                        of the connections: a step relation in which they interleave in any
--                        order, over the server's flag, listener, wait group and mutex. A network
--                        call may succeed or fail. There is one call of `Start` and one of `Stop`.
--   Cmd.Server           cmd/server/main.go: the handlers over the two databases; Cmd.Server.Data,
--                        Cmd.Server.Routes, Cmd.Server.Wire and Cmd.Server.Performance
--                        hold the theorems.
--   Cmd.Store32          cmd/server_32/main.go: the store of the single-server program, and
--                        its handlers; Cmd.Store32.Wire joins them with the gateway and Http.
--   Cmd.Gateway          cmd/gateway/main.go: the gateway's state, and runs as lists of events, in
--                        which its goroutines end in any order; Cmd.Gateway.Forward joins it
--                        with Http and Cmd.Server.
--   Cmd.Sensor           cmd/sensor/main.go and pkg/types/sensor.go: a simulator over its ticks, and
--                        in Cmd.Sensor.Manager the simulators of all types, whose ticks come
--                        in any order in Cmd.Sensor.Fleet. MQTT is the list of its results.
--   Cmd.Mqtt             what both programs ask of the MQTT library: the options of a client
--                        (Cmd.Gateway.Mqtt, Cmd.Sensor.Mqtt) and the subscription, under
--                        the parameter `matches` of a broker (Cmd.Pipeline.Topics).
--   Cmd.Pipeline         the whole way, from a simulator's ticks to the databases;
--                        Cmd.Pipeline.Contents forgets the order of the readings, in which
--                        the gateway's goroutines may end.
--   Cmd.Database, Cmd.Server.Main, Cmd.Store32.Main, Cmd.Gateway.Main, Cmd.Sensor.Main
--                        `main` of cmd/database, cmd/server, cmd/server_32, cmd/gateway and
--                        cmd/sensor, from the values of the flags to the end of the program
--                        (Cmd.Program). What happens until the signal is an argument.
--   Base                 shared lists, bags, texts (lists of bytes), tables, results and integers.
--
-- State is passed explicitly, an error is a value of `Result`, and a Go map is an association
-- list. Numbers are natural numbers without a bound: the counts that the code keeps in an int are
-- lengths of lists in memory or numbers of messages, and sums of durations stay far below 2^63
-- nanoseconds. The only fuel is in the decimal digits of a number, where one more than the number
-- is enough, as a division by ten makes it smaller. `Atoi` and `Sscanf` keep Go's 64-bit bounds,
-- and a request's body is bounded by the parameter `memory`, beyond which the program crashes.
--
-- Not modelled: log lines; parsing the flags and waiting for signals (a program's run starts from
-- the flags' values, and the signal is the point where it stops), and a data limit below zero; the
-- keep-alive and reconnection of the MQTT client; the times at which tickers fire; the generated
-- code under pkg/generated (it is gRPC's); encoding/json (the parameter `Json` of Cmd.Json); the
-- rounding of float arithmetic; the location of a time, which shows in its text (an instant is
-- what is stored and compared). Goroutines show as the order of events or, in Http.Server.Accept, as
-- interleaved steps.
pub mod Base
pub mod Types
pub mod Rpc
pub mod Database
pub mod Http
pub mod Cmd
