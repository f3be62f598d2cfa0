-- ===== src/Cmd/MainTests.antt =====
-- The main functions of the programs, from flags to their end.
use distributed_systems_go.Base.{
  ℕ, ◌+◌, [], ◌∷◌, List, Option, none, some, Text, text, ok, ◌==◌, if◌then◌else◌,
}
use distributed_systems_go.Base.Int.{pos}
use distributed_systems_go.Types.{Time}
use distributed_systems_go.Database.Connection.{Network}
use distributed_systems_go.Database.Fixtures.{instants}
use distributed_systems_go.Database.Fixtures.{request as reading_request}
use distributed_systems_go.Database.Service.Request.{Request as ServiceRequest, create, clock}
use distributed_systems_go.Http.Message.{Request}
use distributed_systems_go.Http.Exchange.{Link, not_read}
use distributed_systems_go.Cmd.Fixtures.{good_world}
use distributed_systems_go.Cmd.Server.{World}
use distributed_systems_go.Http.Parse.{Parsed, parsed, refused, crashed}
use distributed_systems_go.Cmd.Gateway.{Event, arrives, forwards, elsewhere}
use distributed_systems_go.Cmd.Server.Main.{Flags as ServerFlags, main as server_main}
use distributed_systems_go.Cmd.Store32.Main.{Flags as StoreFlags, main as store_main}
use distributed_systems_go.Cmd.Gateway.Main.{Flags as GatewayFlags, main as gateway_main}
use distributed_systems_go.Cmd.Sensor.Main.{
  Flags as SensorFlags, main as sensor_main, IsQuiet, main-IsQuiet,
}
use distributed_systems_go.Cmd.Database.{
  Flags as DatabaseFlags, main as database_main, IsServed, main-IsServed,
}

abbrev server_flags : ServerFlags
server_flags = record {
  host = text "0.0.0.0";
  port = pos 8080;
  db_addr1 = text "a:1";
  db_addr2 = text "b:2";
}

abbrev network : Network
network = record { opened = 0 ∷ []; next = 1 }

-- the second connection fails
abbrev second_fails : ℕ → Option Text
second_fails i = if i == 1 then some (text "no route") else none

-- two connections, of which the second crashes the program
abbrev crashing : List (World Time × Parsed)
crashing = (good_world, refused (text "EOF")) ∷ (good_world, crashed) ∷ []

abbrev data_request : Text → Request
data_request body = record {
  method = text "POST";
  path = text "/data";
  version = text "HTTP/1.1";
  headers = [];
  body = body;
  content_type = [];
  content_len = pos 0;
}

abbrev store_flags : StoreFlags
store_flags = record { host = text "localhost"; port = pos 9090; data_limit = 1 }

-- two readings, of which one is kept, and bytes that are no request
abbrev incoming : List (Time × Parsed)
incoming =
    (5, parsed (data_request (3 ∷ []))) ∷ (6, refused []) ∷ (7, parsed (data_request (4 ∷ []))) ∷ []

abbrev gateway_flags : GatewayFlags
gateway_flags = record {
  server_host = text "localhost";
  server_port = pos 8080;
  mqtt_host = text "mqtt";
  mqtt_port = pos 1883;
}

-- a network without an answer
abbrev lossy : Link ℕ
lossy = record {
  dial = λ address. ok tt;
  set_deadline = ok tt;
  deliver = λ bytes n. (n + 1, not_read (text "i/o timeout"));
}

abbrev before : List (Event ℕ)
before = arrives (3 ∷ []) ∷ arrives [] ∷ arrives (4 ∷ []) ∷ []

abbrev during : List (Event ℕ)
during = forwards 1 lossy ∷ elsewhere (λ n. n) ∷ forwards 0 lossy ∷ []

abbrev sensor_flags : SensorFlags
sensor_flags = record {
  mqtt_host = text "mqtt";
  mqtt_port = pos 1883;
  instances = pos 2;
  duration = pos 0;
}

main-IsQuiet_example : IsQuiet (λ i. ok tt) 2 (sensor_main (λ i. ok tt) sensor_flags)
main-IsQuiet_example = main-IsQuiet (λ i. ok tt) sensor_flags

abbrev database_flags : DatabaseFlags
database_flags = record { port = pos 50051; data_limit = 1 }

abbrev requests : List (ServiceRequest Time)
requests = create 5 (reading_request 3 9) ∷ clock 6 ∷ create 7 (reading_request 4 9) ∷ []

main-IsServed_example :
    IsServed instants
      (λ a. ok tt)
      (ok tt)
      requests
      database_flags
      (database_main instants (λ a. ok tt) (ok tt) requests database_flags)
main-IsServed_example =
    main-IsServed instants (λ a. ok tt) (ok tt) requests database_flags (tt, (tt, (tt, tt)))
