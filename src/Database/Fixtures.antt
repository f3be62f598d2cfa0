-- ===== src/Database/Fixtures.antt =====
-- Test data: time stamps that are their own instants, two servers, readings and plans.
use distributed_systems_go.Base.{ℕ, refl, [], ◌∷◌, none, some, true, Text, if◌then◌else◌, ◌==◌}
use distributed_systems_go.Types.{Time, SensorData}
use distributed_systems_go.Rpc.{TimestampPb, KeepsTime, SensorDataRequest}
use distributed_systems_go.Database.Service.{Service}
use distributed_systems_go.Database.Client.{Fate, delivered, lost_request}
use distributed_systems_go.Database.Coordinator.{Call, Plan}

-- nanoseconds from the zero time to the Unix epoch
abbrev pub epoch : Time
epoch = 62_135_596_800_000_000_000

abbrev pub instants : TimestampPb
instants = record {
  Timestamp = Time;
  new = λ t. t;
  as_time = λ o. elim o [ none ↦ epoch | some t ↦ t ];
}

pub instants-KeepsTime : KeepsTime instants
instants-KeepsTime = record { as_time-new = λ t. refl }

abbrev pub reading : ℕ → ℕ → SensorData
reading sensor time = record {
  sensor_id = sensor ∷ [];
  timestamp = time;
  value = 42;
  unit = b'C' ∷ [];
}

abbrev pub request : ℕ → ℕ → SensorDataRequest Time
request sensor time = record {
  sensor_id = sensor ∷ [];
  timestamp = some time;
  value = 42;
  unit = b'C' ∷ [];
}

-- a server that holds one reading, with room for two
abbrev pub server : Service
server = record {
  points = reading 1 5 ∷ [];
  max_data_points = 2;
  prepared_txns = [];
  txn_timeout = 30_000_000_000;
  cleaning = true;
}

-- a full server
abbrev pub full_server : Service
full_server = record {
  points = reading 1 5 ∷ reading 2 6 ∷ [];
  max_data_points = 2;
  prepared_txns = [];
  txn_timeout = 30_000_000_000;
  cleaning = true;
}

abbrev pub call : Fate → Call Time
call f = record { meanwhile = []; fate = f; now = 100; when = 100 }

abbrev pub answered : ℕ → Call Time
answered i = call delivered

-- the first call is answered, the others do not reach their servers
abbrev pub first_only : ℕ → Call Time
first_only i = call (if i == 0 then delivered else lost_request [])

abbrev pub plan_of : (ℕ → Call Time) → (ℕ → Call Time) → Plan Time
plan_of p c = record { prepares = p; commits = c; aborts = answered }

abbrev pub txn : Text
txn = b't' ∷ []
