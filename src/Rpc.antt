-- ===== src/Rpc.antt =====
-- The messages of pkg/rpc/database.proto, and what the program uses of
-- google.protobuf.Timestamp, which is not part of the repository.
use distributed_systems_go.Base.{Text, Bool, List, Option, some, ◌≡◌}
use distributed_systems_go.Types.{Time, Float}

-- `timestamppb.New` and the method `AsTime`, which may be called on a nil pointer.
pub record TimestampPb : Type 1 where
  pub Timestamp : Type 0
  pub new : Time → Timestamp
  pub as_time : Option Timestamp → Time

-- `New` documents that the instant is kept.
pub record KeepsTime (pb : TimestampPb) : Type 0 where
  pub as_time-new : (t : Time) → pb.as_time (some (pb.new t)) ≡ t

-- The messages, over the type of time stamps. A pointer field is an option.
pub record SensorDataRequest (T : Type 0) : Type 0 where
  pub sensor_id : Text
  pub timestamp : Option T
  pub value : Float
  pub unit : Text

pub record OperationResponse : Type 0 where
  pub success : Bool
  pub message : Text

pub record PrepareResponse : Type 0 where
  pub success : Bool
  pub message : Text
  pub transaction_id : Text

pub record TransactionRequest (T : Type 0) : Type 0 where
  pub transaction_id : Text
  pub sensor_data : Option (SensorDataRequest T)

pub record TransactionId : Type 0 where
  pub transaction_id : Text

pub record SensorIdRequest : Type 0 where
  pub sensor_id : Text

pub record SensorDataList (T : Type 0) : Type 0 where
  pub items : List (SensorDataRequest T)
