-- ===== src/Wire.antt =====
-- proto/rayclient.proto: the messages that the services exchange. A `uint64`, `uint32` or `bytes`
-- field is a natural number or a list of them; where the code does arithmetic on one, it keeps the
-- wrap-around there. A message is never nil: gRPC hands a handler a decoded message.
use babyray.Common.{ℕ, Bool, List, String}
use babyray.Common.Dict.{Dict}
use babyray.Common.Text.{Text}

abbrev pub Bytes : Type 0
Bytes = List ℕ

-- `error_code` is an `int32`, by its bit pattern. The services set `success` alone.
pub record StatusResponse : Type 0 where
  pub success : Bool
  pub error_code : ℕ
  pub error_message : String
  pub details : String

-- &pb.StatusResponse{Success: b}
abbrev pub status : Bool → StatusResponse
status b = record { success = b; error_code = 0; error_message = ""; details = "" }

pub record GlobalScheduleRequest : Type 0 where
  pub uid : ℕ
  pub name : ℕ
  pub args : Bytes
  pub kwargs : Bytes
  pub uids : List ℕ
  pub new_object : Bool
  pub node_id : ℕ
  pub locality_flag : Bool

-- The scheduler takes the two averages as `float`s, whose type is a parameter.
pub record HeartbeatRequest (F : Type 0) : Type 0 where
  pub running_tasks : ℕ
  pub queued_tasks : ℕ
  pub avg_running_time : F
  pub avg_bandwidth : F
  pub node_id : ℕ

pub record ScheduleRequest : Type 0 where
  pub name : ℕ
  pub args : Bytes
  pub kwargs : Bytes
  pub uids : List ℕ
  pub node_id : ℕ
  pub locality_flag : Bool

pub record ScheduleResponse : Type 0 where
  pub uid : ℕ

pub record StoreRequest : Type 0 where
  pub uid : ℕ
  pub object_bytes : Bytes

pub record GetRequest : Type 0 where
  pub uid : ℕ
  pub testing : Bool
  pub copy : Bool
  pub cache : Bool

pub record GetResponse : Type 0 where
  pub uid : ℕ
  pub object_bytes : Bytes
  pub is_local : Bool
  pub size : ℕ

pub record LocationFoundCallback : Type 0 where
  pub uid : ℕ
  pub location : ℕ
  pub address : Text
  pub port : ℕ

pub record CopyRequest : Type 0 where
  pub uid : ℕ
  pub requester : ℕ

pub record CopyResponse : Type 0 where
  pub uid : ℕ
  pub object_bytes : Bytes

pub record RunRequest : Type 0 where
  pub uid : ℕ
  pub name : ℕ
  pub args : Bytes
  pub kwargs : Bytes

pub record WorkerStatusResponse (F : Type 0) : Type 0 where
  pub num_running_tasks : ℕ
  pub num_queued_tasks : ℕ
  pub average_running_time : F

pub record BandwidthResponse (F : Type 0) : Type 0 where
  pub avg_bandwidth : F

pub record NotifyOwnsRequest : Type 0 where
  pub uid : ℕ
  pub node_id : ℕ
  pub object_size : ℕ

pub record RequestLocationRequest : Type 0 where
  pub uid : ℕ
  pub requester : ℕ

pub record RequestLocationResponse : Type 0 where
  pub immediately_found : Bool

pub record ObjectLocationsRequest : Type 0 where
  pub args : List ℕ

pub record LocationByteTuple : Type 0 where
  pub locations : List ℕ
  pub bytes : ℕ

pub record ObjectLocationsResponse : Type 0 where
  pub locations : Dict LocationByteTuple

pub record LiveNodesRequest : Type 0 where
  pub live_nodes : Dict Bool

pub record GeneratingRequest : Type 0 where
  pub uid : ℕ
  pub node_id : ℕ

pub record RegisterRequest : Type 0 where
  pub serialized_func : Bytes

pub record RegisterResponse : Type 0 where
  pub name : ℕ

pub record FetchRequest : Type 0 where
  pub name : ℕ
  pub callback_node_id : ℕ

pub record FetchResponse : Type 0 where
  pub serialized_func : Bytes
