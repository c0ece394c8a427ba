-- ===== src/ObjTable/Server.antt =====
-- go/cmd/gcsobjtable/main.go: the state of `GCSObjServer`, and its handlers. Each handler is one
-- step: `s.mu` makes it so for those that lock it. A callback or a call of the global scheduler that
-- a handler starts with `go` is a value in its result.
use babyray.Common.{ℕ, Bool, false, List, []}
use babyray.Common.Text.{Text}
use babyray.Common.Dict.{Dict, lookup, or_else}
use babyray.Wire.{LocationFoundCallback, GlobalScheduleRequest}

-- An address of a local object store, `host:port`.
abbrev pub Address : Type 0
Address = Text

pub record GcsObjServer (D : Type 0) : Type 0 where
  pub object_locations : Dict (List ℕ)
  pub waitlist : Dict (List Address)
  pub database : D
  pub object_sizes : Dict ℕ
  pub lineage : Dict GlobalScheduleRequest
  pub live_nodes : Dict Bool
  pub generating : Dict ℕ

abbrev pub new_gcs_obj_server : {D : Type 0} → D → GcsObjServer D
new_gcs_obj_server db = record {
  object_locations = [];
  waitlist = [];
  database = db;
  object_sizes = [];
  lineage = [];
  live_nodes = [];
  generating = [];
}

-- A `sendCallback` that was started: LocationFound(uid, location) for the client.
pub record Callback : Type 0 where
  pub client_address : Address
  pub uid : ℕ
  pub node_id : ℕ

-- The message that `sendCallback` sends to the client; the fields that it leaves out are zero.
abbrev pub location_found : Callback → LocationFoundCallback
location_found c = record { uid = c.uid; location = c.node_id; address = []; port = 0 }

-- The errors of the handlers, all with `codes.Internal`.
pub data ObjError (E : Type 0) : Type 0 where
  no_peer : ObjError E
  no_node_id : E → ObjError E
  duplicate_lineage : ObjError E

-- s.liveNodes[n]
unfoldable pub is_live : {D : Type 0} → GcsObjServer D → ℕ → Bool
is_live s n = or_else false (lookup n s.live_nodes)
