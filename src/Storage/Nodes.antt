-- ===== src/Storage/Nodes.antt =====
-- `Heartbeat` and `Rebalance` of internal/storage/service.go.
use tritontube.Base.{
  ℕ, Str, Int64, false, List, [], Option, none, some, map, length, ltb, if◌then◌else◌,
}
use tritontube.Base.Sort.{SliceSort}
use tritontube.Chash.{hash_less}
use tritontube.Etcd.{Client}
use tritontube.Cluster.{
  RingManager, RingState, NodeDescriptor, VirtualNodeAssignment, Answer, done, failed,
  assignment_less, upsert_node, assignments,
}
use tritontube.Storage.Types.{
  HeartbeatRequest, HeartbeatResponse, RebalanceRequest, RebalanceResponse, VirtualNode,
  RebalancePlan, Result, ok, err, heartbeat_required, heartbeat_missing_node, from_manager,
}

-- The loop of `Rebalance` over the assignments
abbrev pub virtual_node : VirtualNodeAssignment → VirtualNode
virtual_node a = record { id = a.id; token = a.token; owner_node_id = a.node_id }

-- The plan that the service answers and the one that the rebalancer executes
abbrev pub plan_of : Str → Int64 → List VirtualNodeAssignment → RebalancePlan
plan_of plan_id version assigned = record {
  plan_id = plan_id;
  ring_version = version;
  assignments = map virtual_node assigned;
}

-- `Rebalance`, with the plan's name, which holds the time. The request is not read.
unfoldable pub rebalance : Str → RebalanceRequest → RingManager → RebalanceResponse
unfolding assignments
rebalance plan_id req m = record { plan = plan_of plan_id (assignments m).1 (assignments m).0 }

-- The answer of `Heartbeat`; `lease` is the lease in seconds.
unfoldable pub heartbeat_response : Int64 → Answer Int64 → Result HeartbeatResponse
heartbeat_response lease (failed e) = err (from_manager e)
heartbeat_response lease (done version) =
    ok (record { lease_ttl_seconds = lease; require_rebalance = false; ring_version = version })

abbrev pub descriptor_of : HeartbeatRequest → NodeDescriptor
descriptor_of req = record {
  id = req.node_id;
  address = req.advertise_address;
  capacity_bytes = req.capacity_bytes;
  available_bytes = req.available_bytes;
  updated_at = [];
}

module _ (sha1 : Str → List ℕ) (by_hash : SliceSort hash_less)
    (by_token : SliceSort assignment_less) (encode : RingState → Option Str)
    (decode : Str → Option RingState) where
  -- `Heartbeat` at the time `now`
  unfoldable pub heartbeat :
      Int64
      → Str
      → Option HeartbeatRequest
      → RingManager
      → Client
      → (RingManager × Client) × Result HeartbeatResponse
  unfolding upsert_node heartbeat_response
  heartbeat lease now none m c = ((m, c), err heartbeat_required)
  heartbeat lease now (some req) m c =
      let (after, answer) =
        upsert_node sha1 by_hash by_token encode decode now (descriptor_of req) m c in
      if ltb 0 (length req.node_id)
      then (after, heartbeat_response lease answer)
      else ((m, c), err heartbeat_missing_node)
