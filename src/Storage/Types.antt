-- ===== src/Storage/Types.antt =====
-- The messages of internal/storage/proto/storage.pb.go that the service uses, and its errors.
use tritontube.Base.{true, [], ℕ, Str, Int64, Bool, false, List, Option, none, Map}
use tritontube.Cluster.{ManagerError}

pub record SegmentLocator : Type 0 where
  pub bucket : Str
  pub object : Str

-- A nil pointer is `none`.
pub record UploadSegmentHeader : Type 0 where
  pub segment_id : Str
  pub locator : Option SegmentLocator
  pub content_type : Str
  pub size_bytes : Int64
  pub checksum : Str
  pub attributes : Map Str
  pub s3_bucket : Str
  pub s3_key : Str

pub record ReplicaAck : Type 0 where
  pub node_id : Str
  pub success : Bool
  pub error_message : Str

-- The payload of an `UploadSegmentRequest`
pub data UploadSegmentRequest : Type 0 where
  no_payload : UploadSegmentRequest
  header_payload : Option UploadSegmentHeader → UploadSegmentRequest
  chunk_payload : Str → UploadSegmentRequest
  commit_payload : Bool → UploadSegmentRequest

-- `NewUploadSegmentRequestHeader`, `NewUploadSegmentRequestChunk`, `NewUploadSegmentRequestCommit`
unfoldable pub new_header_request : Option UploadSegmentHeader → UploadSegmentRequest
new_header_request h = header_payload h

unfoldable pub new_chunk_request : Str → UploadSegmentRequest
new_chunk_request c = chunk_payload c

unfoldable pub new_commit_request : UploadSegmentRequest
new_commit_request = commit_payload true

unfoldable pub get_header : UploadSegmentRequest → Option UploadSegmentHeader
get_header (header_payload h) = h
get_header _ = none

unfoldable pub get_chunk : UploadSegmentRequest → Str
get_chunk (chunk_payload c) = c
get_chunk _ = []

unfoldable pub get_commit : UploadSegmentRequest → Bool
get_commit (commit_payload c) = c
get_commit _ = false

pub record UploadSegmentResponse : Type 0 where
  pub size_committed : ℕ
  pub checksum : Str
  pub replica_status : List ReplicaAck

pub record VirtualNode : Type 0 where
  pub id : Str
  pub token : ℕ
  pub owner_node_id : Str

pub record HeartbeatRequest : Type 0 where
  pub node_id : Str
  pub advertise_address : Str
  pub capacity_bytes : Int64
  pub available_bytes : Int64
  pub virtual_nodes : List VirtualNode
  pub segments_serving : Int64

pub record HeartbeatResponse : Type 0 where
  pub lease_ttl_seconds : Int64
  pub require_rebalance : Bool
  pub ring_version : Int64

pub record RebalancePlan : Type 0 where
  pub plan_id : Str
  pub ring_version : Int64
  pub assignments : List VirtualNode

pub record RebalanceRequest : Type 0 where
  pub node_id : Str
  pub virtual_nodes : List VirtualNode
  pub drain : Bool

pub record RebalanceResponse : Type 0 where
  pub plan : RebalancePlan

pub record GetSegmentRequest : Type 0 where
  pub locator : Option SegmentLocator
  pub offset : Int64
  pub length : Int64

pub record GetSegmentResponse : Type 0 where
  pub chunk : Str
  pub eof : Bool

-- One constructor for each error that the service makes, and those that it passes on.
pub data StorageError : Type 0 where
  missing_header missing_locator segment_id_required empty_replica_set : StorageError
  heartbeat_required heartbeat_missing_node end_of_stream closed_without_response : StorageError
  locator_required ring_required filesystem_required node_id_required etcd_required : StorageError
  missing_primary stream_broken persist_failed read_failed open_failed not_implemented :
      Str → StorageError
  from_manager : ManagerError → StorageError

pub data Result {ℓ} (A : Type ℓ) : Type ℓ where
  ok : A → Result A
  err : StorageError → Result A
