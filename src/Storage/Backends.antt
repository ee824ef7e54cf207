-- ===== src/Storage/Backends.antt =====
-- What a storage service replicates to and uploads to: the transports of
-- internal/storage/replication.go, the uploaders of s3.go, and `NewService` of service.go.
use tritontube.Base.{
  Str, lit, str_eq, ℤ, pos, is_pos, List, [], ◌∷◌, ◌++◌, Option, none, some, Map, lookup, insert,
  lookup-insert, if◌then◌else◌, ◌≡◌, refl, Bool-cases, inl, inr,
}
use tritontube.Cluster.{RingManager}
use tritontube.Storage.Types.{
  UploadSegmentHeader, Result, ok, err, node_id_required, ring_required, filesystem_required,
}
use tritontube.Storage.Replication.{merge_replication_errors, failed_replicas}
use tritontube.Storage.Upload.{
  MetadataStore, Service, replicate, replication_results, to_s3, s3_result_key,
}

-- A transport sends a payload to a node, and an uploader to a bucket and a key.
abbrev pub Transport : Type 0
Transport = Str → UploadSegmentHeader → Str → Option Str

abbrev pub S3Uploader : Type 0
S3Uploader = Str → Str → Str → Option Str

unfoldable pub noop_transport : Transport
noop_transport id header payload = none

unfoldable pub noop_upload : S3Uploader
noop_upload bucket key body = none

-- `BufferedS3Uploader`, whose function may be nil
unfoldable pub buffered_upload : Option S3Uploader → S3Uploader
buffered_upload none bucket key body = none
buffered_upload (some f) bucket key body = f bucket key body

abbrev pub ReplicaHandler : Type 0
ReplicaHandler = UploadSegmentHeader → Str → Option Str

pub record InProcessTransport : Type 0 where
  pub handlers : Map ReplicaHandler

abbrev pub new_in_process_transport : InProcessTransport
new_in_process_transport = record { handlers = [] }

unfoldable pub register : Str → ReplicaHandler → InProcessTransport → InProcessTransport
unfolding insert
register id handler t = record { handlers = insert id handler t.handlers }

abbrev pub dispatch : Option ReplicaHandler → Transport
dispatch none id header payload = some (lit "storage: no replication handler for node " ++ id)
dispatch (some handler) id header payload = handler header payload

unfoldable pub in_process : InProcessTransport → Transport
unfolding lookup
in_process t id header payload = dispatch (lookup id t.handlers) id header payload

-- `ErrReplicationFailed.Unwrap`: an error of the map, if there is one
unfoldable pub unwrap : Map Str → Option Str
unwrap [] = none
unwrap ((id, e) ∷ errors) = some e

-- The directory of the files is all that is known of an `FS`; the lease is in nanoseconds.
pub record ServiceConfig (S : Type 0) : Type 0 where
  pub node_id : Str
  pub ring : Option RingManager
  pub filesystem : Option Str
  pub s3 : Option S3Uploader
  pub transport : Option Transport
  pub metadata : Option (MetadataStore S)
  pub replication_factor : ℤ
  pub lease_ttl : ℤ

-- A service with what it calls
pub record Configured (S : Type 0) : Type 0 where
  pub service : Service S
  pub filesystem : Str
  pub s3 : S3Uploader
  pub transport : Transport
  pub lease_ttl : ℤ

abbrev pub or_noop_upload : Option S3Uploader → S3Uploader
or_noop_upload none = noop_upload
or_noop_upload (some u) = u

abbrev pub or_noop_transport : Option Transport → Transport
or_noop_transport none = noop_transport
or_noop_transport (some t) = t

module _ {S : Type 0} where
  unfoldable pub service_over :
      ServiceConfig S → Option RingManager → Option Str → Result (Configured S)
  service_over cfg none fs = err ring_required
  service_over cfg (some ring) none = err filesystem_required
  service_over cfg (some ring) (some fs) = ok (record {
    service = record {
      node_id = cfg.node_id;
      ring = ring;
      metadata = cfg.metadata;
      replication_factor = if is_pos cfg.replication_factor then cfg.replication_factor else pos 3;
    };
    filesystem = fs;
    s3 = or_noop_upload cfg.s3;
    transport = or_noop_transport cfg.transport;
    lease_ttl = if is_pos cfg.lease_ttl then cfg.lease_ttl else pos 15000000000;
  })

  unfoldable pub new_service : ServiceConfig S → Result (Configured S)
  unfolding service_over noop_upload noop_transport
  new_service cfg =
      if str_eq cfg.node_id []
      then err node_id_required
      else service_over cfg cfg.ring cfg.filesystem

-- Handlers are called by the name under which they were registered last.
pub in_process-register :
    (id node : Str) (handler : ReplicaHandler) (t : InProcessTransport)
    (header : UploadSegmentHeader) (payload : Str)
    → in_process (register id handler t) node header payload
      ≡ (if str_eq id node then handler header payload else in_process t node header payload)
unfolding in_process register
in_process-register id node handler t header payload =
    rw (lookup-insert)
      (elim (Bool-cases (str_eq id node)) [ inl e ↦ rw e refl | inr e ↦ rw e refl ])

failed_replicas-insert :
    (k : Str) (m : Map (Option Str))
    → failed_replicas m ≡ []
    → failed_replicas (insert k none m) ≡ []
unfolding failed_replicas insert
failed_replicas-insert k [] h = refl
failed_replicas-insert k ((j, none) ∷ m) h = elim (Bool-cases (str_eq j k)) [
  | inl e ↦ rw e h
  | inr e ↦ rw e (failed_replicas-insert k m h)
]
failed_replicas-insert k ((j, some e) ∷ m) h = cc

failed_replicas-replicate :
    (h : UploadSegmentHeader) (payload self : Str) (targets : List Str) (m : Map (Option Str))
    → failed_replicas m ≡ []
    → failed_replicas (replicate (λ id. noop_transport id h payload) self targets m) ≡ []
unfolding replicate noop_transport
failed_replicas-replicate h payload self [] m e = e
failed_replicas-replicate h payload self (id ∷ ids) m e = elim (Bool-cases (str_eq id self)) [
  | inl p ↦ rw p (failed_replicas-replicate h payload self ids m e)
  | inr p ↦ rw p (
      failed_replicas-replicate h payload self ids (insert id none m)
        (failed_replicas-insert id m e))
]

-- Without a transport and an uploader nothing fails to replicate: the results of a segment, whose
-- payload is sent nowhere, merge to nil.
pub replication_results_noop :
    (h : UploadSegmentHeader) (payload self : Str) (targets : List Str)
    → merge_replication_errors (
        replication_results
          (λ id. noop_transport id h payload)
          (λ bucket key. noop_upload bucket key payload)
          self
          h
          targets)
      ≡ none
unfolding merge_replication_errors replication_results noop_upload failed_replicas
replication_results_noop h payload self targets =
    let sent = failed_replicas-replicate h payload self targets ((self, none) ∷ []) refl in
    elim (Bool-cases (to_s3 h)) [
      | inl e ↦ rw (e, failed_replicas-insert (s3_result_key h) _ sent) refl
      | inr e ↦ rw (e, sent) refl
    ]
