-- ===== src/Storage/Upload.antt =====
-- `UploadSegment` of internal/storage/service.go. The stream is the list of what `Recv` returns; the
-- transport and the uploader answer with an error or none. The goroutines write to different keys of
-- one map under a mutex, so they are one loop.
use tritontube.Base.{
  ℕ, Str, lit, str_eq, ℤ, Bool, List, [], ◌∷◌, ◌++◌, Option, none, some, Map, insert, length, ltb,
  if◌then◌else◌, filter, not, ◌&&◌, is_some,
}
use tritontube.Cluster.{RingManager, replicas_of}
use tritontube.Storage.Types.{
  segment_id_required, stream_broken, missing_locator, persist_failed, missing_header, get_commit,
  end_of_stream, get_header, get_chunk, UploadSegmentResponse, UploadSegmentRequest,
  UploadSegmentHeader, StorageError, SegmentLocator, ReplicaAck, Result, ok, err,
}
use tritontube.Storage.Files
use tritontube.Storage.Files.{FsCalls, PutResult}
use tritontube.Storage.Replication.{
  validate_replication_targets, merge_replication_errors, error_of, replication_failed,
}

-- What `Recv` returns: a message, or an error that is not io.EOF. The end of the list is io.EOF.
pub data Incoming : Type 0 where
  message : UploadSegmentRequest → Incoming
  broken : Str → Incoming

-- The loop that collects the payload, with what it holds so far
unfoldable pub receive : List Incoming → Str → Result Str
unfolding get_chunk get_commit
receive [] payload = ok payload
receive (broken e ∷ stream) payload = err (stream_broken e)
receive (message msg ∷ stream) payload =
    let collected = payload ++ get_chunk msg in
    let rest = receive stream collected in if get_commit msg then ok collected else rest

-- The header is checked in three steps.
pub record Checked : Type 0 where
  pub header : UploadSegmentHeader
  pub locator : SegmentLocator

abbrev pub check_locator : UploadSegmentHeader → Option SegmentLocator → Result Checked
check_locator h none = err missing_locator
check_locator h (some l) =
    if ltb 0 (length h.segment_id)
    then ok (record { header = h; locator = l })
    else err segment_id_required

unfoldable pub check_header : Option UploadSegmentHeader → Result Checked
check_header none = err missing_header
check_header (some h) = check_locator h h.locator

-- The first `Recv`
unfoldable pub receive_header : List Incoming → Result Checked
unfolding check_header get_header
receive_header [] = err end_of_stream
receive_header (broken e ∷ stream) = err (stream_broken e)
receive_header (message msg ∷ stream) = check_header (get_header msg)

pub record SegmentRecord : Type 0 where
  pub segment_id : Str
  pub locator : SegmentLocator
  pub primary_node : Str
  pub replicas : List Str
  pub checksum : Str
  pub size_bytes : ℕ
  pub attributes : Map Str

-- `hasS3`: whether the header names a bucket and a key, and the key of its result.
abbrev pub to_s3 : UploadSegmentHeader → Bool
to_s3 h = ltb 0 (length h.s3_bucket) && ltb 0 (length h.s3_key)

abbrev pub s3_result_key : UploadSegmentHeader → Str
s3_result_key h = lit "s3:" ++ (h.s3_bucket ++ (lit "/" ++ h.s3_key))

-- The loop that replicates to every target but the node itself
unfoldable pub replicate : (Str → Option Str) → Str → List Str → Map (Option Str) → Map (Option Str)
replicate transport self [] results = results
replicate transport self (id ∷ ids) results =
    let sent = replicate transport self ids (insert id (transport id) results) in
    let skipped = replicate transport self ids results in if str_eq id self then skipped else sent

-- The map of results once all goroutines are done
unfoldable pub replication_results :
    (Str → Option Str)
    → (Str → Str → Option Str)
    → Str
    → UploadSegmentHeader
    → List Str
    → Map (Option Str)
unfolding replicate
replication_results transport s3 self h targets =
    let sent = replicate transport self targets ((self, none) ∷ []) in
    if to_s3 h then insert (s3_result_key h) (s3 h.s3_bucket h.s3_key) sent else sent

abbrev pub message_of : Option Str → Str
message_of e = elim e [ none ↦ [] | some text ↦ text ]

-- The loop over the results
unfoldable pub acks : Str → Map (Option Str) → List ReplicaAck
acks self [] = []
acks self ((id, e) ∷ results) =
    let rest = acks self results in
    if str_eq id self
    then rest
    else record { node_id = id; success = not (is_some e); error_message = message_of e } ∷ rest

-- The loops that fill `record.Replicas`
unfoldable pub stored_replicas : Str → UploadSegmentHeader → List Str → Map (Option Str) → List Str
stored_replicas self h targets results =
    filter (λ id. not (str_eq id self) && not (is_some (error_of id results))) targets
    ++ (if to_s3 h && not (is_some (error_of (s3_result_key h) results))
        then s3_result_key h ∷ []
        else [])

-- The metadata store of a service: it stores a record or answers with an error.
pub record MetadataStore (S : Type 0) : Type 0 where
  pub put_segment : SegmentRecord → S → S × Option Str

abbrev pub ack_of : Str → Option Str → ReplicaAck
ack_of id e = record { node_id = id; success = not (is_some e); error_message = message_of e }

pub record Service (S : Type 0) : Type 0 where
  pub node_id : Str
  pub ring : RingManager
  pub metadata : Option (MetadataStore S)
  pub replication_factor : ℤ

abbrev pub record_of : Str → Checked → List Str → PutResult → Map (Option Str) → SegmentRecord
record_of self checked targets stored results = record {
  segment_id = checked.header.segment_id;
  locator = checked.locator;
  primary_node = self;
  replicas = stored_replicas self checked.header targets results;
  checksum = stored.checksum;
  size_bytes = stored.size;
  attributes = checked.header.attributes;
}

-- The acknowledgement of the aggregate error
abbrev pub failure_ack : Option (Map Str) → List ReplicaAck
failure_ack none = []
failure_ack (some errors) = ack_of (lit "replication") (some (replication_failed errors)) ∷ []

-- An empty answer of the ring means the node itself.
abbrev pub targets_or_self : Str → List Str → List Str
targets_or_self self [] = self ∷ []
targets_or_self self (t ∷ ts) = t ∷ ts

-- What the service calls and does not implement: the transport to a node, the uploader of S3,
-- SHA-1 and SHA-256, `filepath.Join` with the root, which calls of `os` fail, and whether the
-- answer can be sent.
pub record Environment : Type 0 where
  pub transport : Str → UploadSegmentHeader → Str → Option Str
  pub s3 : Str → Str → Str → Option Str
  pub sha1 : Str → List ℕ
  pub hex_sha256 : Str → Str
  pub full_path : Str → Str → Str
  pub calls : FsCalls
  pub send_error : Option Str

unfoldable pub tail : List Incoming → List Incoming
tail [] = []
tail (x ∷ xs) = xs

module _ {S : Type 0} where
  -- What happens to the metadata store, and the acknowledgements that are added for it.
  unfoldable pub record_segment :
      Option (MetadataStore S) → Option (Map Str) → SegmentRecord → S → S × List ReplicaAck
  record_segment none failed r s = (s, [])
  record_segment (some store) none r s =
      let (after, e) = store.put_segment r s in (after, ack_of (lit "metadata") e ∷ [])
  record_segment (some store) (some errors) r s =
      (s, ack_of (lit "metadata") (some (replication_failed errors)) ∷ [])

  module _ (env : Environment) (service : Service S) where
    -- From the replication on
    unfoldable pub replicate_segment :
        Checked → List Str → Str → PutResult → S → S × UploadSegmentResponse
    unfolding replication_results acks record_segment
    replicate_segment checked targets payload stored s =
        let self = service.node_id in
        let results =
          replication_results (λ id. env.transport id checked.header payload)
            (λ bucket key. env.s3 bucket key payload) self checked.header targets in
        let aggregate = merge_replication_errors results in
        let (after, status) =
          record_segment service.metadata aggregate (record_of self checked targets stored results)
            s in
        (
          after,
          record {
            size_committed = stored.size;
            checksum = stored.checksum;
            replica_status =
                ack_of self none ∷ acks self results ++ (status ++ failure_ack aggregate);
          },
        )

    -- `stream.SendAndClose`
    abbrev pub send_and_close : UploadSegmentResponse → Result UploadSegmentResponse
    send_and_close response = elim env.send_error [
      | none ↦ ok response
      | some e ↦ err (stream_broken e)
    ]

    -- The check of the replica set
    unfoldable pub validated :
        Option StorageError
        → Checked
        → List Str
        → Str
        → PutResult
        → S
        → S × Result UploadSegmentResponse
    unfolding replicate_segment
    validated (some e) checked targets payload stored s = (s, err e)
    validated none checked targets payload stored s =
        let (after, response) = replicate_segment checked targets payload stored s in
        (after, send_and_close response)

    -- The replica set of a segment
    unfoldable pub targets_of : Str → List Str
    unfolding replicas_of
    targets_of segment_id =
        targets_or_self service.node_id
          (replicas_of env.sha1 segment_id service.replication_factor service.ring)

    -- After the file is written, with its error
    unfoldable pub after_put :
        Option Str → Checked → Str → PutResult → S → S × Result UploadSegmentResponse
    unfolding validated targets_of
    after_put (some e) checked payload stored s = (s, err (persist_failed e))
    after_put none checked payload stored s =
        let targets = targets_of checked.header.segment_id in
        validated (validate_replication_targets targets service.node_id) checked targets payload
          stored s

    -- `s.fs.Put` of the payload
    abbrev pub put_payload : Checked → Str → Map Str → Map Str × PutResult
    put_payload checked payload files =
        Files.put env.hex_sha256 env.calls
          (env.full_path checked.locator.bucket checked.locator.object) payload files

    -- After the payload is received: the file is written before the replica set is looked up.
    unfoldable pub after_receive :
        Checked → Result Str → Map Str → S → (Map Str × S) × Result UploadSegmentResponse
    unfolding after_put Files.put
    after_receive checked (err e) files s = ((files, s), err e)
    after_receive checked (ok payload) files s =
        let (files', stored) = put_payload checked payload files in
        let (s', answer) = after_put stored.error checked payload stored s in ((files', s'), answer)

    unfoldable pub after_header :
        Result Checked → List Incoming → Map Str → S → (Map Str × S) × Result UploadSegmentResponse
    unfolding after_receive receive
    after_header (err e) stream files s = ((files, s), err e)
    after_header (ok checked) stream files s = after_receive checked (receive stream []) files s

    unfoldable pub upload_segment :
        List Incoming → Map Str → S → (Map Str × S) × Result UploadSegmentResponse
    unfolding after_header receive_header tail
    upload_segment stream files s = after_header (receive_header stream) (tail stream) files s
