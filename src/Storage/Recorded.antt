-- ===== src/Storage/Recorded.antt =====
-- An upload (`UploadSegment` of internal/storage/service.go) that puts its record into etcd.
use tritontube.Storage.Records.{EtcdMetadataStore, record_key, metadata_store, put_segment_lem}
use tritontube.Base.{
  if◌then◌else◌, not, filter, All, Str, lit, str_eq, inc64, true, false, List, [], ◌∷◌, ◌++◌,
  Option, none, some, Map, lookup, length, ltb, ◌≡◌, refl, ap, ap₂, sym, ◌∙◌, ◌⊎◌, inl, inr,
  Bool-cases,
}
use tritontube.Chash.Preference.{mem}
use tritontube.Etcd
use tritontube.Etcd.{Client, EtcdError, TxnResponse}
use tritontube.Etcd.Reads.{get-put}
use tritontube.Storage.Types.{
  UploadSegmentHeader, SegmentLocator, ReplicaAck, segment_id_required, SegmentLocator,
  UploadSegmentHeader, Result, ok, err, UploadSegmentRequest, UploadSegmentResponse, get_header,
}
use tritontube.Storage.Writes
use tritontube.Storage.Acknowledged.{
  Succeeded, names, acks-results, acks-targets, acks-s3, results-succeeded,
}
use tritontube.Storage.Outcomes.{stored_replicas_complete}
use tritontube.Storage.Files.{PutResult}
use tritontube.Storage.Replication.{merge_replication_errors, validate_replication_targets_lem}
use tritontube.Storage.Upload.{
  s3_result_key, to_s3, check_locator, SegmentRecord, Environment, Service, Checked, Incoming,
  message, check_header, receive, put_payload, targets_of, record_of, replication_results,
  record_segment, replicate_segment, ack_of, acks, failure_ack, send_and_close, upload_segment,
  receive_header, after_header, after_receive, after_put, validated, tail,
}

-- A header that passes the check names its segment.
segment_named :
    (header : Option UploadSegmentHeader) (checked : Checked)
    → check_header header ≡ ok checked
    → str_eq checked.header.segment_id [] ≡ false
segment_named none checked h = unfold check_header in cc
segment_named (some x) checked h = unfold check_header in by_locator x.locator h
  where
    given : (id : Str) → ltb 0 (length id) ≡ true → str_eq id [] ≡ false
    given [] p = cc
    given (c ∷ s) p = unfold str_eq in refl

    by_locator :
        (o : Option SegmentLocator)
        → check_locator x o ≡ ok checked
        → str_eq checked.header.segment_id [] ≡ false
    by_locator none e = cc
    by_locator (some l) e = elim (Bool-cases (ltb 0 (length x.segment_id))) [
      | inl p ↦
          let same : ok (record { header = x; locator = l }) ≡ ok checked = rw p at e in
          let named : x ≡ checked.header = cc in
          ap (λ (u : UploadSegmentHeader). str_eq u.segment_id []) (sym named)
          ∙ given x.segment_id p
      | inr p ↦ let no : err segment_id_required ≡ ok checked = rw p at e in cc
    ]

module _ (error_text : EtcdError → Str) (encode : SegmentRecord → Str ⊎ Str) (env : Environment)
    (service : Service Client) (store : EtcdMetadataStore)
    (recording : service.metadata ≡ some (metadata_store error_text encode store)) where
  -- What the replicas of a segment answered.
  abbrev pub results_of : Checked → Str → Map (Option Str)
  results_of checked payload =
      replication_results (λ id. env.transport id checked.header payload)
        (λ bucket key. env.s3 bucket key payload) service.node_id checked.header
        (targets_of env service checked.header.segment_id)

  abbrev pub written_record : Checked → Str → PutResult → SegmentRecord
  written_record checked payload stored =
      record_of service.node_id checked (targets_of env service checked.header.segment_id) stored
        (results_of checked payload)

  -- The answer to an upload of which nothing has failed
  abbrev pub full_response : Checked → Str → PutResult → UploadSegmentResponse
  full_response checked payload stored = record {
    size_committed = stored.size;
    checksum = stored.checksum;
    replica_status =
        ack_of service.node_id none ∷ acks service.node_id (results_of checked payload)
        ++ (ack_of (lit "metadata") none ∷ []);
  }

  replicated :
      (checked : Checked) (payload text : Str) (stored : PutResult) (c : Client)
      → str_eq checked.header.segment_id [] ≡ false
      → merge_replication_errors (results_of checked payload) ≡ none
      → encode (written_record checked payload stored) ≡ inl text
      → replicate_segment env service checked
          (targets_of env service checked.header.segment_id)
          payload
          stored
          c
        ≡ (
          (Etcd.put (record_key store checked.header.segment_id) text c).0,
          full_response checked payload stored,
        )
  unfolding replicate_segment
  replicated checked payload text stored c named merged encoded =
      let pair : Client × List ReplicaAck → Option (Map Str) → Client × UploadSegmentResponse =
        λ p failed. (
          p.0,
          record {
            size_committed = stored.size;
            checksum = stored.checksum;
            replica_status =
                ack_of service.node_id none ∷ acks service.node_id (results_of checked payload)
                ++ (p.1 ++ failure_ack failed);
          },
        ) in
      ap₂ pair (recorded (written_record checked payload stored) text c named merged encoded) merged
    where
      recorded :
          (r : SegmentRecord) (text : Str) (c : Client)
          → str_eq r.segment_id [] ≡ false
          → merge_replication_errors (results_of checked payload) ≡ none
          → encode r ≡ inl text
          → record_segment service.metadata
              (merge_replication_errors (results_of checked payload))
              r
              c
            ≡ (
              (Etcd.put (record_key store r.segment_id) text c).0,
              ack_of (lit "metadata") none ∷ [],
            )
      recorded r text c n m e =
          ap (λ o. record_segment o (merge_replication_errors (results_of checked payload)) r c)
            recording
          ∙ ap (λ o. record_segment (some (metadata_store error_text encode store)) o r c) m
          ∙ unfold record_segment in rw (put_segment_lem error_text encode store r text c n e) refl

  recorded_run :
      (request : UploadSegmentRequest) (stream : List Incoming) (checked : Checked)
      (payload text : Str) (files : Map Str) (c : Client)
      → check_header (get_header request) ≡ ok checked
      → receive stream [] ≡ ok payload
      → let stored : Map Str × PutResult = put_payload env service checked payload files in
        stored.1.error ≡ none
        → env.calls.copy ≡ none
        → mem service.node_id (targets_of env service checked.header.segment_id) ≡ true
        → merge_replication_errors (results_of checked payload) ≡ none
        → encode (written_record checked payload stored.1) ≡ inl text
        → let r = upload_segment env service (message request ∷ stream) files c in
          let key : Str = record_key store checked.header.segment_id in
          (r.1 ≡ send_and_close env service (full_response checked payload stored.1))
          × (lookup (env.full_path checked.locator.bucket checked.locator.object) r.0.0
              ≡ some payload)
          × ((Etcd.get r.0.1 key false).kvs
              ≡ record { key = key; value = text; mod_revision = inc64 c.revision } ∷ [])
  unfolding upload_segment receive_header after_header after_receive after_put validated tail
  recorded_run request stream checked payload text files c h r p copied m merged encoded =
      let stored : Map Str × PutResult = put_payload env service checked payload files in
      let targets : List Str = targets_of env service checked.header.segment_id in
      let key : Str = record_key store checked.header.segment_id in
      let paired : Client × Result UploadSegmentResponse
          → (Map Str × Client) × Result UploadSegmentResponse =
        λ r. ((stored.0, r.0), r.1) in
      let sent : Client × UploadSegmentResponse → Client × Result UploadSegmentResponse =
        λ q. (q.0, send_and_close env service q.1) in
      let run =
        ap (λ o. after_header env service o stream files c) h
        ∙ ap (λ o. after_receive env service checked o files c) r
        ∙ ap (λ o. paired (after_put env service o checked payload stored.1 c)) p
        ∙ ap (λ o. paired (validated env service o checked targets payload stored.1 c))
            ((validate_replication_targets_lem targets service.node_id).1 m)
        ∙ ap (λ q. paired (sent q))
            (replicated checked payload text stored.1 c
              (segment_named (get_header request) checked h) merged encoded) in
      rw run (
        refl,
        Writes.put_ok env.hex_sha256 env.calls
            (env.full_path checked.locator.bucket checked.locator.object) payload files copied p,
        (get-put key text c).1,
      )

  -- The record of an upload to which every replica has agreed: it names all targets but the node
  -- itself, and S3 if the header asks for it.
  abbrev pub expected_record : Checked → PutResult → SegmentRecord
  expected_record checked stored = record {
    segment_id = checked.header.segment_id;
    locator = checked.locator;
    primary_node = service.node_id;
    replicas =
        filter (λ id. not (str_eq id service.node_id))
          (targets_of env service checked.header.segment_id)
        ++ (if to_s3 checked.header then s3_result_key checked.header ∷ [] else []);
    checksum = stored.checksum;
    size_bytes = stored.size;
    attributes = checked.header.attributes;
  }

  written_record_lem :
      (checked : Checked) (payload : Str) (stored : PutResult)
      → merge_replication_errors (results_of checked payload) ≡ none
      → written_record checked payload stored ≡ expected_record checked stored
  written_record_lem checked payload stored merged =
      ap (λ rs. record (expected_record checked stored) { replicas = rs })
        (stored_replicas_complete service.node_id checked.header
          (targets_of env service checked.header.segment_id) (results_of checked payload) merged)

  -- An upload to a node of the segment's replica set, with a sound header and a whole stream, of
  -- which no call fails: no call of `os`, no replica, no S3 upload, no encoding and no sending of the
  -- answer. The answer holds the size and the checksum of the write. It acknowledges the node first
  -- and the record last, and between them successes only, among them one for every other node of the
  -- replica set, and one for S3 if the header asks for it. The file then holds the payload, and etcd
  -- holds, under the key of the segment, the encoding of a record with the segment's name, place and
  -- attributes, this node as the primary, all other replicas, and the size and the checksum.
  pub upload_segment-Recorded :
      (request : UploadSegmentRequest) (stream : List Incoming) (checked : Checked)
      (payload text : Str) (files : Map Str) (c : Client)
      → check_header (get_header request) ≡ ok checked
      → receive stream [] ≡ ok payload
      → let stored : Map Str × PutResult = put_payload env service checked payload files in
        let targets : List Str = targets_of env service checked.header.segment_id in
        stored.1.error ≡ none
        → env.calls.copy ≡ none
        → env.send_error ≡ none
        → mem service.node_id targets ≡ true
        → ((id : Str)
            → mem id targets ≡ true
            → str_eq id service.node_id ≡ false
            → env.transport id checked.header payload ≡ none)
        → (to_s3 checked.header ≡ true
            → env.s3 checked.header.s3_bucket checked.header.s3_key payload ≡ none)
        → encode (expected_record checked stored.1) ≡ inl text
        → let r = upload_segment env service (message request ∷ stream) files c in
          let key : Str = record_key store checked.header.segment_id in
          ((others : List ReplicaAck) × (r.1
              ≡ ok (record {
                size_committed = stored.1.size;
                checksum = stored.1.checksum;
                replica_status =
                    record { node_id = service.node_id; success = true; error_message = [] }
                      ∷ others
                    ++ (record { node_id = lit "metadata"; success = true; error_message = [] }
                        ∷ []);
              }))
            × All Succeeded others
            × ((id : Str)
                → mem id targets ≡ true
                → str_eq id service.node_id ≡ false
                → names id others ≡ true)
            × (to_s3 checked.header ≡ true
                → str_eq (s3_result_key checked.header) service.node_id ≡ false
                → names (s3_result_key checked.header) others ≡ true))
          × (lookup (env.full_path checked.locator.bucket checked.locator.object) r.0.0
              ≡ some payload)
          × ((Etcd.get r.0.1 key false).kvs
              ≡ record { key = key; value = text; mod_revision = inc64 c.revision } ∷ [])
  upload_segment-Recorded request stream checked payload text files c h r p copied unbroken m sent
        kept encoded =
      let stored : Map Str × PutResult = put_payload env service checked payload files in
      let targets : List Str = targets_of env service checked.header.segment_id in
      let transport : Str → Option Str = λ id. env.transport id checked.header payload in
      let s3 : Str → Str → Option Str = λ bucket key. env.s3 bucket key payload in
      let merged =
        results-succeeded transport service.node_id s3 checked.header targets sent kept in
      let run =
        recorded_run request stream checked payload text files c h r p copied m merged
          (ap encode (written_record_lem checked payload stored.1 merged) ∙ encoded) in
      (
        (
          acks service.node_id (results_of checked payload),
          run.0 ∙ rw unbroken refl,
          acks-results transport s3 service.node_id checked.header targets merged,
          acks-targets transport s3 service.node_id checked.header targets,
          acks-s3 transport s3 service.node_id checked.header targets,
        ),
        run.1,
        run.2,
      )
