-- ===== src/Examples/NodeRuns.antt =====
-- A segment that is uploaded to a node of internal/storage and read from it, with one node on the ring.
use tritontube.Base.{
  true, Str, lit, List, [], ◌∷◌, ◌≡◌, refl, pos, none, some, Option, ◌⊎◌, inl, inr, str_eq,
}
use tritontube.Etcd.{new_client}
use tritontube.Cluster.{empty_manager}
use tritontube.Storage.Types.{UploadSegmentResponse, header_payload, chunk_payload, get_header, ok}
use tritontube.Storage.Upload.{Incoming, message, check_header, receive, upload_segment}
use tritontube.Storage.Replication.{validate_replication_targets, merge_replication_errors}
use tritontube.Storage.Segments.{Reader, last, chunks, eofs, bytes_of, end_of}
use tritontube.Storage.Server.{State, storage_service}
use tritontube.Storage.RoundTrip.{server, get_segment-upload_segment}
use tritontube.Examples.ClusterRuns.{by_hash, by_token, encode, decode}
use tritontube.Examples.StreamRuns.{env, service, header, locator, request}

abbrev open_file : Option Str → Reader ⊎ Str
open_file none = inr (lit "missing")
open_file (some c) = inl (last c none)

abbrev start : State Unit
start = record {
  files = [];
  metadata = tt;
  ring = empty_manager (lit "/c") (pos 1);
  etcd = new_client;
}

abbrev stream : List Incoming
stream = message (chunk_payload (lit "ne")) ∷ message (chunk_payload (lit "w")) ∷ []

abbrev response : UploadSegmentResponse
response = record {
  size_committed = 3;
  checksum = lit "new";
  replica_status = record { node_id = lit "n"; success = true; error_message = [] } ∷ [];
}

get_segment-upload_segment_example :
    let node =
      server env service
        (λ s. s)
        by_hash
        by_token
        encode
        decode
        open_file
        (pos 15)
        (lit "t")
        (lit "p") in
    let upload = node.upload_segment (message (header_payload (some header)) ∷ stream) start in
    let sent = (node.get_segment (some request) upload.0).1 in
    (chunks sent.0 ≡ lit "new") × (eofs sent.0 ≡ 1) × (sent.1 ≡ ok tt)
unfolding check_header get_header receive bytes_of end_of storage_service upload_segment
    validate_replication_targets str_eq merge_replication_errors
get_segment-upload_segment_example =
    get_segment-upload_segment env service (λ s. s) by_hash by_token encode decode open_file
      (pos 15) (lit "t") (lit "p") (header_payload (some header)) stream
      (record { header = header; locator = locator }) (lit "new") start response request
      (last (lit "new") none) refl refl refl refl refl refl refl refl
