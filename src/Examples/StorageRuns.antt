-- ===== src/Examples/StorageRuns.antt =====
-- An upload to the service of internal/storage/service.go on a cluster of other nodes.
use tritontube.Base.{
  All, true, inc64, false, inl, refl, ◌≡◌, delete, ◌≢◌, insert, ◌⊎◌, lookup, ◌≡◌, ◌++◌, str_eq, Map,
  Str, lit, ℕ, List, [], ◌∷◌, Option, none, some, pos,
}
use tritontube.Chash.{walk, start, hash}
use tritontube.Chash.Search.{search}
use tritontube.Storage.Replication.{merge_replication_errors}
use tritontube.Cluster.{empty_manager}
use tritontube.Storage.Types.{
  ReplicaAck, missing_primary, err, chunk_payload, header_payload, get_header, UploadSegmentHeader,
  SegmentLocator,
}
use tritontube.Storage.Files
use tritontube.Storage.Files.{tmp_of, PutResult, FsCalls}
use tritontube.Storage.Writes.{put-atomic, put-copy_failed}
use tritontube.Chash.Preference.{mem}
use tritontube.Storage.Types
use tritontube.Storage.Acknowledged.{Succeeded, names}
use tritontube.Storage.Upload.{
  s3_result_key, to_s3, replication_results, SegmentRecord, Environment, message, upload_segment,
  receive, check_header, targets_of, Service, Checked,
}
use tritontube.Etcd.{Client, new_client, get}
use tritontube.Storage.Records.{EtcdMetadataStore, metadata_store, record_key}
use tritontube.Storage.Recorded.{upload_segment-Recorded}
use tritontube.Storage.Outcomes.{upload_segment-refused}

abbrev digest : Str → List ℕ
digest s = s

abbrev checksum : Str → Str
checksum s = s

abbrev calls : FsCalls
calls = record {
  mkdir_all = none;
  create = none;
  copy = none;
  sync = none;
  close = none;
  rename = none;
  remove = none;
}

abbrev full : FsCalls
full = record calls { copy = some 1 }

abbrev files : Map Str
files = (lit "/b/o", lit "old") ∷ []

put-atomic_example :
    let r : Map Str × PutResult = Files.put checksum full (lit "/b/o") (lit "new") files in
    ((lookup (lit "/b/o") r.0 ≡ some (lit "new"))
        × (r.1 ≡ record { size = 3; checksum = lit "new"; error = none })
      ⊎ (lookup (lit "/b/o") r.0 ≡ lookup (lit "/b/o") files)
        × (r.1.size ≡ 0)
        × (r.1.checksum ≡ []))
    × ((k : Str) → k ≢ lit "/b/o" → k ≢ tmp_of (lit "/b/o") → lookup k r.0 ≡ lookup k files)
put-atomic_example = put-atomic checksum full (lit "/b/o") (lit "new") files

put-copy_failed_example :
    let r : Map Str × PutResult = Files.put checksum full (lit "/b/o") (lit "new") files in
    (r.1 ≡ record { size = 0; checksum = []; error = none })
    × (lookup (lit "/b/o") r.0 ≡ lookup (lit "/b/o") files)
put-copy_failed_example =
    put-copy_failed checksum full (lit "/b/o") (lit "new") files 1 refl refl refl

abbrev locator : SegmentLocator
locator = record { bucket = lit "b"; object = lit "o" }

abbrev header : UploadSegmentHeader
header = record {
  segment_id = lit "s";
  locator = some locator;
  content_type = [];
  size_bytes = pos 3;
  checksum = [];
  attributes = [];
  s3_bucket = lit "x";
  s3_key = lit "y";
}

abbrev results : Map (Option Str)
results = (lit "n", none) ∷ (lit "m", none) ∷ (lit "s3:x/y", none) ∷ []

-- The ring has one token, of another node.
abbrev service : Service Unit
service = record {
  node_id = lit "n";
  ring = record (empty_manager (lit "/c") (pos 1)) {
    ring = record { vnodes = pos 1; tokens = record { hash = 7; node = lit "m" } ∷ [] };
  };
  metadata = none;
  replication_factor = pos 3;
}

abbrev checked : Checked
checked = record { header = header; locator = locator }

abbrev path : Str → Str → Str
path bucket object = lit "/" ++ (bucket ++ (lit "/" ++ object))

abbrev env : Environment
env = record {
  transport = λ id header payload. none;
  s3 = λ bucket key payload. none;
  sha1 = digest;
  hex_sha256 = checksum;
  full_path = path;
  calls = calls;
  send_error = none;
}

upload_segment-refused_example :
    upload_segment env service
      (message (header_payload (some header)) ∷ message (chunk_payload (lit "new")) ∷ [])
      files
      tt
    ≡ (
      ((Files.put checksum calls (lit "/b/o") (lit "new") files).0, tt),
      err (missing_primary (lit "n")),
    )
unfolding targets_of check_header get_header receive Files.put str_eq insert lookup delete walk
    start search hash
upload_segment-refused_example =
    upload_segment-refused env service (header_payload (some header))
      (message (chunk_payload (lit "new")) ∷ []) checked (lit "new") files tt refl refl refl refl

-- The node is alone on its ring, and records its segments in etcd. The encoding is a stand-in for
-- JSON.
abbrev store : EtcdMetadataStore
store = record { prefix = lit "/s" }

abbrev encode_record : SegmentRecord → Str ⊎ Str
encode_record r = inl r.checksum

abbrev recorder : Service Client
recorder = record {
  node_id = lit "n";
  ring = empty_manager (lit "/c") (pos 1);
  metadata = some (metadata_store (λ e. []) encode_record store);
  replication_factor = pos 3;
}

upload_segment-Recorded_example :
    let r =
      upload_segment env recorder
        (message (header_payload (some header)) ∷ message (chunk_payload (lit "new")) ∷ [])
        files
        new_client in
    ((others : List ReplicaAck) × (r.1
        ≡ Types.ok (record {
          size_committed = 3;
          checksum = lit "new";
          replica_status =
              record { node_id = lit "n"; success = true; error_message = [] } ∷ others
              ++ (record { node_id = lit "metadata"; success = true; error_message = [] } ∷ []);
        }))
      × All Succeeded others
      × ((id : Str)
          → mem id (targets_of env recorder (lit "s")) ≡ true
          → str_eq id (lit "n") ≡ false
          → names id others ≡ true)
      × (to_s3 header ≡ true
          → str_eq (s3_result_key header) (lit "n") ≡ false
          → names (s3_result_key header) others ≡ true))
    × (lookup (lit "/b/o") r.0.0 ≡ some (lit "new"))
    × ((get r.0.1 (lit "/s/s") false).kvs
        ≡ record { key = lit "/s/s"; value = lit "new"; mod_revision = pos 1 } ∷ [])
unfolding targets_of check_header get_header receive Files.put str_eq insert lookup delete walk
    start search hash record_key merge_replication_errors replication_results inc64
upload_segment-Recorded_example =
    upload_segment-Recorded (λ e. []) encode_record env recorder store refl
      (header_payload (some header)) (message (chunk_payload (lit "new")) ∷ []) checked (lit "new")
      (lit "new") files new_client refl refl refl refl refl refl (λ id there other. refl)
      (λ asked. refl) refl
