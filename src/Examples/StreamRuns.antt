-- ===== src/Examples/StreamRuns.antt =====
-- The streams of internal/storage: a segment that is read, and an upload in the same process.
use tritontube.Base.{
  lit, [], ◌∷◌, ◌++◌, ◌≡◌, refl, pos, none, some, map, ℕ, List, length, any, true, false, ◌≤◌, inl,
}
use tritontube.Cluster.{empty_manager}
use tritontube.Storage.Types.{
  SegmentLocator, UploadSegmentHeader, UploadSegmentRequest, header_payload, chunk_payload,
  get_header, get_commit, GetSegmentRequest, read_failed, err,
}
use tritontube.Storage.Upload.{Environment, Service, message, upload_segment, check_header}
use tritontube.Storage.Segments.{
  Reader, read, last, Sent, get_segment, get_segment_lem, chunks, eofs, bytes_of, end_of,
}
use tritontube.Storage.Stream.{invoke_over_stream, invoke_over_stream_returns}

abbrev pub locator : SegmentLocator
locator = record { bucket = lit "b"; object = lit "o" }

abbrev pub request : GetSegmentRequest
request = record { locator = some locator; offset = pos 0; length = pos 0 }

-- A file in three reads, of which one gives nothing and the last gives an error with its bytes.
abbrev reader : Reader
reader = read (lit "ab") (read [] (last (lit "c") (some (lit "disk"))))

get_segment_example :
    let s : Sent = get_segment (λ n. none) (some request) (λ bucket object. inl reader) in
    (chunks s.0 ≡ lit "abc") × (eofs s.0 ≡ 0) × (s.1 ≡ err (read_failed (lit "disk")))
unfolding bytes_of end_of
get_segment_example = get_segment_lem request locator reader refl

abbrev pub header : UploadSegmentHeader
header = record {
  segment_id = lit "s";
  locator = some locator;
  content_type = [];
  size_bytes = pos 3;
  checksum = [];
  attributes = [];
  s3_bucket = [];
  s3_key = [];
}

abbrev pub service : Service Unit
service = record {
  node_id = lit "n";
  ring = empty_manager (lit "/c") (pos 1);
  metadata = none;
  replication_factor = pos 3;
}

abbrev pub env : Environment
env = record {
  transport = λ id header payload. none;
  s3 = λ bucket key payload. none;
  sha1 = λ s. s;
  hex_sha256 = λ s. s;
  full_path = λ bucket object. bucket ++ object;
  calls = record {
    mkdir_all = none;
    create = none;
    copy = none;
    sync = none;
    close = none;
    rename = none;
    remove = none;
  };
  send_error = none;
}

abbrev uncommitted : List UploadSegmentRequest
uncommitted = chunk_payload (lit "new") ∷ []

invoke_over_stream_returns_example :
    ((fuel : ℕ)
      → length uncommitted ≤ fuel
      → any get_commit uncommitted ≡ true
      → invoke_over_stream env service fuel (header_payload (some header) ∷ uncommitted) [] tt
        ≡ some (
            upload_segment env service
              (map message (header_payload (some header) ∷ uncommitted))
              []
              tt))
    × ((fuel : ℕ)
        → any get_commit uncommitted ≡ false
        → invoke_over_stream env service fuel (header_payload (some header) ∷ uncommitted) [] tt
          ≡ none)
unfolding check_header get_header
invoke_over_stream_returns_example =
    invoke_over_stream_returns env service (header_payload (some header)) uncommitted
      (record { header = header; locator = locator }) [] tt refl
