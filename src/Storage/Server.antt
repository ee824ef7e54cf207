-- ===== src/Storage/Server.antt =====
-- The server API of internal/storage/proto/storage.pb.go, the server that implements nothing, and the
-- service of internal/storage/service.go as a server.
use tritontube.Base.{ℕ, Str, lit, Int64, List, [], Option, Map, ◌⊎◌}
use tritontube.Base.Sort.{SliceSort}
use tritontube.Chash.{hash_less}
use tritontube.Etcd.{Client}
use tritontube.Cluster.{RingManager, RingState, assignment_less}
use tritontube.Storage.Types.{
  UploadSegmentResponse, GetSegmentRequest, HeartbeatRequest, HeartbeatResponse, RebalanceRequest,
  RebalanceResponse, Result, ok, err, not_implemented,
}
use tritontube.Storage.Upload.{Incoming, Environment, Service, upload_segment}
use tritontube.Storage.Segments.{Reader, Sent, get_segment}
use tritontube.Storage.Files
use tritontube.Storage.Nodes.{heartbeat, rebalance}

-- `StorageServiceServer`. The stream of an upload is what its `Recv` returns, that of a read is what
-- was sent over it.
pub record StorageServiceServer (W : Type 0) : Type 0 where
  pub upload_segment : List Incoming → W → W × Result UploadSegmentResponse
  pub get_segment : Option GetSegmentRequest → W → W × Sent
  pub heartbeat : Option HeartbeatRequest → W → W × Result HeartbeatResponse
  pub rebalance : RebalanceRequest → W → W × Result RebalanceResponse

-- `UnimplementedStorageServiceServer`
unfoldable pub unimplemented_server : {W : Type 0} → StorageServiceServer W
unimplemented_server = record {
  upload_segment = λ stream w. (w, err (not_implemented (lit "UploadSegment")));
  get_segment = λ req w. (w, ([], err (not_implemented (lit "GetSegment"))));
  heartbeat = λ req w. (w, err (not_implemented (lit "Heartbeat")));
  rebalance = λ req w. (w, err (not_implemented (lit "Rebalance")));
}

-- What the methods of the service change: the files, the state of the metadata store, and the ring
-- manager with its etcd.
pub record State (S : Type 0) : Type 0 where
  pub files : Map Str
  pub metadata : S
  pub ring : RingManager
  pub etcd : Client

module _ {S : Type 0} (env : Environment) (service : Service S) (sha1 : Str → List ℕ)
    (by_hash : SliceSort hash_less) (by_token : SliceSort assignment_less)
    (encode : RingState → Option Str) (decode : Str → Option RingState)
    (open_file : Option Str → Reader ⊎ Str) (send_error : ℕ → Option Str) (lease : Int64)
    (now plan_id : Str) where
  -- `*Service`, at the time `now`. `open_file` is what `os.Open` and the calls of `Read` give of the
  -- content of a file, or of a missing one.
  unfoldable pub storage_service : StorageServiceServer (State S)
  unfolding upload_segment get_segment heartbeat rebalance Files.get
  storage_service = record {
    upload_segment = λ stream w.
        let (after, answer) =
          upload_segment env (record service { ring = w.ring }) stream w.files w.metadata in
        (record w { files = after.0; metadata = after.1 }, answer);
    get_segment = λ req w. (
      w,
      get_segment send_error req
          (λ bucket object. open_file (Files.get (env.full_path bucket object) w.files)),
    );
    heartbeat = λ req w.
        let (after, answer) =
          heartbeat sha1 by_hash by_token encode decode lease now req w.ring w.etcd in
        (record w { ring = after.0; etcd = after.1 }, answer);
    rebalance = λ req w. (w, ok (rebalance plan_id req w.ring));
  }
