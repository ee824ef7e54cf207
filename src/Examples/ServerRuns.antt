-- ===== src/Examples/ServerRuns.antt =====
-- The HTTP servers of cmd/metadata/main.go and cmd/storage/main.go on one node, and the client of
-- the metadata service.
use tritontube.Base.{
  ◌∷◌, ◌∷◌, ◌∷◌, ◌∷◌, ◌∷◌, ◌∷◌, ◌∷◌, ◌∷◌, ◌++◌, Str, lit, [], ◌∷◌, ◌≡◌, refl, pos, none, some,
  str_eq,
}
use tritontube.Etcd.{new_client}
use tritontube.Metadata.Types
use tritontube.Metadata.Service.{State, nobody}
use tritontube.MetadataServer.{Server, SegmentInfo, SegmentQuery, Outside}
use tritontube.MetadataServer.Requests.{IsNamed}
use tritontube.Storage.Files.{FsCalls}
use tritontube.Rpc
use tritontube.Rpc
use tritontube.Rpc.Metadata
use tritontube.Rpc.Calls.{client_calls, connection, answer, metadata_service}
use tritontube.Metadata.Types.{ServiceError}

-- The ring has one token.
abbrev server : Server
server = record {
  ring = record { vnodes = pos 1; tokens = record { hash = 7; node = lit "n" } ∷ [] };
  svc = record { max_retries = pos 5; key_prefix = lit "m/" };
}

abbrev query : SegmentQuery
query = record { id = lit "v"; rend = lit "720p"; idx_text = lit "3"; idx = pos 3 }

abbrev segment : SegmentInfo
segment = record { video = lit "v"; rend = lit "720p"; idx = pos 3; replicas = lit "n" ∷ [] }

-- Stand-ins for JSON and for the scan of a number.
abbrev outside : Outside
outside = record {
  sha1 = λ s. s;
  encode_item = λ i. i.value;
  encode_info = λ i. i.video;
  decode_info = λ s. record segment { video = s };
  decode_id = λ s. s;
  scan_int = λ s. some (pos 3);
  error_text = λ e. [];
}

abbrev state : State
state = record { store = record { entries = [] }; replica = none; etcd = new_client }

query-IsNamed : IsNamed outside.scan_int query
unfolding str_eq
query-IsNamed = record {
  one_part = (refl, tt);
  id_given = refl;
  rend_given = refl;
  idx_given = refl;
  number = refl;
}

abbrev checksum : Str → Str
checksum s = s

abbrev path : Str → Str → Str
path bucket object = lit "/" ++ (bucket ++ (lit "/" ++ object))

-- The disk does not sync.
abbrev calls : FsCalls
calls = record {
  mkdir_all = none;
  create = none;
  copy = none;
  sync = some (lit "disk");
  close = none;
  rename = none;
  remove = none;
}

abbrev wrapped : Metadata.MetadataServiceServer State
wrapped = metadata_service (λ i. i.value) nobody server.svc

-- A server on which a service of another name is registered.
abbrev busy : Rpc.Server State Metadata.Message ServiceError (Metadata.MetadataServiceServer State)
busy =
    Rpc.register_service (record { service_name = lit "health"; methods = [] }) wrapped
      Rpc.new_server

client_calls_example :
    ((r : Types.PutMetadataRequest)
      → Metadata.put_metadata (connection wrapped busy) r state
        ≡ answer (wrapped.put_metadata r state))
    × ((r : Types.GetMetadataRequest)
        → Metadata.get_metadata (connection wrapped busy) r state
          ≡ answer (wrapped.get_metadata r state))
    × ((r : Types.DeleteMetadataRequest)
        → Metadata.delete_metadata (connection wrapped busy) r state
          ≡ answer (wrapped.delete_metadata r state))
    × ((r : Types.ListMetadataRequest)
        → Metadata.list_metadata (connection wrapped busy) r state
          ≡ answer (wrapped.list_metadata r state))
client_calls_example = client_calls wrapped busy state
