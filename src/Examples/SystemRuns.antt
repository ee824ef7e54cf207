-- ===== src/Examples/SystemRuns.antt =====
-- The three servers of cmd/ together, with one storage server.
use tritontube.Base.{
  arith, drop, has_prefix, All, Str, lit, str_eq, pos, [], ◌∷◌, ◌++◌, ◌≡◌, refl, Option, none, some,
  Map, lookup, insert, if◌then◌else◌,
}
use tritontube.Http.{respond}
use tritontube.Chash.{lookup_key, walk, start, hash}
use tritontube.Chash.Search.{search}
use tritontube.Etcd
use tritontube.Etcd.{new_client}
use tritontube.Pgx
use tritontube.Metadata.Service.{State}
use tritontube.MetadataServer
use tritontube.MetadataServer.{Server, SegmentQuery, SegmentInfo}
use tritontube.MetadataServer.Requests.{IsNamed}
use tritontube.StorageServer
use tritontube.WebServer.{content, blob_url, metadata_url, handle_upload, handle_view}
use tritontube.WebServer.Quorum.{upload_request}
use tritontube.WebServer.View.{IsPath, view_request}
use tritontube.WebServer.Network.{send_to, Network, World, Reached}
use tritontube.WebServer.System.{IsAddressed, web, metadata_send, handle_view-handle_upload_system}

abbrev server : Server
server = record {
  ring = record { vnodes = pos 1; tokens = record { hash = 7; node = lit "http://c/" } ∷ [] };
  svc = record { max_retries = pos 5; key_prefix = lit "m/" };
}

abbrev query : SegmentQuery
query = record { id = lit "v"; rend = lit "hd"; idx_text = lit "3"; idx = pos 3 }

abbrev segment : SegmentInfo
segment = record { video = lit "v"; rend = lit "hd"; idx = pos 3; replicas = lit "http://c/" ∷ [] }

-- Stand-ins for JSON and for the scan of a number.
abbrev outside : MetadataServer.Outside
outside = record {
  sha1 = λ s. s;
  encode_item = λ i. i.value;
  encode_info = λ i. i.video;
  decode_info = λ s. record segment { video = s };
  decode_id = λ s. s;
  scan_int = λ s. some (pos 3);
  error_text = λ e. [];
}

abbrev parse_url : Str → Option (Str × Map Str)
parse_url url =
    let values = (lit "rend", lit "hd") ∷ (lit "idx", lit "3") ∷ [] in
    if str_eq url (lit "http://m/videos/v/segments?rend=hd&idx=3")
    then some (lit "/videos/v/segments", values)
    else if str_eq url (lit "http://m/videos/v/segments/loc?rend=hd&idx=3")
    then some (lit "/videos/v/segments/loc", values)
    else none

abbrev answer_text : MetadataServer.Body → Str
answer_text (MetadataServer.text s) = s
answer_text (MetadataServer.created id) = id
answer_text (MetadataServer.located info) = info.video

abbrev blob_text : StorageServer.Body → Str
blob_text (StorageServer.text s) = s
blob_text (StorageServer.stored size sum bucket name) = sum
blob_text (StorageServer.content c) = c

abbrev net : Network State
net = record {
  split_url = λ url. if has_prefix url (lit "http://c") then some (lit "c", drop 8 url) else none;
  elsewhere = λ method url body st. (st, none);
  hex_sha256 = λ s. s;
  full_path = λ bucket name. bucket ++ (lit "/" ++ name);
  calls = λ host. record {
    mkdir_all = none;
    create = none;
    copy = none;
    sync = none;
    close = none;
    rename = none;
    remove = none;
  };
  body_text = blob_text;
  decode_replicas = λ s. some (lit "http://c/" ∷ []);
  decode_put = λ s. (3, s);
}

abbrev begin : World State
begin = (record { store = record { entries = [] }; replica = none; etcd = new_client }, λ host. [])

query-IsNamed : IsNamed outside.scan_int query
unfolding str_eq
query-IsNamed = record {
  one_part = (refl, tt);
  id_given = refl;
  rend_given = refl;
  idx_given = refl;
  number = refl;
}

query-IsPath : IsPath (lit "v") (lit "hd") (lit "3")
unfolding str_eq
query-IsPath = record {
  given = record { id_given = refl; rend_given = refl; idx_given = refl };
  id_part = (refl, tt);
  rend_part = (refl, (refl, tt));
  idx_part = (refl, tt);
}

query-IsAddressed : IsAddressed outside server parse_url answer_text net (lit "http://m") query
unfolding str_eq has_prefix metadata_url
query-IsAddressed = record {
  create_elsewhere = refl;
  create_parsed = refl;
  locate_elsewhere = refl;
  locate_parsed = refl;
}

blob-Reached : All (Reached net (lit "v/hd/3")) (lit "http://c/" ∷ [])
unfolding blob_url has_prefix str_eq
blob-Reached = ((lit "c", refl), tt)

handle_view-handle_upload_system_example :
    let upload =
      handle_upload
        (web outside server parse_url answer_text net)
        (lit "http://m")
        1
        (upload_request (lit "v") (lit "hd") (lit "3"))
        (some (lit "new"))
        begin in
    handle_view
      (web outside server parse_url answer_text net)
      (lit "http://m")
      (view_request (lit "v") (lit "hd") (lit "3"))
      upload.0
    ≡ (upload.0, respond 200 (content (lit "new")))
unfolding walk start search hash str_eq lookup_key lookup insert handle_upload send_to has_prefix
    metadata_url metadata_send blob_url Pgx.begin_tx Pgx.get Pgx.put Pgx.commit Etcd.commit
handle_view-handle_upload_system_example =
    handle_view-handle_upload_system outside server parse_url answer_text net (lit "http://m")
      (lit "new") 1 query (lit "http://c/") [] begin.0 begin.1 query-IsAddressed query-IsNamed
      query-IsPath (omega arith) refl blob-Reached (λ host. refl) (λ host. refl) (λ c. refl) refl
      refl refl refl refl
