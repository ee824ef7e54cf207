-- ===== src/Examples/WebRuns.antt =====
-- An upload and a view through cmd/web/main.go, on a network with two storage servers of which one
-- cannot write.
use tritontube.Base.{
  map, ◌++◌, false, drop, has_prefix, Str, lit, str_eq, [], ◌∷◌, ◌≡◌, refl, Option, none, some,
  lookup, ◌||◌, if◌then◌else◌, ◌≤◌, ◌<◌,
}
use tritontube.Http.{Response, respond}
use tritontube.WebServer.{Outside, Tally, written, missed, metadata_url, object_path, handle_upload}
use tritontube.WebServer.Quorum.{
  answered, accepted, statuses_of, puts, upload_request, handle_upload_quorum, bases_of,
}
use tritontube.WebServer.Blobs.{IsStorage}
use tritontube.WebServer.Network.{send_to, Network, World, Reached, network_of, network-IsStorage}
use tritontube.Storage.Files.{FsCalls}
use tritontube.StorageServer
use tritontube.WebServer.View.{IsPath}

abbrev pub object : Str
object = object_path (lit "v") (lit "hd") (lit "3")

abbrev pub create_url : Str
create_url = metadata_url (lit "http://m") (lit "/segments") (lit "v") (lit "hd") (lit "3")

abbrev pub locate_url : Str
locate_url = metadata_url (lit "http://m") (lit "/segments/loc") (lit "v") (lit "hd") (lit "3")

-- Two storage servers. The metadata server keeps no state here.
abbrev pub split_url : Str → Option (Str × Str)
split_url url =
    if has_prefix url (lit "http://b")
    then some (lit "b", drop 8 url)
    else if has_prefix url (lit "http://c")
    then some (lit "c", drop 8 url)
    else none

abbrev pub metadata_answer : Str → Str → Str → Unit {0} → Unit {0} × Option (Response Str)
metadata_answer method url body m =
    (m, if str_eq url create_url || str_eq url locate_url then some (respond 200 []) else none)

-- The first of the servers cannot create files.
abbrev calls : Str → FsCalls
calls host = record {
  mkdir_all = none;
  create = if str_eq host (lit "b") then some (lit "disk") else none;
  copy = none;
  sync = none;
  close = none;
  rename = none;
  remove = none;
}

abbrev pub answer_body : StorageServer.Body → Str
answer_body (StorageServer.text s) = s
answer_body (StorageServer.stored size sum bucket name) = sum
answer_body (StorageServer.content c) = c

abbrev pub net : Network (Unit {0})
net = record {
  split_url = split_url;
  elsewhere = metadata_answer;
  hex_sha256 = λ s. s;
  full_path = λ bucket name. bucket ++ (lit "/" ++ name);
  calls = calls;
  body_text = answer_body;
  decode_replicas = λ s. some (lit "http://b" ∷ lit "http://c/" ∷ []);
  decode_put = λ s. (3, s);
}

abbrev pub outside : Outside (World (Unit {0}))
outside = network_of net

abbrev pub start : World (Unit {0})
start = (tt, λ host. [])

pub object_given : str_eq object [] ≡ false
unfolding str_eq
object_given = refl

network-IsStorage_example : IsStorage outside object (Reached net object)
network-IsStorage_example =
    network-IsStorage net object object_given (λ host. refl) (λ c. refl) (λ url m. refl)

pub segment-IsPath : IsPath (lit "v") (lit "hd") (lit "3")
unfolding str_eq
segment-IsPath = record {
  given = record { id_given = refl; rend_given = refl; idx_given = refl };
  id_part = (refl, tt);
  rend_part = (refl, (refl, tt));
  idx_part = (refl, tt);
}

handle_upload_quorum_example :
    let (w', replies) =
      puts outside (lit "v/hd/3") (lit "new") (lit "http://b" ∷ lit "http://c/" ∷ []) start in
    let upload =
      handle_upload outside
        (lit "http://m")
        1
        (upload_request (lit "v") (lit "hd") (lit "3"))
        (some (lit "new"))
        start in
    (upload.0 ≡ w')
    × (t : Tally) × (bases_of t.results ≡ lit "http://b" ∷ lit "http://c/" ∷ [])
    × (statuses_of t.results ≡ map answered replies)
    × (t.success ≡ accepted replies)
    × (1 ≤ accepted replies → upload.1 ≡ respond 201 (written 1 t (lit "videos/v/hd/3")))
    × (accepted replies < 1 → upload.1 ≡ respond 502 (missed 1 t))
unfolding str_eq metadata_url lookup send_to has_prefix
handle_upload_quorum_example =
    handle_upload_quorum outside (lit "http://m") (lit "v") (lit "hd") (lit "3") (lit "new") 1
      (lit "http://b") (lit "http://c/" ∷ []) start start (respond 200 []) segment-IsPath.given refl
      refl refl
