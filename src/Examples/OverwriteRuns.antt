-- ===== src/Examples/OverwriteRuns.antt =====
-- A second upload of a segment through cmd/web/main.go, over an older blob.
use tritontube.Base.{
  All, lit, str_eq, [], ◌∷◌, ◌≡◌, refl, none, some, lookup, insert, arith, has_prefix,
}
use tritontube.Http.{respond}
use tritontube.WebServer.{content, blob_url, metadata_url, handle_upload, handle_view}
use tritontube.WebServer.Quorum.{upload_request}
use tritontube.WebServer.Network.{send_to, Network, World, network_of, Reached, network-IsStorage}
use tritontube.WebServer.View.{view_request}
use tritontube.WebServer.Overwrite.{handle_view-handle_upload_first}
use tritontube.WebServer.Stale.{handle_view-stale}
use tritontube.Examples.WebRuns.{net, object, object_given, segment-IsPath}

-- Both servers hold an older blob.
abbrev older : World (Unit {0})
older = (tt, λ host. (lit "videos/v/hd/3", lit "old") ∷ [])

-- Both servers can write.
abbrev healthy : Network (Unit {0})
healthy = record net {
  calls = λ host. record {
    mkdir_all = none;
    create = none;
    copy = none;
    sync = none;
    close = none;
    rename = none;
    remove = none;
  };
}

both_healthy : All (Reached healthy object) (lit "http://b" ∷ lit "http://c/" ∷ [])
unfolding blob_url has_prefix str_eq
both_healthy = ((lit "b", refl), ((lit "c", refl), tt))

handle_view-handle_upload_first_example :
    let upload =
      handle_upload
        (network_of healthy)
        (lit "http://m")
        2
        (upload_request (lit "v") (lit "hd") (lit "3"))
        (some (lit "new"))
        older in
    handle_view
      (network_of healthy)
      (lit "http://m")
      (view_request (lit "v") (lit "hd") (lit "3"))
      upload.0
    ≡ (upload.0, respond 200 (content (lit "new")))
unfolding str_eq metadata_url lookup handle_upload insert send_to has_prefix
handle_view-handle_upload_first_example =
    handle_view-handle_upload_first (network_of healthy) (lit "http://m") (lit "v") (lit "hd")
      (lit "3") (lit "new") 2 (lit "http://b") (lit "http://c/" ∷ []) older older (respond 200 [])
      (respond 200 [])
      (network-IsStorage healthy object object_given (λ host. refl) (λ c. refl) (λ url m. refl))
      both_healthy segment-IsPath (omega arith) refl refl refl refl refl refl refl

handle_view-stale_example :
    let upload =
      handle_upload
        (network_of net)
        (lit "http://m")
        1
        (upload_request (lit "v") (lit "hd") (lit "3"))
        (some (lit "new"))
        older in
    (upload.1.status ≡ 201)
    × (handle_view
          (network_of net)
          (lit "http://m")
          (view_request (lit "v") (lit "hd") (lit "3"))
          upload.0
        ≡ (upload.0, respond 200 (content (lit "old"))))
unfolding str_eq blob_url metadata_url lookup handle_upload insert send_to has_prefix
handle_view-stale_example =
    handle_view-stale net (lit "http://m") (lit "v") (lit "hd") (lit "3") (lit "http://b")
      (lit "http://c/") (lit "new") (lit "old") older tt older.1 (respond 200 []) (respond 200 [])
      (λ host. refl) (λ t. refl) (λ url m. refl) segment-IsPath (lit "b", refl) (lit "c", refl) refl
      (λ n. cc) refl refl refl refl refl refl refl refl
