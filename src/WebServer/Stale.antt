-- ===== src/WebServer/Stale.antt =====
-- A segment that is uploaded again with the default quorum of cmd/web/main.go, on the storage servers
-- of cmd/storage/main.go, while the first of its replicas cannot write.
use tritontube.Base.{
  suc, Str, lit, str_eq, str_eq_refl, ◌==◌, true, false, [], ◌∷◌, Option, none, some, Map, lookup,
  arith, ◌≡◌, ◌≢◌, refl, ap, ◌∙◌, str_eq_sym,
}
use tritontube.Http.{Response, respond}
use tritontube.Storage.Files.{PutResult}
use tritontube.Storage.Writes
use tritontube.StorageServer
use tritontube.StorageServer.{put_status}
use tritontube.WebServer.{
  Tally, content, Outside, object_path, blob_url, metadata_url, add_result, put_all, handle_upload,
  handle_view,
}
use tritontube.WebServer.Quorum.{
  upload_request, no_tally, handle_upload-put_all, upload_answer-created,
}
use tritontube.WebServer.Blobs.{read_at, is_created, IsStorage, not_counted}
use tritontube.WebServer.View.{object_given, IsPath, view_request, view_lem, located_lem}
use tritontube.WebServer.Network.{
  Network, World, Reached, network_of, network-IsStorage, put_at, after_put, written_to, set_files,
}
use tritontube.WebServer.Overwrite.{first_answers}

created_iff :
    (e : Option Str) (p : PutResult) (bucket object : Str)
    → (e ≡ none → ((put_status e p bucket object).status == 201) ≡ true)
      × (e ≢ none → ((put_status e p bucket object).status == 201) ≡ false)
unfolding put_status
created_iff none p bucket object = (λ h. refl, λ h. absurd (h refl))
created_iff (some e) p bucket object = (λ h. cc, λ h. refl)

module _ {M : Type 0} (net : Network M) where
  abbrev web : Outside (World M)
  web = network_of net

  counted_one :
      (base : Str) (reply : Option (Response Str)) (t : Tally)
      → is_created reply ≡ true
      → (add_result web base reply t).success ≡ suc t.success
  unfolding add_result
  counted_one base none t h = cc
  counted_one base (some r) t h = rw h refl

  module _ (object : Str) (named : str_eq object [] ≡ false)
      (copied : (host : Str) → (net.calls host).copy ≡ none)
      (as_is : (c : Str) → net.body_text (StorageServer.content c) ≡ c) where
    -- The answer of a server to a PUT is a 201 exactly if the write had no error.
    created_at :
        (base payload : Str) (r : Reached net object base) (w : World M)
        → let e = (written_to net object named copied as_is r.0 payload w.1).1.error in
          let reply = (web.send (lit "PUT") (blob_url object base) payload w).1 in
          (e ≡ none → is_created reply ≡ true) × (e ≢ none → is_created reply ≡ false)
    created_at base payload r w =
        let p = (written_to net object named copied as_is r.0 payload w.1).1 in
        let verdict = created_iff p.error p (lit "videos") object in
        let sent =
          ap (λ q. is_created q.1) (put_at net object named copied as_is base payload r w.0 w.1) in
        (λ h. sent ∙ verdict.0 h, λ h. sent ∙ verdict.1 h)

    -- Two servers, of which the first cannot write and holds something older.
    module _ (b c payload old : Str) (at_b : Reached net object b) (at_c : Reached net object c)
        (apart : str_eq at_c.0 at_b.0 ≡ false) (m : M) (files : Str → Map Str)
        (fails : (written_to net object named copied as_is at_b.0 payload files).1.error ≢ none)
        (writes : (written_to net object named copied as_is at_c.0 payload files).1.error ≡ none)
        (held : lookup (net.full_path (lit "videos") object) (files at_b.0) ≡ some old)
        (frame : (url : Str) (m : M) → (net.elsewhere (lit "GET") url [] m).0 ≡ m) where
      abbrev sent_b : World M × Option (Response Str)
      sent_b = web.send (lit "PUT") (blob_url object b) payload (m, files)

      abbrev tally_b : Tally
      tally_b = add_result web b sent_b.1 no_tally

      abbrev sent_c : World M × Option (Response Str)
      sent_c = web.send (lit "PUT") (blob_url object c) payload sent_b.0

      abbrev laws : IsStorage web object (Reached net object)
      laws = network-IsStorage net object named copied as_is frame

      puts_lem :
          put_all web object payload (b ∷ c ∷ []) no_tally (m, files)
          ≡ (sent_c.0, add_result web c sent_c.1 tally_b)
      unfolding put_all
      puts_lem = refl

      files_b :
          sent_b.0.1
          ≡ set_files at_b.0 (written_to net object named copied as_is at_b.0 payload files).0 files
      files_b = ap (λ q. q.0.1) (put_at net object named copied as_is b payload at_b m files)

      apart' : str_eq at_b.0 at_c.0 ≡ false
      apart' = str_eq_sym at_b.0 at_c.0 ∙ apart

      files_c : sent_b.0.1 at_c.0 ≡ files at_c.0
      files_c = ap (λ f. f at_c.0) files_b ∙ rw apart' refl

      writes_c : is_created sent_c.1 ≡ true
      writes_c = (created_at c payload at_c sent_b.0).0 (
          ap
            (λ f.
              (StorageServer.path_put net.hex_sha256 net.full_path (net.calls at_c.0) (lit "videos")
                object payload f).1.error)
            files_c
          ∙ writes)

      one_success : (put_all web object payload (b ∷ c ∷ []) no_tally (m, files)).1.success ≡ 1
      one_success = rw puts_lem (
          counted_one c sent_c.1 tally_b writes_c
          ∙ ap suc (
              not_counted web laws b sent_b.1 no_tally
                ((created_at b payload at_b (m, files)).1 fails)))

      still_old :
          read_at web
            (blob_url object b)
            (put_all web object payload (b ∷ c ∷ []) no_tally (m, files)).0
          ≡ some old
      still_old = rw puts_lem (
          after_put net object named copied as_is c b payload at_c at_b sent_b.0
          ∙ rw apart refl
          ∙ ap (λ f. lookup (net.full_path (lit "videos") object) (f at_b.0)) files_b
          ∙ rw (str_eq_refl at_b.0) refl
          ∙ Writes.put_undone net.hex_sha256 (net.calls at_b.0)
              (net.full_path (lit "videos") object) payload (files at_b.0) fails
          ∙ held)

-- What a write of a payload at a host answers
abbrev write_error : {M : Type 0} → Network M → Str → Str → Str → Map Str → Option Str
write_error net host object payload files =
    (StorageServer.path_put net.hex_sha256 net.full_path (net.calls host) (lit "videos") object
      payload files).1.error

-- A segment that a path can name is uploaded with the default quorum of one, to two replicas at
-- different storage servers, of which the first holds an older blob and cannot write, and the second
-- can. The upload answers 201, and a view, while the metadata server names the same replicas, answers
-- with the older blob. No copy of a body fails, and the other servers change nothing on a GET.
pub handle_view-stale :
    {M : Type 0} (net : Network M) (metadata_base id rend idx b c payload old : Str) (w : World M)
    (m : M) (files : Str → Map Str) (r r' : Response Str)
    → ((host : Str) → (net.calls host).copy ≡ none)
    → ((t : Str) → net.body_text (StorageServer.content t) ≡ t)
    → ((url : Str) (m : M) → (net.elsewhere (lit "GET") url [] m).0 ≡ m)
    → IsPath id rend idx
    → (at_b : Reached net (object_path id rend idx) b)
      (at_c : Reached net (object_path id rend idx) c)
    → str_eq at_c.0 at_b.0 ≡ false
    → write_error net at_b.0 (object_path id rend idx) payload (files at_b.0) ≢ none
    → write_error net at_c.0 (object_path id rend idx) payload (files at_c.0) ≡ none
    → lookup (net.full_path (lit "videos") (object_path id rend idx)) (files at_b.0) ≡ some old
    → (network_of net).send
        (lit "POST")
        (metadata_url metadata_base (lit "/segments") id rend idx)
        []
        w
      ≡ ((m, files), some r)
    → r.status ≡ 200
    → net.decode_replicas r.body ≡ some (b ∷ c ∷ [])
    → let upload =
        handle_upload
          (network_of net)
          metadata_base
          1
          (upload_request id rend idx)
          (some payload)
          w in
      ((network_of net).send
          (lit "GET")
          (metadata_url metadata_base (lit "/segments/loc") id rend idx)
          []
          upload.0).1
        ≡ some r'
      → r'.status ≡ 200
      → net.decode_replicas r'.body ≡ some (b ∷ c ∷ [])
      → (upload.1.status ≡ 201)
        × (handle_view (network_of net) metadata_base (view_request id rend idx) upload.0
            ≡ (upload.0, respond 200 (content old)))
handle_view-stale net metadata_base id rend idx b c payload old w m files r r' copied as_is frame
      path at_b at_c apart fails writes held sent status decoded asked status' decoded' =
    let object = object_path id rend idx in
    let named = object_given id rend idx in
    let outside = network_of net in
    let url = metadata_url metadata_base (lit "/segments/loc") id rend idx in
    let puts = put_all outside object payload (b ∷ c ∷ []) no_tally (m, files) in
    let upload =
      handle_upload outside metadata_base 1 (upload_request id rend idx) (some payload) w in
    let laws = network-IsStorage net object named copied as_is frame in
    let run =
      handle_upload-put_all outside metadata_base id rend idx payload 1 b (c ∷ []) w (m, files) r
        path.given sent status decoded
      ∙ (upload_answer-created outside 1 object puts).0 (
          omega (
            arith,
            one_success net object named copied as_is b c payload old at_b at_c apart m files fails
                writes held frame,
          )) in
    (
      ap (λ p. p.1.status) run,
      view_lem outside metadata_base id rend idx upload.0 path
          ∙ located_lem outside object (outside.send (lit "GET") url [] upload.0) upload.0 r' b
              (c ∷ []) (laws.get_frame url upload.0) asked status' decoded'
          ∙ rw (ap (λ p. p.0) run) (
              first_answers outside laws old b (c ∷ []) puts.0 (
                still_old net object named copied as_is b c payload old at_b at_c apart m files
                  fails writes held frame)),
    )
