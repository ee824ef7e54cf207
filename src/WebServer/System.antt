-- ===== src/WebServer/System.antt =====
-- The servers of cmd/web/main.go, cmd/metadata/main.go and cmd/storage/main.go together: a segment that
-- is uploaded can be viewed.
use tritontube.Base.{
  ℕ, Str, lit, str_eq, true, false, List, [], ◌∷◌, ◌++◌, Option, none, some, Map, lookup, is_pos,
  pos, ◌≡◌, ◌≢◌, refl, ap, ◌∙◌, Bool-cases, inl, inr, All, ◌≤◌, ◌&&◌, has_suffix,
}
use tritontube.Http.{Request, Response, respond}
use tritontube.Chash.{lookup_key}
use tritontube.Metadata.Service.{State, nobody}
use tritontube.MetadataServer
use tritontube.MetadataServer.{Server, SegmentQuery, route_video, located, info_of, ring_key_of}
use tritontube.MetadataServer.Requests.{IsNamed, segment_request}
use tritontube.MetadataServer.Locations.{get_locations-put_segment, get_is_not_post}
use tritontube.StorageServer
use tritontube.WebServer.{
  Tally, Outside, content, blob_url, metadata_url, object_path, put_all, handle_upload, handle_view,
}
use tritontube.WebServer.Quorum.{upload_request, no_tally, handle_upload-put_all}
use tritontube.WebServer.Blobs.{read_at}
use tritontube.WebServer.View.{
  object_given, IsPath, view_request, handle_view-handle_upload, accepted,
}
use tritontube.WebServer.Network.{
  Network, World, Reached, network_of, network-IsStorage, send_to, read_lem, put_at,
}

given_node : (b : Str) (bases : List Str) → (b ∷ bases) ≢ []
given_node b bases h = cc

-- The code outside the metadata server, the path and the query of its addresses, and the text of its
-- answers
module _ (outside : MetadataServer.Outside) (server : Server)
    (parse_url : Str → Option (Str × Map Str)) (text_of : MetadataServer.Body → Str) where
  abbrev answer_of : State × Response MetadataServer.Body → State × Option (Response Str)
  answer_of p = (p.0, some (respond p.1.status (text_of p.1.body)))

  -- The metadata server, with nobody else at work on its stores
  unfoldable pub metadata_send :
      Option (Str × Map Str) → Str → Str → State → State × Option (Response Str)
  unfolding route_video
  metadata_send none method body st = (st, none)
  metadata_send (some (path, query)) method body st = answer_of (
      route_video outside nobody server
        (record { method = method; path = path; query = query; body = body }) st)

  -- A network with the metadata server on it
  abbrev pub system : Network State → Network State
  system net = record net {
    elsewhere = λ method url body st. metadata_send (parse_url url) method body st;
  }

  route_get_keeps :
      (path : Str) (query : Map Str) (st : State)
      → (route_video outside nobody server
          (record { method = lit "GET"; path = path; query = query; body = [] })
          st).0
        ≡ st
  unfolding route_video
  route_get_keeps path query st =
      rw (get_is_not_post (has_suffix path (lit "/segments")))
        (elim (Bool-cases
          (has_suffix path (lit "/segments/loc") && str_eq (lit "GET") (lit "GET"))) [
            | inl e ↦ rw e refl
            | inr e ↦ rw e refl
          ])

  metadata_frame :
      (o : Option (Str × Map Str)) (st : State) → (metadata_send o (lit "GET") [] st).0 ≡ st
  unfolding metadata_send
  metadata_frame none st = refl
  metadata_frame (some (path, query)) st = route_get_keeps path query st

  module _ (net : Network State) where
    abbrev pub web : Outside (World State)
    web = network_of (system net)

    -- PUTs to storage servers leave the metadata server alone.
    put_all-state :
        (object payload : Str) (named : str_eq object [] ≡ false)
        (copied : (host : Str) → (net.calls host).copy ≡ none)
        (as_is : (c : Str) → net.body_text (StorageServer.content c) ≡ c) (bases : List Str)
        (t : Tally) (w : World State)
        → All (Reached net object) bases
        → (put_all web object payload bases t w).0.0 ≡ w.0
    unfolding put_all
    put_all-state object payload named copied as_is [] t w rs = refl
    put_all-state object payload named copied as_is (base ∷ bases) t w rs =
        put_all-state object payload named copied as_is bases _ _ rs.1
        ∙ ap (λ p. p.0.0) (put_at (system net) object named copied as_is base payload rs.0 w.0 w.1)

    -- A call of the metadata server about a segment
    ask_lem :
        (base method tail id rend idx : Str) (w : World State)
        → let url = metadata_url base (lit "/" ++ tail) id rend idx in
          let req : Request = segment_request method tail id rend idx in
          net.split_url url ≡ none
          → parse_url url ≡ some (req.path, req.query)
          → web.send method url [] w ≡ (
            ((route_video outside nobody server req w.0).0, w.1),
            (answer_of (route_video outside nobody server req w.0)).1,
          )
    unfolding send_to metadata_send
    ask_lem base method tail id rend idx w elsewhere parsed =
        let url = metadata_url base (lit "/" ++ tail) id rend idx in
        ap (λ o. send_to (system net) o method url [] w) elsewhere
        ∙ ap (λ o. (((metadata_send o method [] w.0).0, w.1), (metadata_send o method [] w.0).1))
            parsed

    abbrev object_of : SegmentQuery → Str
    object_of q = object_path q.id q.rend q.idx_text

    -- The addresses of a segment at the metadata server are no storage server's, and have the path
    -- and the query that were put into them.
    pub record IsAddressed (base : Str) (q : SegmentQuery) : Type 0 where
      pub create_elsewhere :
          net.split_url (metadata_url base (lit "/segments") q.id q.rend q.idx_text) ≡ none
      pub create_parsed :
          let req = segment_request (lit "POST") (lit "segments") q.id q.rend q.idx_text in
          parse_url (metadata_url base (lit "/segments") q.id q.rend q.idx_text)
          ≡ some (req.path, req.query)
      pub locate_elsewhere :
          net.split_url (metadata_url base (lit "/segments/loc") q.id q.rend q.idx_text) ≡ none
      pub locate_parsed :
          let req = segment_request (lit "GET") (lit "segments/loc") q.id q.rend q.idx_text in
          parse_url (metadata_url base (lit "/segments/loc") q.id q.rend q.idx_text)
          ≡ some (req.path, req.query)

    nothing_read :
        (object : Str) (named : str_eq object [] ≡ false)
        (copied : (host : Str) → (net.calls host).copy ≡ none)
        (as_is : (c : Str) → net.body_text (StorageServer.content c) ≡ c) (bases : List Str)
        (w : World State)
        → ((host : Str) → lookup (net.full_path (lit "videos") object) (w.1 host) ≡ none)
        → All (Reached net object) bases
        → All (λ base. read_at web (blob_url object base) w ≡ none) bases
    nothing_read object named copied as_is [] w h rs = tt
    nothing_read object named copied as_is (base ∷ bases) w h rs = (
      read_lem (system net) object named copied as_is base rs.0 w.0 w.1 ∙ h rs.0.0,
      nothing_read object named copied as_is bases w h rs.1,
    )

    -- What the metadata server answers about the segment, when it is stored and then
    answers_lem :
        (q : SegmentQuery) (b : Str) (bases : List Str) (st : State)
        → IsNamed outside.scan_int q
        → lookup_key outside.sha1 (ring_key_of q) (pos 2) server.ring ≡ b ∷ bases
        → is_pos server.svc.max_retries ≡ true
        → st.replica ≡ none
        → outside.decode_info (outside.encode_info (info_of q (b ∷ bases))) ≡ info_of q (b ∷ bases)
        → let post = segment_request (lit "POST") (lit "segments") q.id q.rend q.idx_text in
          let get = segment_request (lit "GET") (lit "segments/loc") q.id q.rend q.idx_text in
          let put = route_video outside nobody server post st in
          (put.1 ≡ respond 200 (located (info_of q (b ∷ bases))))
          × (route_video outside nobody server get put.0
              ≡ (put.0, respond 200 (located (info_of q (b ∷ bases)))))
    answers_lem q b bases st named ring retries shared decoded =
        let post = segment_request (lit "POST") (lit "segments") q.id q.rend q.idx_text in
        let put = route_video outside nobody server post st in
        let stored =
          get_locations-put_segment outside server q st named (rw ring (given_node b bases)) retries
            shared (rw ring decoded) in
        (
          stored.0 ∙ ap (λ l. respond 200 (located (info_of q l))) ring,
          stored.1 ∙ ap (λ l. (put.0, respond 200 (located (info_of q l)))) ring,
        )

    -- The web server, the metadata server and the storage servers together. For a segment that a path
    -- and a request can name, of which no storage server has a file: if the upload, with a quorum of
    -- at least one, answers 201, a view answers with exactly the uploaded bytes, whichever calls of
    -- `os` failed but the copy of the body. The ring must name replicas that are storage servers, the
    -- metadata service must retry and have one pool, and JSON must decode what was encoded.
    pub handle_view-handle_upload_system :
        (base payload : Str) (quorum : ℕ) (q : SegmentQuery) (b : Str) (bases : List Str)
        (st : State) (files : Str → Map Str)
        → IsAddressed base q
        → IsNamed outside.scan_int q
        → IsPath q.id q.rend q.idx_text
        → 1 ≤ quorum
        → lookup_key outside.sha1 (ring_key_of q) (pos 2) server.ring ≡ b ∷ bases
        → All (Reached net (object_of q)) (b ∷ bases)
        → ((host : Str) → lookup (net.full_path (lit "videos") (object_of q)) (files host) ≡ none)
        → ((host : Str) → (net.calls host).copy ≡ none)
        → ((c : Str) → net.body_text (StorageServer.content c) ≡ c)
        → is_pos server.svc.max_retries ≡ true
        → st.replica ≡ none
        → outside.decode_info (outside.encode_info (info_of q (b ∷ bases))) ≡ info_of q (b ∷ bases)
        → net.decode_replicas (text_of (located (info_of q (b ∷ bases)))) ≡ some (b ∷ bases)
        → let upload =
            handle_upload web base quorum
              (upload_request q.id q.rend q.idx_text)
              (some payload)
              (st, files) in
          upload.1.status ≡ 201
          → handle_view web base (view_request q.id q.rend q.idx_text) upload.0
            ≡ (upload.0, respond 200 (content payload))
    handle_view-handle_upload_system base payload quorum q b bases st files at named path positive
          ring reached fresh copied as_is retries shared decoded replicas created =
        let object = object_of q in
        let given = object_given q.id q.rend q.idx_text in
        let info = info_of q (b ∷ bases) in
        let located_text = text_of (located info) in
        let post = segment_request (lit "POST") (lit "segments") q.id q.rend q.idx_text in
        let get = segment_request (lit "GET") (lit "segments/loc") q.id q.rend q.idx_text in
        let put = route_video outside nobody server post st in
        let known = answers_lem q b bases st named ring retries shared decoded in
        let answer : Response Str = respond 200 located_text in
        let w1 : World State = (put.0, files) in
        let sent =
          ask_lem base (lit "POST") (lit "segments") q.id q.rend q.idx_text (st, files)
            at.create_elsewhere at.create_parsed
          ∙ ap (λ p. (w1, some (respond p.status (text_of p.body)))) known.0 in
        let upload =
          handle_upload web base quorum (upload_request q.id q.rend q.idx_text) (some payload)
            (st, files) in
        let run =
          handle_upload-put_all web base q.id q.rend q.idx_text payload quorum b bases (st, files)
            w1 answer path.given sent refl replicas in
        let puts = put_all web object payload (b ∷ bases) no_tally w1 in
        let state : upload.0.0 ≡ put.0 =
          ap (λ p. p.0.0) run
          ∙ ap (λ p. p.0) (accepted web quorum object puts).0
          ∙ put_all-state object payload given copied as_is (b ∷ bases) no_tally w1 reached in
        let asked =
          ap (λ p. p.1)
            (ask_lem base (lit "GET") (lit "segments/loc") q.id q.rend q.idx_text upload.0
              at.locate_elsewhere at.locate_parsed)
          ∙ ap (λ s. (answer_of (route_video outside nobody server get s)).1) state
          ∙ ap (λ p. (answer_of p).1) known.1 in
        handle_view-handle_upload web base q.id q.rend q.idx_text payload quorum b bases (st, files)
          w1 answer answer
          (network-IsStorage (system net) object given copied as_is
            (λ url m. metadata_frame (parse_url url) m))
          reached path positive sent refl replicas
          (nothing_read object given copied as_is (b ∷ bases) w1 fresh reached) created asked refl
          replicas
