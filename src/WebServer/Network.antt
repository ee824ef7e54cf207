-- ===== src/WebServer/Network.antt =====
-- The network of cmd/web/main.go with the storage servers of cmd/storage/main.go on it: what the view
-- of a segment relies on holds of these servers.
use tritontube.Base.{
  ==_iff, ℕ, Str, lit, str_eq, str_eq_refl, str_eq_iff, true, false, List, [], ◌++◌, Option, none,
  some, Map, lookup, if◌then◌else◌, ◌≡◌, refl, ap, sym, ◌∙◌, ◌⊎◌, inl, inr, Bool-cases, ◌==◌,
}
use tritontube.Http.{Request, Response, respond}
use tritontube.Storage.Files.{FsCalls, PutResult}
use tritontube.Storage.Writes
use tritontube.StorageServer
use tritontube.StorageServer.{
  handle_blob, serve_blob, blob_path, put_response, put_status, get_response, blob_request,
  path_put, put_lem, get_lem, put_status_lem,
}
use tritontube.WebServer.{Outside, blob_url}
use tritontube.WebServer.Blobs.{IsStorage, read_at, content_of, is_created}

-- What is outside: the storage server and the path of an address, if a storage server is there; the
-- answers of the other servers, with their state; and what the storage servers call. `body_text` is
-- the text of an answer.
pub record Network (M : Type 0) : Type 0 where
  pub split_url : Str → Option (Str × Str)
  pub elsewhere : Str → Str → Str → M → M × Option (Response Str)
  pub hex_sha256 : Str → Str
  pub full_path : Str → Str → Str
  pub calls : Str → FsCalls
  pub body_text : StorageServer.Body → Str
  pub decode_replicas : Str → Option (List Str)
  pub decode_put : Str → ℕ × Str

-- The state of the other servers, and the files of each storage server
abbrev pub World : Type 0 → Type 0
World M = M × (Str → Map Str)

abbrev pub set_files : Str → Map Str → (Str → Map Str) → Str → Map Str
set_files host f files h = if str_eq host h then f else files h

module _ {M : Type 0} (net : Network M) where
  abbrev pub path_request : Str → Str → Str → Request
  path_request method path body = record { method = method; path = path; query = []; body = body }

  abbrev pub answer_text : Response StorageServer.Body → Response Str
  answer_text r = respond r.status (net.body_text r.body)

  unfoldable pub send_to :
      Option (Str × Str) → Str → Str → Str → World M → World M × Option (Response Str)
  unfolding handle_blob
  send_to none method url body (m, files) =
      let r = net.elsewhere method url body m in ((r.0, files), r.1)
  send_to (some (host, path)) method url body (m, files) =
      let r =
        handle_blob net.hex_sha256 net.full_path (net.calls host) (path_request method path body)
          (files host) in
      ((m, set_files host r.0 files), some (answer_text r.1))

  -- What the web server calls
  abbrev pub network_of : Outside (World M)
  network_of = record {
    send = λ method url body w. send_to (net.split_url url) method url body w;
    decode_replicas = net.decode_replicas;
    decode_put = net.decode_put;
  }

  -- The address of a segment's blob leads to a storage server.
  abbrev pub Reached : Str → Str → Type 0
  Reached object base =
      (host : Str) × (net.split_url (blob_url object base)
        ≡ some (host, lit "/blob/videos/" ++ object))

  set_files_same : (host : Str) (files : Str → Map Str) → set_files host (files host) files ≡ files
  set_files_same host files = λ i h. same h i
    where
      same : (h : Str) → set_files host (files host) files h ≡ files h
      same h = elim (Bool-cases (str_eq host h)) [
        | inl e ↦ rw (e, (str_eq_iff host h).0 e) refl
        | inr e ↦ rw e refl
      ]

  get_keeps :
      (host path : Str) (o : Option (Str × Str)) (files : Map Str)
      → (serve_blob net.hex_sha256 net.full_path
          (net.calls host)
          o
          (path_request (lit "GET") path [])
          files).0
        ≡ files
  unfolding serve_blob str_eq
  get_keeps host path none files = refl
  get_keeps host path (some (bucket, object)) files = refl

  get_frame :
      ((url : Str) (m : M) → (net.elsewhere (lit "GET") url [] m).0 ≡ m)
      → (o : Option (Str × Str)) (url : Str) (w : World M) → (send_to o (lit "GET") url [] w).0 ≡ w
  unfolding send_to handle_blob
  get_frame frame none url (m, files) = rw (frame url m) refl
  get_frame frame (some (host, path)) url (m, files) =
      ap (λ f. (m, f))
        (ap (λ f. set_files host f files) (get_keeps host path _ (files host))
          ∙ set_files_same host files)

  module _ (object : Str) (named : str_eq object [] ≡ false)
      (copied : (host : Str) → (net.calls host).copy ≡ none)
      (as_is : (c : Str) → net.body_text (StorageServer.content c) ≡ c) where
    abbrev pub file : Str
    file = net.full_path (lit "videos") object

    content_lem : (o : Option Str) → content_of (some (answer_text (get_response o))) ≡ o
    unfolding get_response
    content_lem none = refl
    content_lem (some c) = ap some (as_is c)

    -- What is read at an address is the file of its server.
    pub read_lem :
        (base : Str) (r : Reached object base) (m : M) (files : Str → Map Str)
        → read_at network_of (blob_url object base) (m, files) ≡ lookup file (files r.0)
    unfolding send_to str_eq
    read_lem base r m files =
        ap (λ o. content_of (send_to o (lit "GET") (blob_url object base) [] (m, files)).1) r.1
        ∙ ap (λ p. content_of (some (answer_text p.1)))
            (get_lem net.hex_sha256 net.full_path (net.calls r.0) (lit "videos") object (files r.0)
              (refl, (refl, (refl, (refl, (refl, (refl, tt)))))) refl named)
        ∙ content_lem (lookup file (files r.0))

    abbrev pub written_to : Str → Str → (Str → Map Str) → Map Str × PutResult
    written_to host payload files =
        path_put net.hex_sha256 net.full_path (net.calls host) (lit "videos") object payload
          (files host)

    abbrev pub status_of : PutResult → Response StorageServer.Body
    status_of p = put_status p.error p (lit "videos") object

    pub put_at :
        (base payload : Str) (r : Reached object base) (m : M) (files : Str → Map Str)
        → network_of.send (lit "PUT") (blob_url object base) payload (m, files) ≡ (
          (m, set_files r.0 (written_to r.0 payload files).0 files),
          some (answer_text (status_of (written_to r.0 payload files).1)),
        )
    unfolding send_to put_response str_eq
    put_at base payload r m files =
        ap (λ o. send_to o (lit "PUT") (blob_url object base) payload (m, files)) r.1
        ∙ ap (λ p. ((m, set_files r.0 p.0 files), some (answer_text p.1)))
            (put_lem net.hex_sha256 net.full_path (net.calls r.0) (lit "videos") object payload
              (files r.0) (refl, (refl, (refl, (refl, (refl, (refl, tt)))))) refl named)

    -- The file of a server after a write at a server
    file_after :
        (host other payload : Str) (files : Str → Map Str)
        → let files' = set_files host (written_to host payload files).0 files in
          (lookup file (files' other) ≡ lookup file (files other))
          ⊎ (lookup file (files' other) ≡ some payload)
    file_after host other payload files = elim (Bool-cases (str_eq host other)) [
      | inr e ↦ inl (rw e refl)
      | inl e ↦ rw (e, sym ((str_eq_iff host other).0 e)) (by_error _ refl)
    ]
      where
        by_error :
            (e : Option Str)
            → (written_to host payload files).1.error ≡ e
            → (lookup file (written_to host payload files).0 ≡ lookup file (files host))
              ⊎ (lookup file (written_to host payload files).0 ≡ some payload)
        by_error none h = inr (
            Writes.put_ok net.hex_sha256 (net.calls host) file payload (files host) (copied host) h)
        by_error (some x) h =
            inl (
              Writes.put_undone net.hex_sha256 (net.calls host) file payload (files host) (λ n. cc))

    pub after_put :
        (base other payload : Str) (r : Reached object base) (q : Reached object other)
        (w : World M)
        → read_at network_of
            (blob_url object other)
            (network_of.send (lit "PUT") (blob_url object base) payload w).0
          ≡ lookup file (set_files r.0 (written_to r.0 payload w.1).0 w.1 q.0)
    after_put base other payload r q w =
        ap (λ o. read_at network_of (blob_url object other) o.0) (put_at base payload r w.0 w.1)
        ∙ read_lem other q w.0 (set_files r.0 (written_to r.0 payload w.1).0 w.1)

    accepted_lem :
        (base payload : Str) (r : Reached object base) (w : World M)
        → is_created (network_of.send (lit "PUT") (blob_url object base) payload w).1 ≡ true
        → lookup file (written_to r.0 payload w.1).0 ≡ some payload
    accepted_lem base payload r w h =
        let p = (written_to r.0 payload w.1).1 in
        let status : ((status_of p).status == 201) ≡ true =
          ap (λ o. is_created o.1) (sym (put_at base payload r w.0 w.1)) ∙ h in
        Writes.put_ok net.hex_sha256 (net.calls r.0) file payload (w.1 r.0) (copied r.0) (
          (put_status_lem net.hex_sha256 net.full_path (net.calls r.0) p.error p (lit "videos")
              object).0
            ((==_iff (status_of p).status 201).0 status))

    -- A network of the storage servers of cmd/storage/main.go, on which no copy of a body fails and the
    -- other servers change nothing on a GET, keeps the blobs of a segment as the view relies on.
    pub network-IsStorage :
        ((url : Str) (m : M) → (net.elsewhere (lit "GET") url [] m).0 ≡ m)
        → IsStorage network_of object (Reached object)
    network-IsStorage frame = record {
      get_frame = λ url w. get_frame frame (net.split_url url) url w;
      put_stored = λ base payload w r h.
          after_put base base payload r r w
          ∙ rw (str_eq_refl r.0) (accepted_lem base payload r w h);
      put_read = λ base other payload w r q. elim (file_after r.0 q.0 payload w.1) [
        | inl same ↦
            inl (after_put base other payload r q w ∙ same ∙ sym (read_lem other q w.0 w.1))
        | inr new ↦ inr (after_put base other payload r q w ∙ new)
      ];
    }
