-- ===== src/Storage/RoundTrip.antt =====
-- A segment that is uploaded to a node and read from it (internal/storage/service.go), through the
-- methods of its server.
use tritontube.Base.{
  ℕ, Str, Int64, List, [], ◌∷◌, Option, none, some, Map, lookup, ◌⊎◌, inl, inr, ◌≡◌, refl, ap, sym,
  ◌∙◌,
}
use tritontube.Base.Sort.{SliceSort}
use tritontube.Chash.{hash_less}
use tritontube.Cluster.{RingState, assignment_less}
use tritontube.Storage.Types.{
  SegmentLocator, open_failed, UploadSegmentRequest, UploadSegmentResponse, GetSegmentRequest, ok,
  err, get_header,
}
use tritontube.Storage.Files
use tritontube.Storage.Files.{PutResult}
use tritontube.Storage.Writes
use tritontube.Storage.Upload.{
  Incoming, message, receive, Checked, check_header, receive_header, tail, Environment, Service,
  after_put, after_receive, after_header, put_payload, upload_segment,
}
use tritontube.Storage.Segments.{
  send_all, answer_at, marks, get_located, Reader, bytes_of, end_of, chunks, eofs, get_segment,
  get_segment_lem,
}
use tritontube.Storage.Server.{State, StorageServiceServer, storage_service}

module _ {S : Type 0} (env : Environment) (service : Service S) where
  -- An upload that is answered has written its file.
  answered-stored :
      (checked : Checked) (payload : Str) (files : Map Str) (s : S)
      (response : UploadSegmentResponse)
      → (after_receive env service checked (ok payload) files s).1 ≡ ok response
      → (put_payload env service checked payload files).1.error ≡ none
  unfolding after_receive after_put
  answered-stored checked payload files s response h = by_error _ refl h
    where
      by_error :
          (e : Option Str)
          → (put_payload env service checked payload files).1.error ≡ e
          → (after_put env service e checked payload
              (put_payload env service checked payload files).1
              s).1
            ≡ ok response
          → (put_payload env service checked payload files).1.error ≡ none
      by_error none p q = p
      by_error (some e) p q = cc

  uploaded :
      (request : UploadSegmentRequest) (stream : List Incoming) (checked : Checked) (payload : Str)
      (files : Map Str) (s : S)
      → check_header (get_header request) ≡ ok checked
      → receive stream [] ≡ ok payload
      → upload_segment env service (message request ∷ stream) files s
        ≡ after_receive env service checked (ok payload) files s
  unfolding upload_segment receive_header after_header tail
  uploaded request stream checked payload files s h r =
      ap (λ o. after_header env service o stream files s) h
      ∙ ap (λ o. after_receive env service checked o files s) r

  -- The file of the segment after the upload
  upload_file :
      (request : UploadSegmentRequest) (stream : List Incoming) (checked : Checked) (payload : Str)
      (files : Map Str) (s : S) (response : UploadSegmentResponse)
      → check_header (get_header request) ≡ ok checked
      → receive stream [] ≡ ok payload
      → env.calls.copy ≡ none
      → (upload_segment env service (message request ∷ stream) files s).1 ≡ ok response
      → lookup
          (env.full_path checked.locator.bucket checked.locator.object)
          (upload_segment env service (message request ∷ stream) files s).0.0
        ≡ some payload
  unfolding after_receive
  upload_file request stream checked payload files s response h r copied answered =
      let run = uploaded request stream checked payload files s h r in
      ap (λ p. lookup (env.full_path checked.locator.bucket checked.locator.object) p.0.0) run
      ∙ Writes.put_ok env.hex_sha256 env.calls
          (env.full_path checked.locator.bucket checked.locator.object) payload files copied
          (answered-stored checked payload files s response (ap (λ p. p.1) (sym run) ∙ answered))

-- A read of a file that can be opened
opened :
    (send_error : ℕ → Option Str) (req : GetSegmentRequest) (l : SegmentLocator) (r : Reader)
    (open_file : Str → Str → Reader ⊎ Str)
    → req.locator ≡ some l
    → open_file l.bucket l.object ≡ inl r
    → get_segment send_error (some req) open_file
      ≡ get_segment send_error (some req) (λ bucket object. inl r)
unfolding get_segment get_located
opened send_error req l r open_file located found = rw located (
    ap
      (λ (o : Reader ⊎ Str). elim o [
        | inl r ↦ send_all send_error r []
        | inr e ↦ ([], err (open_failed e))
      ])
      found)

module _ {S : Type 0} (env : Environment) (service : Service S) (sha1 : Str → List ℕ)
    (by_hash : SliceSort hash_less) (by_token : SliceSort assignment_less)
    (encode : RingState → Option Str) (decode : Str → Option RingState)
    (open_file : Option Str → Reader ⊎ Str) (lease : Int64) (now plan_id : Str) where
  abbrev pub server : StorageServiceServer (State S)
  server =
      storage_service env service sha1 by_hash by_token encode decode open_file (λ n. none) lease
        now plan_id

  -- A segment with a sound header is uploaded over a whole stream to a node where no copy of a body
  -- fails. If the upload is answered, a read of its locator, over a stream on which no send fails,
  -- delivers exactly the payload, marks its end once and succeeds, whatever replicas failed. A file
  -- that is there can be opened and read to its end.
  pub get_segment-upload_segment :
      (request : UploadSegmentRequest) (stream : List Incoming) (checked : Checked) (payload : Str)
      (w : State S) (response : UploadSegmentResponse) (req : GetSegmentRequest) (r : Reader)
      → check_header (get_header request) ≡ ok checked
      → receive stream [] ≡ ok payload
      → env.calls.copy ≡ none
      → open_file (some payload) ≡ inl r
      → bytes_of r ≡ payload
      → end_of r ≡ none
      → req.locator ≡ some checked.locator
      → let upload = server.upload_segment (message request ∷ stream) w in
        upload.1 ≡ ok response
        → let sent = (server.get_segment (some req) upload.0).1 in
          (chunks sent.0 ≡ payload) × (eofs sent.0 ≡ 1) × (sent.1 ≡ ok tt)
  unfolding storage_service Files.get
  get_segment-upload_segment request stream checked payload w response req r h p copied found bytes
        end located answered =
      let at_node : Service S = record service { ring = w.ring } in
      let file =
        upload_file env at_node request stream checked payload w.files w.metadata response h p
          copied answered in
      let files = (upload_segment env at_node (message request ∷ stream) w.files w.metadata).0.0 in
      let sent = get_segment_lem req checked.locator r located in
      let run =
        opened (λ n. none) req checked.locator r
          (λ bucket object. open_file (Files.get (env.full_path bucket object) files)) located
          (ap open_file file ∙ found) in
      rw run (sent.0 ∙ bytes, sent.1 ∙ ap marks end, sent.2 ∙ ap answer_at end)
