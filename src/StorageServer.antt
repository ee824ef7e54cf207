-- ===== src/StorageServer.antt =====
-- cmd/storage/main.go: the HTTP server of a storage node, over the files of internal/storage/fs.go.
pub mod Routes
use tritontube.Base.{
  ℕ, Str, lit, str_eq, false, ◌||◌, Option, none, some, Map, lookup, if◌then◌else◌, trim_prefix,
  has_prefix, cut_at, cut_at-append, Lacks, ◌++◌, [], ◌≡◌, ◌≢◌, refl, ap, ◌∙◌, arith,
}
use tritontube.Http.{Request, Response, respond}
use tritontube.Storage.Files
use tritontube.Storage.Writes
use tritontube.Storage.Files.{FsCalls, PutResult}

pub data Body : Type 0 where
  text : Str → Body
  stored : (size : ℕ) → (sha256 bucket object : Str) → Body
  content : Str → Body

-- `PORT` and `DATA_DIR`, with their defaults
unfoldable pub port_of : Str → Str
port_of port = if str_eq port [] then lit "8081" else port

unfoldable pub root_of : Str → Str → Str
unfolding port_of
root_of dir port = if str_eq dir [] then lit "./data-" ++ port_of port else dir

-- The bucket and the object of a path, if it has both
unfoldable pub blob_path : Option (Str × Str) → Option (Str × Str)
blob_path none = none
blob_path (some (bucket, object)) =
    if str_eq bucket [] || str_eq object [] then none else some (bucket, object)

-- `case http.MethodPut`, with the error of `Put`. The first status that is written stands.
unfoldable pub put_status : Option Str → PutResult → Str → Str → Response Body
put_status (some e) r bucket object = respond 500 (text e)
put_status none r bucket object = respond 201 (stored r.size r.checksum bucket object)

unfoldable pub put_response : Str → Str → Map Str × PutResult → Map Str × Response Body
unfolding put_status
put_response bucket object (files, r) = (files, put_status r.error r bucket object)

-- `case http.MethodGet`: a file that cannot be opened is not found.
unfoldable pub get_response : Option Str → Response Body
get_response none = respond 404 (text (lit "404 page not found"))
get_response (some c) = respond 200 (content c)

-- SHA-256 in hexadecimal, `filepath.Join` with the root, and which calls of `os` fail
module _ (hex_sha256 : Str → Str) (full_path : Str → Str → Str) (calls : FsCalls) where
  unfoldable pub serve_blob : Option (Str × Str) → Request → Map Str → Map Str × Response Body
  unfolding put_response get_response Files.put Files.get
  serve_blob none req files = (files, respond 400 (text (lit "Invalid path")))
  serve_blob (some (bucket, object)) req files =
      let path = full_path bucket object in
      if str_eq req.method (lit "PUT")
      then put_response bucket object (Files.put hex_sha256 calls path req.body files)
      else if str_eq req.method (lit "GET")
      then (files, get_response (Files.get path files))
      else (files, respond 405 (text (lit "Unsupported method")))

  unfoldable pub handle_blob : Request → Map Str → Map Str × Response Body
  unfolding serve_blob blob_path trim_prefix cut_at
  handle_blob req files =
      serve_blob (blob_path (cut_at 47 (trim_prefix req.path (lit "/blob/")))) req files

  -- A request about a blob
  abbrev pub blob_request : Str → Str → Str → Str → Request
  blob_request method bucket object body = record {
    method = method;
    path = lit "/blob/" ++ (bucket ++ (lit "/" ++ object));
    query = [];
    body = body;
  }

  handle_blob_request :
      (method bucket object body : Str) (files : Map Str)
      → Lacks 47 bucket
      → str_eq bucket [] ≡ false
      → str_eq object [] ≡ false
      → handle_blob (blob_request method bucket object body) files
        ≡ serve_blob (some (bucket, object)) (blob_request method bucket object body) files
  unfolding handle_blob blob_path trim_prefix has_prefix
  handle_blob_request method bucket object body files one b o =
      let req : Request = blob_request method bucket object body in
      ap (λ x. serve_blob (blob_path x) req files) (cut_at-append 47 bucket object one)
      ∙ rw (b, o) refl

  pub put_status_lem :
      (e : Option Str) (r : PutResult) (bucket object : Str)
      → ((put_status e r bucket object).status ≡ 201 → e ≡ none)
        × ((put_status e r bucket object).status ≢ 201 → e ≢ none)
  unfolding put_status
  put_status_lem none r bucket object = (λ h. refl, λ h n. h refl)
  put_status_lem (some e) r bucket object = (λ h. absurd (omega arith), λ h n. cc)

  abbrev pub path_put : Str → Str → Str → Map Str → Map Str × PutResult
  path_put bucket object body files =
      Files.put hex_sha256 calls (full_path bucket object) body files

  pub put_lem :
      (bucket object body : Str) (files : Map Str)
      → Lacks 47 bucket
      → str_eq bucket [] ≡ false
      → str_eq object [] ≡ false
      → handle_blob (blob_request (lit "PUT") bucket object body) files
        ≡ put_response bucket object (path_put bucket object body files)
  put_lem bucket object body files one b o =
      handle_blob_request (lit "PUT") bucket object body files one b o
      ∙ unfold serve_blob str_eq in refl

  pub get_lem :
      (bucket object : Str) (files : Map Str)
      → Lacks 47 bucket
      → str_eq bucket [] ≡ false
      → str_eq object [] ≡ false
      → handle_blob (blob_request (lit "GET") bucket object []) files
        ≡ (files, get_response (lookup (full_path bucket object) files))
  get_lem bucket object files one b o =
      handle_blob_request (lit "GET") bucket object [] files one b o
      ∙ unfold serve_blob str_eq Files.get in refl

  -- For a bucket and an object that a path can name, where the copy of the body does not fail: a
  -- PUT that answers 201 is followed by GETs that answer the body, and after any other answer a GET
  -- answers as before.
  pub get_blob-put_blob :
      (bucket object body : Str) (files : Map Str)
      → Lacks 47 bucket
      → str_eq bucket [] ≡ false
      → str_eq object [] ≡ false
      → calls.copy ≡ none
      → let put = handle_blob (blob_request (lit "PUT") bucket object body) files in
        let get = blob_request (lit "GET") bucket object [] in
        (put.1.status ≡ 201 → handle_blob get put.0 ≡ (put.0, respond 200 (content body)))
        × (put.1.status ≢ 201 → (handle_blob get put.0).1 ≡ (handle_blob get files).1)
  get_blob-put_blob bucket object body files one b o copied =
      let path = full_path bucket object in
      let r = path_put bucket object body files in
      let verdict = put_status_lem r.1.error r.1 bucket object in
      rw (put_lem bucket object body files one b o) (
        unfold put_response in
        (
          λ h.
              get_lem bucket object r.0 one b o
              ∙ ap (λ c. (r.0, get_response c))
                  (Writes.put_ok hex_sha256 calls path body files copied (verdict.0 h))
              ∙ unfold get_response in refl,
          λ h.
              rw (get_lem bucket object r.0 one b o, get_lem bucket object files one b o)
                (ap get_response
                  (Writes.put_undone hex_sha256 calls path body files (verdict.1 h))),
        ))
