-- ===== src/WebServer.antt =====
-- cmd/web/main.go: the HTTP server that stores a segment on its replicas and reads it from them. The
-- calls of other servers and JSON are parameters; `W` is the state of the servers.
pub mod Quorum
pub mod Blobs
pub mod View
pub mod Overwrite
pub mod Network
pub mod System
pub mod Routes
pub mod Stale
use tritontube.Base.{
  ℕ, suc, ◌+◌, Str, lit, str_eq, ℤ, is_pos, pos_part, leb, ◌==◌, Bool, not, ◌||◌, List, [], ◌∷◌,
  ◌++◌, Option, none, some, if◌then◌else◌, trim_prefix, trim_right, split_on,
}
use tritontube.Http.{Request, Response, respond, query_get}

-- `METADATA_BASE` and `UPLOAD_W`, with their defaults; `number` is what `strconv.Atoi` gives.
unfoldable pub metadata_base_of : Str → Str
metadata_base_of base = if str_eq base [] then lit "http://localhost:8082" else base

unfoldable pub write_quorum_of : Option ℤ → ℕ
write_quorum_of none = 1
write_quorum_of (some n) = if is_pos n then pos_part n else 1

-- The result of one PUT
pub record PutResult : Type 0 where
  pub base : Str
  pub status : ℕ
  pub size : ℕ
  pub sha256 : Str

-- What the loop of PUTs has counted and collected
pub record Tally : Type 0 where
  pub success : ℕ
  pub results : List PutResult

pub data Body : Type 0 where
  text : Str → Body
  written : (quorum : ℕ) → Tally → (object : Str) → Body
  missed : (quorum : ℕ) → Tally → Body
  content : Str → Body

-- A call of another server: its answer, or none for an error. `decode_replicas` is the JSON of a
-- `segLocResp`, of which only the replicas are read; `decode_put` gives the size and the sum, each
-- zero where it is missing.
pub record Outside (W : Type 0) : Type 0 where
  pub send : (method url body : Str) → W → W × Option (Response Str)
  pub decode_replicas : Str → Option (List Str)
  pub decode_put : Str → ℕ × Str

abbrev pub object_path : Str → Str → Str → Str
object_path id rend idx = id ++ (lit "/" ++ (rend ++ (lit "/" ++ idx)))

unfoldable pub blob_url : Str → Str → Str
unfolding trim_right
blob_url object base = trim_right 47 base ++ (lit "/blob/videos/" ++ object)

-- The address of a segment at the metadata server
unfoldable pub metadata_url : Str → Str → Str → Str → Str → Str
metadata_url base tail id rend idx =
    base ++ (lit "/videos/" ++ (id ++ (tail ++ (lit "?rend=" ++ (rend ++ (lit "&idx=" ++ idx))))))

module _ {W : Type 0} (outside : Outside W) where
  -- The answer of one PUT
  unfoldable pub add_result : Str → Option (Response Str) → Tally → Tally
  add_result base none t = record t {
    results = t.results ++ record { base = base; status = 0; size = 0; sha256 = [] } ∷ [];
  }
  add_result base (some r) t =
      let (size, sum) = outside.decode_put r.body in
      if r.status == 201
      then record {
        success = suc t.success;
        results = t.results ++ record { base = base; status = 201; size = size; sha256 = sum } ∷ [];
      }
      else record t {
        results =
            t.results ++ record { base = base; status = r.status; size = 0; sha256 = [] } ∷ [];
      }

  -- The loop of PUTs over the replicas
  unfoldable pub put_all : Str → Str → List Str → Tally → W → W × Tally
  unfolding add_result blob_url
  put_all object payload [] t w = (w, t)
  put_all object payload (base ∷ bases) t w =
      let (w', reply) = outside.send (lit "PUT") (blob_url object base) payload w in
      put_all object payload bases (add_result base reply t) w'

  -- The end of an upload
  unfoldable pub upload_answer : ℕ → Str → W × Tally → W × Response Body
  upload_answer quorum object (w, t) =
      if leb quorum t.success
      then (w, respond 201 (written quorum t (lit "videos/" ++ object)))
      else (w, respond 502 (missed quorum t))

  -- After the replicas are known; `payload` is what `io.ReadAll` gives of the body.
  unfoldable pub upload_to : ℕ → Str → Option Str → Option (List Str) → W → W × Response Body
  unfolding upload_answer put_all
  upload_to quorum object payload none w = (w, respond 503 (text (lit "Failed to decode metadata")))
  upload_to quorum object payload (some []) w =
      (w, respond 503 (text (lit "No replicas available")))
  upload_to quorum object none (some (b ∷ bs)) w =
      (w, respond 503 (text (lit "Failed to read segment")))
  upload_to quorum object (some d) (some (b ∷ bs)) w =
      upload_answer quorum object
        (put_all object d (b ∷ bs) (record { success = 0; results = [] }) w)

  -- The answer of the metadata server to the creation of the segment
  unfoldable pub upload_created :
      ℕ → Str → Option Str → W × Option (Response Str) → W × Response Body
  unfolding upload_to
  upload_created quorum object payload (w, none) =
      (w, respond 503 (text (lit "Failed to create segment")))
  upload_created quorum object payload (w, some r) =
      if r.status == 200
      then upload_to quorum object payload (outside.decode_replicas r.body) w
      else (w, respond 503 (text (lit "Failed to create segment")))

  -- The handler of `/upload`
  unfoldable pub handle_upload : Str → ℕ → Request → Option Str → W → W × Response Body
  unfolding upload_created metadata_url
  handle_upload metadata_base quorum req payload w =
      let id = query_get (lit "id") req in
      let rend = query_get (lit "rend") req in
      let idx = query_get (lit "idx") req in
      if not (str_eq req.method (lit "POST"))
      then (w, respond 405 (text (lit "Method not allowed")))
      else if str_eq id [] || (str_eq rend [] || str_eq idx [])
      then (w, respond 400 (text (lit "Missing id or rend")))
      else upload_created quorum (object_path id rend idx) payload (
          outside.send (lit "POST") (metadata_url metadata_base (lit "/segments") id rend idx) [] w)

  -- The answer of one GET; `rest` is the loop over the other replicas.
  unfoldable pub found : (W → W × Response Body) → W × Option (Response Str) → W × Response Body
  found rest (w, none) = rest w
  found rest (w, some r) =
      let later = rest w in if r.status == 200 then (w, respond 200 (content r.body)) else later

  -- The loop of GETs over the replicas
  unfoldable pub get_first : Str → List Str → W → W × Response Body
  unfolding found blob_url
  get_first object [] w = (w, respond 502 (text (lit "all replicas failed")))
  get_first object (base ∷ bases) w =
      found (get_first object bases) (outside.send (lit "GET") (blob_url object base) [] w)

  unfoldable pub view_from : Str → Option (List Str) → W → W × Response Body
  unfolding get_first
  view_from object none w = (w, respond 502 (text (lit "decode")))
  view_from object (some []) w = (w, respond 404 (text (lit "404 page not found")))
  view_from object (some (b ∷ bs)) w = get_first object (b ∷ bs) w

  -- The answer of the metadata server to the question where the segment is
  unfoldable pub view_located : Str → W × Option (Response Str) → W × Response Body
  unfolding view_from
  view_located object (w, none) = (w, respond 502 (text (lit "metadata error")))
  view_located object (w, some r) =
      if r.status == 200
      then view_from object (outside.decode_replicas r.body) w
      else (w, respond 502 (text (lit "metadata error")))

  abbrev pub bad_path : W → W × Response Body
  bad_path w = (w, respond 400 (text (lit "bad path, want /v/{id}/{rend}/{idx}")))

  unfoldable pub view_parts : Str → List Str → W → W × Response Body
  unfolding view_located metadata_url
  view_parts metadata_base (id ∷ rend ∷ idx ∷ []) w =
      if str_eq id [] || (str_eq rend [] || str_eq idx [])
      then bad_path w
      else view_located (object_path id rend idx) (
          outside.send (lit "GET") (metadata_url metadata_base (lit "/segments/loc") id rend idx) []
            w)
  view_parts metadata_base _ w = bad_path w

  -- The handler of `/v/`
  unfoldable pub handle_view : Str → Request → W → W × Response Body
  unfolding view_parts split_on trim_prefix
  handle_view metadata_base req w =
      view_parts metadata_base (split_on 47 (trim_prefix req.path (lit "/v/"))) w
