-- ===== src/MetadataServer.antt =====
-- cmd/metadata/main.go: the HTTP server in front of the metadata service, which also chooses the
-- replicas of a segment on its own hash ring. JSON and `fmt.Sscanf` are parameters.
pub mod Requests
pub mod Locations
pub mod Start
pub mod Routes
use tritontube.Base.{
  length, not, ltb, ℕ, Str, lit, str_eq, ℤ, pos, negsuc, Bool, true, false, ◌&&◌, ◌||◌, List, [],
  ◌∷◌, ◌++◌, Option, none, some, if◌then◌else◌, trim_prefix, has_suffix, cut_at, int_text, ◌==◌,
}
use tritontube.Http.{Request, Response, respond, query_get}
use tritontube.Chash.{Ring, lookup_key}
use tritontube.Metadata.Types.{
  MetadataItem, PutMetadataRequest, PutMetadataResponse, GetMetadataResponse, ServiceError, Result,
  ok, err,
}
use tritontube.Metadata.Service.{State, Service, Others}
use tritontube.Metadata.Put.{put_metadata}
use tritontube.Metadata.Reads.{get_metadata}

pub record Server : Type 0 where
  pub ring : Ring
  pub svc : Service

-- What is stored for a segment, and answered.
pub record SegmentInfo : Type 0 where
  pub video : Str
  pub rend : Str
  pub idx : ℤ
  pub replicas : List Str

pub data Body : Type 0 where
  text : Str → Body
  created : (id : Str) → Body
  located : SegmentInfo → Body

unfoldable pub segment_key : Str → Str → ℤ → Str
segment_key id rend idx = lit "segment/" ++ (id ++ (lit "/" ++ (rend ++ (lit "/" ++ int_text idx))))

-- The parameters of a segment's request, once they are checked.
pub record SegmentQuery : Type 0 where
  pub id : Str
  pub rend : Str
  pub idx_text : Str
  pub idx : ℤ

pub data Parsed : Type 0 where
  refused : Response Body → Parsed
  parsed : SegmentQuery → Parsed

-- The first part of the path, if the second is the one that the handler wants
unfoldable pub path_id : Option (Str × Str) → Str → Option Str
path_id none tail = none
path_id (some (id, rest)) tail = if str_eq id [] || not (str_eq rest tail) then none else some id

-- `fmt.Sscanf(idxStr, "%d", &idx)` has failed, or has read a number.
unfoldable pub with_index : Option ℤ → Str → Str → Str → Parsed
with_index none id rend idx_text = refused (respond 400 (text (lit "bad idx")))
with_index (some n) id rend idx_text =
    parsed (record { id = id; rend = rend; idx_text = idx_text; idx = n })

module _ (scan_int : Str → Option ℤ) where
  unfoldable pub with_path : Option Str → Request → Parsed
  unfolding with_index
  with_path none req = refused (respond 400 (text (lit "bad path")))
  with_path (some id) req =
      let rend = query_get (lit "rend") req in
      let idx_text = query_get (lit "idx") req in
      if str_eq id [] || (str_eq rend [] || str_eq idx_text [])
      then refused (respond 400 (text (lit "need id,rend,idx")))
      else with_index (scan_int idx_text) id rend idx_text

  -- The checks that `handlePutSegment` and `handleGetLocations` share; `tail` is the rest of the
  -- path that each of them wants.
  unfoldable pub parse_segment : Str → Request → Parsed
  unfolding with_path path_id trim_prefix cut_at
  parse_segment tail req =
      with_path (path_id (cut_at 47 (trim_prefix req.path (lit "/videos/"))) tail) req

-- The key bytes on the ring
abbrev pub ring_key_of : SegmentQuery → Str
ring_key_of q = q.id ++ (lit "|" ++ (q.rend ++ (lit "|" ++ q.idx_text)))

abbrev pub info_of : SegmentQuery → List Str → SegmentInfo
info_of q replicas = record { video = q.id; rend = q.rend; idx = q.idx; replicas = replicas }

abbrev pub plain_put : MetadataItem → PutMetadataRequest
plain_put item = record {
  item = some item;
  expected_version = pos 0;
  expected_etcd_revision = negsuc 0;
}

-- The put that follows the get: on the version that was found, if one was.
unfoldable pub put_over : Result GetMetadataResponse → MetadataItem → PutMetadataRequest
put_over (ok existing) item = record (plain_put item) { expected_version = existing.item.version }
put_over (err e) item = plain_put item

-- The code outside the repository: SHA-1, JSON, `fmt.Sscanf` with `%d`, and the text of an error.
-- Decoding gives what is in the value after `json.Unmarshal`, whose error the handlers ignore.
pub record Outside : Type 0 where
  pub sha1 : Str → List ℕ
  pub encode_item : MetadataItem → Str
  pub encode_info : SegmentInfo → Str
  pub decode_info : Str → SegmentInfo
  pub decode_id : Str → Str
  pub scan_int : Str → Option ℤ
  pub error_text : ServiceError → Str

module _ (outside : Outside) (others : Others) (server : Server) where
  -- The end of `handleCreateVideo`
  unfoldable pub create_response : Str → State × Result PutMetadataResponse → State × Response Body
  create_response id (st, ok r) = (st, respond 200 (created id))
  create_response id (st, err e) =
      (st, respond 500 (text (lit "store video: " ++ outside.error_text e)))

  unfoldable pub handle_create_video : Request → State → State × Response Body
  unfolding create_response put_metadata
  handle_create_video req st =
      let id = outside.decode_id req.body in
      let item : MetadataItem = record {
        key = lit "video/" ++ id;
        value = lit "{\"status\":\"ingesting\"}";
        attributes = [];
        version = pos 0;
      } in
      if not (str_eq req.method (lit "POST"))
      then (st, respond 405 (text (lit "Method Not Allowed")))
      else if str_eq id []
      then (st, respond 400 (text (lit "missing id")))
      else create_response id
          (put_metadata outside.encode_item others server.svc (some (plain_put item)) st)

  abbrev pub item_of : SegmentInfo → MetadataItem
  item_of info = record {
    key = segment_key info.video info.rend info.idx;
    value = outside.encode_info info;
    attributes = [];
    version = pos 0;
  }

  -- The end of `handlePutSegment`
  unfoldable pub stored_response :
      SegmentInfo → State × Result PutMetadataResponse → State × Response Body
  stored_response info (st, ok r) = (st, respond 200 (located info))
  stored_response info (st, err e) =
      (st, respond 500 (text (lit "store segment: " ++ outside.error_text e)))

  unfoldable pub store_segment : SegmentQuery → List Str → State → State × Response Body
  unfolding stored_response put_over put_metadata get_metadata segment_key
  store_segment q [] st = (st, respond 503 (text (lit "no storage nodes")))
  store_segment q (n ∷ ns) st =
      let info = info_of q (n ∷ ns) in
      let existing = get_metadata (some (record { key = segment_key q.id q.rend q.idx })) st in
      stored_response info (
        put_metadata outside.encode_item others server.svc (some (put_over existing (item_of info)))
          st)

  unfoldable pub put_parsed : Parsed → State → State × Response Body
  unfolding store_segment lookup_key
  put_parsed (refused r) st = (st, r)
  put_parsed (parsed q) st =
      store_segment q (lookup_key outside.sha1 (ring_key_of q) (pos 2) server.ring) st

  unfoldable pub handle_put_segment : Request → State → State × Response Body
  unfolding put_parsed parse_segment
  handle_put_segment req st = put_parsed (parse_segment outside.scan_int (lit "segments") req) st

  -- The end of `handleGetLocations`; an error of the decoding is ignored there.
  unfoldable pub locations_response : Result GetMetadataResponse → Response Body
  locations_response (err e) = respond 404 (text (lit "not found"))
  locations_response (ok r) =
      let info = outside.decode_info r.item.value in
      if ltb 0 (length info.replicas)
      then respond 200 (located info)
      else respond 404 (text (lit "not found"))

  unfoldable pub get_parsed : Parsed → State → Response Body
  unfolding locations_response get_metadata segment_key
  get_parsed (refused r) st = r
  get_parsed (parsed q) st =
      locations_response (get_metadata (some (record { key = segment_key q.id q.rend q.idx })) st)

  unfoldable pub handle_get_locations : Request → State → Response Body
  unfolding get_parsed parse_segment
  handle_get_locations req st =
      get_parsed (parse_segment outside.scan_int (lit "segments/loc") req) st

  unfoldable pub route_video : Request → State → State × Response Body
  unfolding handle_put_segment handle_get_locations has_suffix
  route_video req st =
      if has_suffix req.path (lit "/segments") && str_eq req.method (lit "POST")
      then handle_put_segment req st
      else if has_suffix req.path (lit "/segments/loc") && str_eq req.method (lit "GET")
      then (st, handle_get_locations req st)
      else (st, respond 404 (text (lit "404 page not found")))
