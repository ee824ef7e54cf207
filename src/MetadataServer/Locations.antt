-- ===== src/MetadataServer/Locations.antt =====
-- A segment that is stored through the server of cmd/metadata/main.go is found through it.
use tritontube.MetadataServer.Requests.{
  segment_request, IsNamed, parse_segment_request, has_suffix-append,
}
use tritontube.Base.{
  ltb, int_eq_iff, Str, lit, str_eq, str_eq_refl, ℤ, pos, negsuc, Bool, true, false, ◌&&◌, List, [],
  ◌∷◌, ◌++◌, Option, none, some, lookup, arith, ◌≡◌, ◌≢◌, refl, ap, ◌∙◌, length, has_suffix, is_pos,
}
use tritontube.Http.{Request, respond}
use tritontube.Chash.{lookup_key}
use tritontube.Pgx.{Store, Record}
use tritontube.Metadata.Types.{
  clone, record_to_item, MetadataItem, PutMetadataRequest, PutMetadataResponse, GetMetadataResponse,
  Result, ok, err,
}
use tritontube.Metadata.Service.{etcd_key, State, nobody}
use tritontube.Metadata.Put.{put_metadata, check_put}
use tritontube.Metadata.Reads.{found_item, get_metadata}
use tritontube.Metadata.Answers.{get_metadata-lookup}
use tritontube.Metadata.Guard.{guard_holds}
use tritontube.Metadata.Effects.{put_checked-Stores, get-put_metadata, read_store_shared}
use tritontube.MetadataServer.{
  handle_put_segment, handle_get_locations, locations_response, get_parsed, store_segment,
  stored_response, put_parsed, put_over, item_of, Server, SegmentInfo, SegmentQuery, Parsed, parsed,
  Outside, route_video, located, info_of, ring_key_of, segment_key,
}

-- The version that a get found is the one that the put over it asks for.
check_put-put_over :
    (key : Str) (item : MetadataItem) (o : Option Record)
    → check_put (put_over (found_item key o) item).expected_version key o ≡ ok tt
unfolding check_put put_over found_item record_to_item
check_put-put_over key item none = refl
check_put-put_over key item (some r) = ground (arith, int_eq_iff r.version r.version)

some_length : (l : List Str) → l ≢ [] → ltb 0 (length l) ≡ true
some_length [] h = absurd (h refl)
some_length (x ∷ l) h = ground arith

pub get_is_not_post : (b : Bool) → (b && str_eq (lit "GET") (lit "POST")) ≡ false
unfolding str_eq
get_is_not_post true = refl
get_is_not_post false = refl

put_over_fields :
    (r : Result GetMetadataResponse) (item : MetadataItem)
    → ((put_over r item).item ≡ some item) × ((put_over r item).expected_etcd_revision ≡ negsuc 0)
unfolding put_over
put_over_fields (ok r) item = (refl, refl)
put_over_fields (err e) item = (refl, refl)

segment_key_given : (id rend : Str) (n : ℤ) → str_eq (segment_key id rend n) [] ≡ false
unfolding segment_key str_eq
segment_key_given id rend n = refl

module _ (outside : Outside) (server : Server) (q : SegmentQuery) (st : State) where
  abbrev replicas : List Str
  replicas = lookup_key outside.sha1 (ring_key_of q) (pos 2) server.ring

  abbrev info : SegmentInfo
  info = info_of q replicas

  abbrev item : MetadataItem
  item = item_of outside nobody server info

  abbrev get_existing : State → Result GetMetadataResponse
  get_existing s = get_metadata (some (record { key = item.key })) s

  abbrev put_request : PutMetadataRequest
  put_request = put_over (get_existing st) item

  put_parsed_lem :
      replicas ≢ []
      → put_parsed outside nobody server (parsed q) st
        ≡ stored_response outside nobody server info
            (put_metadata outside.encode_item nobody server.svc (some put_request) st)
  unfolding put_parsed
  put_parsed_lem some_node = by_list replicas some_node
    where
      by_list :
          (l : List Str)
          → l ≢ []
          → store_segment outside nobody server q l st
            ≡ stored_response outside nobody server (info_of q l) (
                put_metadata outside.encode_item nobody server.svc
                  (some (put_over (get_existing st) (item_of outside nobody server (info_of q l))))
                  st)
      by_list [] n = absurd (n refl)
      by_list (x ∷ l) n = unfold store_segment in refl

  module _ (positive : is_pos server.svc.max_retries ≡ true) (shared : st.replica ≡ none) where
    keyed : str_eq item.key [] ≡ false
    keyed = segment_key_given q.id q.rend q.idx

    passes :
        check_put put_request.expected_version item.key (lookup item.key st.store.entries) ≡ ok tt
    passes =
        ap
          (λ r.
            check_put (put_over r item).expected_version item.key
              (lookup item.key st.store.entries))
          (get_metadata-lookup item.key st keyed
            ∙ ap (λ (t : Store). found_item item.key (lookup item.key t.entries))
                (read_store_shared st shared))
        ∙ check_put-put_over item.key item (lookup item.key st.store.entries)

    unguarded :
        guard_holds st.etcd.kv (etcd_key server.svc item.key) put_request.expected_etcd_revision
        ≡ true
    unfolding guard_holds
    unguarded = rw (put_over_fields (get_existing st) item).1 refl

    abbrev after_put : State × Result PutMetadataResponse
    after_put = put_metadata outside.encode_item nobody server.svc (some put_request) st

    answered :
        (p : State × Result PutMetadataResponse) (r : PutMetadataResponse)
        → p.1 ≡ ok r
        → stored_response outside nobody server info p ≡ (p.0, respond 200 (located info))
    unfolding stored_response
    answered (s, ok x) r h = refl
    answered (s, err e) r h = cc

    put_answer :
        replicas ≢ []
        → put_parsed outside nobody server (parsed q) st ≡ (after_put.0, respond 200 (located info))
    put_answer some_node =
        put_parsed_lem some_node
        ∙ answered after_put _
            (put_checked-Stores outside.encode_item server.svc positive put_request item
              (put_over_fields (get_existing st) item).0 keyed st passes unguarded).0

    get_answer :
        replicas ≢ []
        → outside.decode_info (outside.encode_info info) ≡ info
        → get_parsed outside nobody server (parsed q) after_put.0 ≡ respond 200 (located info)
    unfolding get_parsed
    get_answer some_node decoded =
        ap (locations_response outside nobody server) (
          get-put_metadata outside.encode_item server.svc positive put_request item
            (put_over_fields (get_existing st) item).0 keyed st shared passes unguarded)
        ∙ unfold locations_response clone in rw (decoded, some_length replicas some_node) refl

  -- A segment can be named in a request, and the ring has a node.
  abbrev request : Str → Str → Request
  request method tail = segment_request method tail q.id q.rend q.idx_text

  route_put :
      IsNamed outside.scan_int q
      → route_video outside nobody server (request (lit "POST") (lit "segments")) st
        ≡ put_parsed outside nobody server (parsed q) st
  unfolding route_video handle_put_segment
  route_put h =
      rw (has_suffix-append (lit "/videos/" ++ q.id) (lit "/segments"), str_eq_refl (lit "POST"))
        (ap (λ (x : Parsed). put_parsed outside nobody server x st)
          (parse_segment_request outside.scan_int (lit "POST") (lit "segments") q h))

  route_get :
      (s : State)
      → IsNamed outside.scan_int q
      → route_video outside nobody server (request (lit "GET") (lit "segments/loc")) s
        ≡ (s, get_parsed outside nobody server (parsed q) s)
  unfolding route_video handle_get_locations
  route_get s h =
      rw
        (
          get_is_not_post
              (has_suffix (request (lit "GET") (lit "segments/loc")).path (lit "/segments")),
          has_suffix-append (lit "/videos/" ++ q.id) (lit "/segments/loc"),
          str_eq_refl (lit "GET"),
        )
        (ap (λ (x : Parsed). (s, get_parsed outside nobody server x s))
          (parse_segment_request outside.scan_int (lit "GET") (lit "segments/loc") q h))

  -- For a named segment on a ring with a node, with a positive number of retries, one pool and no
  -- other client: the POST that stores it answers with the replicas that the ring gives for it, and
  -- a GET of its locations then answers with the same, and changes nothing. JSON must decode the
  -- stored value again.
  pub get_locations-put_segment :
      IsNamed outside.scan_int q
      → replicas ≢ []
      → is_pos server.svc.max_retries ≡ true
      → st.replica ≡ none
      → outside.decode_info (outside.encode_info info) ≡ info
      → let put = route_video outside nobody server (request (lit "POST") (lit "segments")) st in
        (put.1 ≡ respond 200 (located info))
        × (route_video outside nobody server (request (lit "GET") (lit "segments/loc")) put.0
            ≡ (put.0, respond 200 (located info)))
  get_locations-put_segment h some_node positive shared decoded =
      rw (route_put h ∙ put_answer positive shared some_node) (
        refl,
        route_get (after_put positive shared).0 h
            ∙ ap (λ a. ((after_put positive shared).0, a))
                (get_answer positive shared some_node decoded),
      )
