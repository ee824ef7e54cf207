-- ===== src/WebServer/View.antt =====
-- What a view in cmd/web/main.go finds after an upload.
use tritontube.WebServer.Blobs.{
  read_at, IsStorage, Everywhere, get_first_lem, put_all-Everywhere, put_all-Somewhere,
}
use tritontube.Base.{
  str_eq, false, ℕ, ◌≤◌, Str, lit, List, [], ◌∷◌, ◌++◌, Option, none, some, arith, ◌≡◌, refl, ap,
  sym, ◌∙◌, inl, All, Lacks, split_on, split_on-append, split_on_lem, trim_prefix, has_prefix,
}
use tritontube.Http.{Request, Response, respond}
use tritontube.WebServer.{
  Tally, content, Outside, object_path, blob_url, metadata_url, put_all, upload_answer,
  handle_upload, get_first, view_from, view_located, view_parts, handle_view,
}
use tritontube.WebServer.Quorum.{IsGiven, upload_request, no_tally, handle_upload-put_all}

-- A segment that a path of `/v/` can name
pub record IsPath (id rend idx : Str) : Type 0 where
  pub given : IsGiven id rend idx
  pub id_part : Lacks 47 id
  pub rend_part : Lacks 47 rend
  pub idx_part : Lacks 47 idx

abbrev pub view_request : Str → Str → Str → Request
view_request id rend idx = record {
  method = lit "GET";
  path = lit "/v/" ++ object_path id rend idx;
  query = [];
  body = [];
}

pub object_given : (id rend idx : Str) → str_eq (object_path id rend idx) [] ≡ false
unfolding str_eq
object_given [] rend idx = refl
object_given (c ∷ id) rend idx = refl

parts_of :
    (id rend idx : Str)
    → IsPath id rend idx
    → split_on 47 (object_path id rend idx) ≡ id ∷ rend ∷ idx ∷ []
parts_of id rend idx h =
    split_on-append 47 id (rend ++ 47 ∷ idx) h.id_part
    ∙ ap (λ l. id ∷ l)
        (split_on-append 47 rend idx h.rend_part
          ∙ ap (λ l. rend ∷ l) (split_on_lem 47 idx h.idx_part))

module _ {W : Type 0} (outside : Outside W) where
  pub view_lem :
      (metadata_base id rend idx : Str) (w : W)
      → IsPath id rend idx
      → handle_view outside metadata_base (view_request id rend idx) w
        ≡ view_located outside (object_path id rend idx) (
            outside.send
              (lit "GET")
              (metadata_url metadata_base (lit "/segments/loc") id rend idx)
              []
              w)
  unfolding handle_view trim_prefix has_prefix
  view_lem metadata_base id rend idx w h =
      ap (λ l. view_parts outside metadata_base l w) (parts_of id rend idx h)
      ∙ unfold view_parts in rw (h.given.id_given, h.given.rend_given, h.given.idx_given) refl

  pub located_lem :
      (object : Str) (p : W × Option (Response Str)) (w : W) (r : Response Str) (b : Str)
      (bases : List Str)
      → p.0 ≡ w
      → p.1 ≡ some r
      → r.status ≡ 200
      → outside.decode_replicas r.body ≡ some (b ∷ bases)
      → view_located outside object p ≡ get_first outside object (b ∷ bases) w
  unfolding view_located view_from
  located_lem object (v, none) w r b bases hw hr status decoded = cc
  located_lem object (v, some x) w r b bases hw hr status decoded =
      let same : x ≡ r = cc in
      rw (same, status, decoded) (ap (get_first outside object (b ∷ bases)) hw)

  pub accepted :
      (quorum : ℕ) (object : Str) (p : W × Tally)
      → ((upload_answer outside quorum object p).0 ≡ p.0)
        × ((upload_answer outside quorum object p).1.status ≡ 201 → quorum ≤ p.1.success)
  unfolding upload_answer
  accepted quorum object (w, t) = (ground arith, λ h. ground arith)

  -- A segment that a path can name, of which no replica holds a blob yet, is uploaded with a quorum
  -- of at least one. If the upload answers 201 and the metadata server still names the same
  -- replicas, a view answers with exactly the uploaded bytes, whichever of the PUTs failed. The replicas must be servers that keep what they accept.
  pub handle_view-handle_upload :
      {Reached : Str → Type 0} (metadata_base id rend idx payload : Str) (quorum : ℕ) (b : Str)
      (bases : List Str) (w w1 : W) (r r' : Response Str)
      → IsStorage outside (object_path id rend idx) Reached
      → All Reached (b ∷ bases)
      → IsPath id rend idx
      → 1 ≤ quorum
      → outside.send (lit "POST") (metadata_url metadata_base (lit "/segments") id rend idx) [] w
        ≡ (w1, some r)
      → r.status ≡ 200
      → outside.decode_replicas r.body ≡ some (b ∷ bases)
      → All
          (λ base. read_at outside (blob_url (object_path id rend idx) base) w1 ≡ none)
          (b ∷ bases)
      → let upload =
          handle_upload outside metadata_base quorum
            (upload_request id rend idx)
            (some payload)
            w in
        upload.1.status ≡ 201
        → (outside.send
            (lit "GET")
            (metadata_url metadata_base (lit "/segments/loc") id rend idx)
            []
            upload.0).1
          ≡ some r'
        → r'.status ≡ 200
        → outside.decode_replicas r'.body ≡ some (b ∷ bases)
        → handle_view outside metadata_base (view_request id rend idx) upload.0
          ≡ (upload.0, respond 200 (content payload))
  handle_view-handle_upload metadata_base id rend idx payload quorum b bases w w1 r r' laws reached
        path positive sent status decoded unheld created asked status' decoded' =
      let object = object_path id rend idx in
      let url = metadata_url metadata_base (lit "/segments/loc") id rend idx in
      let puts = put_all outside object payload (b ∷ bases) no_tally w1 in
      let run =
        handle_upload-put_all outside metadata_base id rend idx payload quorum b bases w w1 r
          path.given sent status decoded in
      let upload =
        handle_upload outside metadata_base quorum (upload_request id rend idx) (some payload) w in
      let answer = accepted quorum object puts in
      let final : upload.0 ≡ puts.0 = ap (λ p. p.0) run ∙ answer.0 in
      let enough : quorum ≤ puts.1.success = answer.1 (ap (λ p. p.1.status) (sym run) ∙ created) in
      view_lem metadata_base id rend idx upload.0 path
      ∙ located_lem object (outside.send (lit "GET") url [] upload.0) upload.0 r' b bases
          (laws.get_frame url upload.0) asked status' decoded'
      ∙ rw final (
          get_first_lem outside laws payload (b ∷ bases) puts.0
            (put_all-Everywhere outside laws payload (b ∷ bases) (b ∷ bases) no_tally w1 reached
              reached (fresh object payload (b ∷ bases) w1 unheld))
            (put_all-Somewhere outside laws payload (b ∷ bases) no_tally w1 reached
              (omega (arith, positive, enough))))
    where
      fresh :
          (object payload : Str) (l : List Str) (w : W)
          → All (λ base. read_at outside (blob_url object base) w ≡ none) l
          → Everywhere outside payload object l w
      fresh object payload [] w h = tt
      fresh object payload (x ∷ xs) w h = (inl h.0, fresh object payload xs w h.1)
