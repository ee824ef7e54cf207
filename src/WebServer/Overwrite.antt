-- ===== src/WebServer/Overwrite.antt =====
-- A segment that is uploaded again (cmd/web/main.go): what a view finds when the replicas hold an
-- older blob of it.
use tritontube.Base.{
  ℕ, suc, ◌+◌, ◌≤◌, Str, lit, ◌==◌, List, [], ◌∷◌, length, Option, none, some, arith, ◌≡◌, ap, sym,
  ◌∙◌, Bool-cases, inl, inr, All,
}
use tritontube.Http.{Response, respond}
use tritontube.WebServer.{
  Tally, content, Outside, object_path, blob_url, metadata_url, add_result, put_all, handle_upload,
  get_first, handle_view,
}
use tritontube.WebServer.Quorum.{upload_request, no_tally, handle_upload-put_all}
use tritontube.WebServer.Blobs.{
  read_at, is_created, IsStorage, found_lem, put_all_keeps, not_counted,
}
use tritontube.WebServer.View.{IsPath, view_request, view_lem, located_lem, accepted}

module _ {W : Type 0} (outside : Outside W) where
  counted :
      (base : Str) (reply : Option (Response Str)) (t : Tally)
      → (add_result outside base reply t).success ≤ suc t.success
  unfolding add_result
  counted base none t = omega arith
  counted base (some r) t = elim (Bool-cases (r.status == 201)) [
    | inl e ↦ rw e (omega arith)
    | inr e ↦ rw e (omega arith)
  ]

  put_all-bound :
      (object payload : Str) (bases : List Str) (t : Tally) (w : W)
      → (put_all outside object payload bases t w).1.success ≤ t.success + length bases
  unfolding put_all
  put_all-bound object payload [] t w = omega arith
  put_all-bound object payload (base ∷ bases) t w =
      let sent = outside.send (lit "PUT") (blob_url object base) payload w in
      omega (
        arith,
        counted base sent.1 t,
        put_all-bound object payload bases (add_result outside base sent.1 t) sent.0,
      )

  module _ {object : Str} {Reached : Str → Type 0} (laws : IsStorage outside object Reached) where
    -- If as many PUTs are accepted as there are replicas, the first replica holds the payload.
    put_all-first :
        (payload base : Str) (bases : List Str) (w : W)
        → Reached base
        → All Reached bases
        → suc (length bases) ≤ (put_all outside object payload (base ∷ bases) no_tally w).1.success
        → read_at outside
            (blob_url object base)
            (put_all outside object payload (base ∷ bases) no_tally w).0
          ≡ some payload
    unfolding put_all
    put_all-first payload base bases w r rs h =
        let sent = outside.send (lit "PUT") (blob_url object base) payload w in
        let t = add_result outside base sent.1 no_tally in
        elim (Bool-cases (is_created sent.1)) [
          | inl e ↦
              put_all_keeps outside laws payload base bases t sent.0 r rs
                (laws.put_stored base payload w r e)
          | inr e ↦ absurd (
              omega (
                arith,
                h,
                put_all-bound object payload bases t sent.0,
                not_counted outside laws base sent.1 no_tally e,
              ))
        ]

    pub first_answers :
        (c base : Str) (bases : List Str) (w : W)
        → read_at outside (blob_url object base) w ≡ some c
        → get_first outside object (base ∷ bases) w ≡ (w, respond 200 (content c))
    unfolding get_first
    first_answers c base bases w h =
        (found_lem outside (get_first outside object bases)
            (outside.send (lit "GET") (blob_url object base) [] w) w
            (laws.get_frame (blob_url object base) w)).1
          c h

  -- A segment that a path can name is uploaded, with a quorum of all its replicas at least, whatever
  -- they held before. If the upload answers 201 and the metadata server still names the same
  -- replicas, a view answers with exactly the uploaded bytes. The replicas must be servers that keep
  -- what they accept.
  pub handle_view-handle_upload_first :
      {Reached : Str → Type 0} (metadata_base id rend idx payload : Str) (quorum : ℕ) (b : Str)
      (bases : List Str) (w w1 : W) (r r' : Response Str)
      → IsStorage outside (object_path id rend idx) Reached
      → All Reached (b ∷ bases)
      → IsPath id rend idx
      → length (b ∷ bases) ≤ quorum
      → outside.send (lit "POST") (metadata_url metadata_base (lit "/segments") id rend idx) [] w
        ≡ (w1, some r)
      → r.status ≡ 200
      → outside.decode_replicas r.body ≡ some (b ∷ bases)
      → let upload =
          handle_upload outside metadata_base quorum
            (upload_request id rend idx)
            (some payload)
            w in
        upload.1.status ≡ 201
        → (outside.send
            (lit "GET")
            (metadata_url metadata_base (lit "/segments/loc") id rend idx)
            []
            upload.0).1
          ≡ some r'
        → r'.status ≡ 200
        → outside.decode_replicas r'.body ≡ some (b ∷ bases)
        → handle_view outside metadata_base (view_request id rend idx) upload.0
          ≡ (upload.0, respond 200 (content payload))
  handle_view-handle_upload_first metadata_base id rend idx payload quorum b bases w w1 r r' laws
        reached path all sent status decoded created asked status' decoded' =
      let object = object_path id rend idx in
      let url = metadata_url metadata_base (lit "/segments/loc") id rend idx in
      let puts = put_all outside object payload (b ∷ bases) no_tally w1 in
      let run =
        handle_upload-put_all outside metadata_base id rend idx payload quorum b bases w w1 r
          path.given sent status decoded in
      let upload =
        handle_upload outside metadata_base quorum (upload_request id rend idx) (some payload) w in
      let answer = accepted outside quorum object puts in
      let final : upload.0 ≡ puts.0 = ap (λ p. p.0) run ∙ answer.0 in
      let enough : quorum ≤ puts.1.success = answer.1 (ap (λ p. p.1.status) (sym run) ∙ created) in
      view_lem outside metadata_base id rend idx upload.0 path
      ∙ located_lem outside object (outside.send (lit "GET") url [] upload.0) upload.0 r' b bases
          (laws.get_frame url upload.0) asked status' decoded'
      ∙ rw final (
          first_answers laws payload b bases puts.0 (
            put_all-first laws payload b bases w1 reached.0 reached.1 (omega (arith, all, enough))))
