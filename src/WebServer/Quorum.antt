-- ===== src/WebServer/Quorum.antt =====
-- The write quorum of an upload in cmd/web/main.go.
use tritontube.Base.{
  trim_right, leb, ==_iff, ℕ, ◌+◌, ◌≤◌, ◌<◌, Str, lit, str_eq, le→leb, ◌==◌, false, List, [], ◌∷◌,
  ◌++◌, Option, none, some, map, lookup, map-append, append-nil, append_assoc, if◌then◌else◌, arith,
  ◌≡◌, refl, ap, sym, ◌∙◌, Bool-cases, inl, inr,
}
use tritontube.Http.{Request, Response, respond}
use tritontube.WebServer.{
  PutResult, Tally, written, missed, Outside, object_path, blob_url, metadata_url, add_result,
  put_all, upload_answer, upload_to, upload_created, handle_upload,
}

abbrev pub bases_of : List PutResult → List Str
bases_of results = map (λ (r : PutResult). r.base) results

-- The status of an answer, 0 if there is none
abbrev pub answered : Option (Response Str) → ℕ
answered none = 0
answered (some r) = r.status

abbrev pub statuses_of : List PutResult → List ℕ
statuses_of results = map (λ (r : PutResult). r.status) results

-- How many answers are a 201
abbrev pub accepted : List (Option (Response Str)) → ℕ
accepted [] = 0
accepted (r ∷ rs) = (if answered r == 201 then 1 else 0) + accepted rs

-- The request of an upload
abbrev pub upload_request : Str → Str → Str → Request
upload_request id rend idx = record {
  method = lit "POST";
  path = lit "/upload";
  query = (lit "id", id) ∷ (lit "rend", rend) ∷ (lit "idx", idx) ∷ [];
  body = [];
}

pub record IsGiven (id rend idx : Str) : Type 0 where
  pub id_given : str_eq id [] ≡ false
  pub rend_given : str_eq rend [] ≡ false
  pub idx_given : str_eq idx [] ≡ false

abbrev pub no_tally : Tally
no_tally = record { success = 0; results = [] }

module _ {W : Type 0} (outside : Outside W) where
  -- One PUT adds a result.
  add_result-bases :
      (base : Str) (reply : Option (Response Str)) (t : Tally)
      → bases_of (add_result outside base reply t).results ≡ bases_of t.results ++ base ∷ []
  unfolding add_result
  add_result-bases base none t = map-append _ t.results _
  add_result-bases base (some r) t = elim (Bool-cases (r.status == 201)) [
    | inl e ↦ rw e (map-append _ t.results _)
    | inr e ↦ rw e (map-append _ t.results _)
  ]

  put_all-bases :
      (object payload : Str) (bases : List Str) (t : Tally) (w : W)
      → bases_of (put_all outside object payload bases t w).1.results ≡ bases_of t.results ++ bases
  unfolding put_all
  put_all-bases object payload [] t w = sym (append-nil (bases_of t.results))
  put_all-bases object payload (base ∷ bases) t w =
      let sent = outside.send (lit "PUT") (blob_url object base) payload w in
      put_all-bases object payload bases (add_result outside base sent.1 t) sent.0
      ∙ rw (add_result-bases base sent.1 t) (append_assoc (bases_of t.results) (base ∷ []) bases)

  -- An upload of a given segment, once the metadata server has answered with its replicas.
  pub handle_upload-put_all :
      (metadata_base id rend idx payload : Str) (quorum : ℕ) (b : Str) (bases : List Str) (w w1 : W)
      (r : Response Str)
      → IsGiven id rend idx
      → outside.send (lit "POST") (metadata_url metadata_base (lit "/segments") id rend idx) [] w
        ≡ (w1, some r)
      → r.status ≡ 200
      → outside.decode_replicas r.body ≡ some (b ∷ bases)
      → handle_upload outside metadata_base quorum (upload_request id rend idx) (some payload) w
        ≡ upload_answer outside quorum
            (object_path id rend idx)
            (put_all outside (object_path id rend idx) payload (b ∷ bases) no_tally w1)
  unfolding handle_upload lookup str_eq upload_created
  handle_upload-put_all metadata_base id rend idx payload quorum b bases w w1 r g sent status
        decoded =
      rw (g.id_given, g.rend_given, g.idx_given)
        (ap (upload_created outside quorum (object_path id rend idx) (some payload)) sent
          ∙ rw status (
              ap (λ o. upload_to outside quorum (object_path id rend idx) (some payload) o w1)
                decoded
              ∙ unfold upload_to in refl))

  pub upload_answer-created :
      (quorum : ℕ) (object : Str) (p : W × Tally)
      → (quorum ≤ p.1.success
          → upload_answer outside quorum object p
            ≡ (p.0, respond 201 (written quorum p.1 (lit "videos/" ++ object))))
        × (p.1.success < quorum
            → upload_answer outside quorum object p ≡ (p.0, respond 502 (missed quorum p.1)))
  unfolding upload_answer
  upload_answer-created quorum object (w, t) =
      (λ h. rw (le→leb quorum t.success h) refl, λ h. ground arith)

  upload_answer-world :
      (quorum : ℕ) (object : Str) (p : W × Tally) → (upload_answer outside quorum object p).0 ≡ p.0
  unfolding upload_answer
  upload_answer-world quorum object (w, t) = elim (Bool-cases (leb quorum t.success)) [
    | inl e ↦ rw e refl
    | inr e ↦ rw e refl
  ]

  -- One PUT of the payload to each base in turn: the world after it, and the answers.
  abbrev pub puts : Str → Str → List Str → W → W × List (Option (Response Str))
  puts object payload [] w = (w, [])
  puts object payload (base ∷ bases) w =
      let (w1, reply) =
        outside.send (lit "PUT") (trim_right 47 base ++ (lit "/blob/videos/" ++ object)) payload
          w in
      let (w2, replies) = puts object payload bases w1 in (w2, reply ∷ replies)

  add_result-statuses :
      (base : Str) (reply : Option (Response Str)) (t : Tally)
      → statuses_of (add_result outside base reply t).results
        ≡ statuses_of t.results ++ answered reply ∷ []
  unfolding add_result
  add_result-statuses base none t = map-append _ t.results _
  add_result-statuses base (some r) t = elim (Bool-cases (r.status == 201)) [
    | inl e ↦ rw e (
        map-append _ t.results _
        ∙ ap (λ n. statuses_of t.results ++ n ∷ []) (sym ((==_iff r.status 201).0 e)))
    | inr e ↦ rw e (map-append _ t.results _)
  ]

  add_result-success :
      (base : Str) (reply : Option (Response Str)) (t : Tally)
      → (add_result outside base reply t).success
        ≡ t.success + (if answered reply == 201 then 1 else 0)
  unfolding add_result
  add_result-success base none t = omega arith
  add_result-success base (some r) t = elim (Bool-cases (r.status == 201)) [
    | inl e ↦ rw e (omega arith)
    | inr e ↦ rw e (omega arith)
  ]

  put_all-puts :
      (object payload : Str) (bases : List Str) (t : Tally) (w : W)
      → let (w', replies) = puts object payload bases w in
        let r = put_all outside object payload bases t w in
        (r.0 ≡ w')
        × (statuses_of r.1.results ≡ statuses_of t.results ++ map answered replies)
        × (r.1.success ≡ t.success + accepted replies)
  unfolding put_all blob_url
  put_all-puts object payload [] t w = (refl, sym (append-nil (statuses_of t.results)), omega arith)
  put_all-puts object payload (base ∷ bases) t w =
      let sent = outside.send (lit "PUT") (blob_url object base) payload w in
      let rest = put_all-puts object payload bases (add_result outside base sent.1 t) sent.0 in
      (
        rest.0,
        rest.1
            ∙ rw (add_result-statuses base sent.1 t) (
                append_assoc (statuses_of t.results) (answered sent.1 ∷ [])
                  (map answered (puts object payload bases sent.0).1)),
        omega (arith, rest.2, add_result-success base sent.1 t),
      )

  -- An upload of a given segment, whose body can be read, once the metadata server has answered with
  -- its replicas: it sends one PUT of the body to every replica, in their order, and does nothing
  -- else. It reports for each replica the status that it answered, 0 where there was no answer, and
  -- how many of them answered 201. It answers 201 if these are at least the quorum, and else 502.
  pub handle_upload_quorum :
      (metadata_base id rend idx payload : Str) (quorum : ℕ) (b : Str) (bases : List Str) (w w1 : W)
      (r : Response Str)
      → IsGiven id rend idx
      → outside.send (lit "POST") (metadata_url metadata_base (lit "/segments") id rend idx) [] w
        ≡ (w1, some r)
      → r.status ≡ 200
      → outside.decode_replicas r.body ≡ some (b ∷ bases)
      → let object = object_path id rend idx in
        let (w', replies) = puts object payload (b ∷ bases) w1 in
        let upload =
          handle_upload outside metadata_base quorum
            (upload_request id rend idx)
            (some payload)
            w in
        (upload.0 ≡ w')
        × (t : Tally) × (bases_of t.results ≡ b ∷ bases)
        × (statuses_of t.results ≡ map answered replies)
        × (t.success ≡ accepted replies)
        × (quorum ≤ accepted replies
            → upload.1 ≡ respond 201 (written quorum t (lit "videos/" ++ object)))
        × (accepted replies < quorum → upload.1 ≡ respond 502 (missed quorum t))
  handle_upload_quorum metadata_base id rend idx payload quorum b bases w w1 r g sent status
        decoded =
      let object = object_path id rend idx in
      let tried = put_all outside object payload (b ∷ bases) no_tally w1 in
      let (after, statuses, counted) = put_all-puts object payload (b ∷ bases) no_tally w1 in
      let verdict = upload_answer-created quorum object tried in
      rw
        (handle_upload-put_all metadata_base id rend idx payload quorum b bases w w1 r g sent status
          decoded)
        (
          upload_answer-world quorum object tried ∙ after,
          tried.1,
          put_all-bases object payload (b ∷ bases) no_tally w1,
          statuses,
          omega (arith, counted),
          λ h. ap (λ p. p.1) (verdict.0 (omega (arith, h, counted))),
          λ h. ap (λ p. p.1) (verdict.1 (omega (arith, h, counted))),
        )
