-- ===== src/Storage/Outcomes.antt =====
-- What an upload (`UploadSegment` of internal/storage/service.go) leaves behind.
use tritontube.Base.{
  ◌∙◌, is_some, ◌&&◌, ap₂, inr, sym, false≢true, inl, Bool-cases, ◌≢◌, str_eq_sym, Str, str_eq,
  Bool, false, List, [], ◌∷◌, ◌++◌, Option, none, some, Map, arith, ◌≡◌, refl, filter, not, ap,
  if◌then◌else◌,
}
use tritontube.Chash.Preference.{mem}
use tritontube.Cluster.{replicas_of}
use tritontube.Storage.Types.{
  UploadSegmentResponse, UploadSegmentRequest, Result, ok, err, missing_primary, get_header,
  UploadSegmentHeader,
}
use tritontube.Storage.Files.{PutResult}
use tritontube.Storage.Replication.{
  merge_replication_errors_lem, error_of, merge_replication_errors, validate_replication_targets,
  find_primary,
}
use tritontube.Storage.Upload.{
  Environment, put_payload, tail, validated, after_put, after_receive, targets_or_self,
  after_header, receive_header, Incoming, message, receive, Checked, check_header, Service,
  upload_segment, targets_of, stored_replicas, to_s3, s3_result_key,
}

nonempty : (self : Str) (l : List Str) → targets_or_self self l ≢ []
nonempty self [] h = cc
nonempty self (x ∷ xs) h = cc

missing_lem :
    (l : List Str) (p : Str) → mem p l ≡ false → find_primary l p ≡ some (missing_primary p)
unfolding find_primary
missing_lem [] p h = refl
missing_lem (x ∷ xs) p h = rw (str_eq_sym x p) (elim (Bool-cases (str_eq p x)) [
  | inl e ↦ absurd (false≢true (sym (rw e at h)))
  | inr e ↦ rw e (missing_lem xs p (rw e at h))
])

refused_lem :
    (l : List Str) (p : Str)
    → mem p l ≡ false
    → l ≢ []
    → validate_replication_targets l p ≡ some (missing_primary p)
unfolding validate_replication_targets
refused_lem [] p h n = absurd (n refl)
refused_lem (x ∷ xs) p h n = missing_lem (x ∷ xs) p h

filter_all : (f g : Str → Bool) (l : List Str) → ((x : Str) → f x ≡ g x) → filter f l ≡ filter g l
filter_all f g [] h = refl
filter_all f g (x ∷ xs) h = rw (h x, filter_all f g xs h) refl

s3_lem :
    (b : Bool) (e : Option Str) (key : Str)
    → e ≡ none
    → (if b && not (is_some e) then key ∷ [] else []) ≡ (if b then key ∷ [] else [])
s3_lem b e key h = rw h (ground arith)

-- A segment's record names every replica: if no replica has an error, the replicas of the record
-- are all targets but the node itself, in their order, and then the upload to S3, if the header
-- asks for one.
pub stored_replicas_complete :
    (self : Str) (h : UploadSegmentHeader) (targets : List Str) (results : Map (Option Str))
    → merge_replication_errors results ≡ none
    → stored_replicas self h targets results
      ≡ filter (λ id. not (str_eq id self)) targets
        ++ (if to_s3 h then s3_result_key h ∷ [] else [])
unfolding stored_replicas
stored_replicas_complete self h targets results e =
    ap₂ (λ a b. a ++ b)
      (filter_all (λ id. not (str_eq id self) && not (is_some (error_of id results)))
        (λ id. not (str_eq id self)) targets
        (λ id. ground (arith, merge_replication_errors_lem results e id)))
      (s3_lem (to_s3 h) (error_of (s3_result_key h) results) (s3_result_key h)
        (merge_replication_errors_lem results e (s3_result_key h)))

module _ {S : Type 0} (env : Environment) (service : Service S) where
  targets_nonempty : (id : Str) → targets_of env service id ≢ []
  unfolding targets_of
  targets_nonempty id h =
      nonempty service.node_id (replicas_of env.sha1 id service.replication_factor service.ring) h

  -- An upload with a sound header and a whole stream, to a node outside the segment's replica set,
  -- is refused after its file is written without an error: the answer is the error, the metadata
  -- store is as before, and the files are those after the write.
  pub upload_segment-refused :
      (request : UploadSegmentRequest) (stream : List Incoming) (checked : Checked) (payload : Str)
      (files : Map Str) (s : S)
      → check_header (get_header request) ≡ ok checked
      → receive stream [] ≡ ok payload
      → (put_payload env service checked payload files).1.error ≡ none
      → mem service.node_id (targets_of env service checked.header.segment_id) ≡ false
      → upload_segment env service (message request ∷ stream) files s ≡ (
        ((put_payload env service checked payload files).0, s),
        err (missing_primary service.node_id),
      )
  unfolding upload_segment receive_header after_header after_receive after_put validated tail
  upload_segment-refused request stream checked payload files s h r p m =
      let stored : Map Str × PutResult = put_payload env service checked payload files in
      let targets : List Str = targets_of env service checked.header.segment_id in
      let paired : S × Result UploadSegmentResponse → (Map Str × S) × Result UploadSegmentResponse =
        λ r. ((stored.0, r.0), r.1) in
      ap (λ o. after_header env service o stream files s) h
      ∙ ap (λ o. after_receive env service checked o files s) r
      ∙ ap (λ o. paired (after_put env service o checked payload stored.1 s)) p
      ∙ ap (λ o. paired (validated env service o checked targets payload stored.1 s))
          (refused_lem targets service.node_id m (targets_nonempty checked.header.segment_id))
