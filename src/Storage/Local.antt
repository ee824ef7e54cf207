-- ===== src/Storage/Local.antt =====
-- `localStream` and `InvokeUploadSegment` of internal/storage/proto/storage.pb.go. After the last
-- request `Recv` returns a nil message and no error, so the loop of `UploadSegment` ends only at a
-- commit: it runs on fuel here, one unit for each call of `Recv`.
use tritontube.Base.{
  false≢true, ℕ, zero, suc, ◌≤◌, Str, true, false, List, [], ◌∷◌, ◌++◌, Option, none, some, Map,
  map, any, length, if◌then◌else◌, arith, ◌≡◌, refl, ap, sym, ◌∙◌, Bool-cases, inl, inr,
}
use tritontube.Storage.Types.{
  UploadSegmentRequest, UploadSegmentResponse, Result, ok, err, get_header, get_chunk, get_commit,
  missing_header,
}
use tritontube.Storage.Upload.{
  message, receive, Checked, check_header, receive_header, Service, Environment, after_receive,
  after_header, upload_segment, tail,
}

-- The loop of `UploadSegment` on a local stream; `none` where the fuel is spent.
unfoldable pub receive_local : ℕ → List UploadSegmentRequest → Str → Option Str
unfolding get_commit get_chunk
receive_local zero reqs payload = none
receive_local (suc fuel) [] payload = receive_local fuel [] payload
receive_local (suc fuel) (msg ∷ reqs) payload =
    let collected = payload ++ get_chunk msg in
    let rest = receive_local fuel reqs collected in if get_commit msg then some collected else rest

-- The header of a local stream: the nil message of an empty one has none.
unfoldable pub local_header : List UploadSegmentRequest → Result Checked
unfolding check_header get_header
local_header [] = err missing_header
local_header (msg ∷ reqs) = check_header (get_header msg)

abbrev pub rest_of : List UploadSegmentRequest → List UploadSegmentRequest
rest_of [] = []
rest_of (msg ∷ reqs) = reqs

module _ {S : Type 0} (env : Environment) (service : Service S) where
  abbrev pub Ended : Type 0
  Ended = (Map Str × S) × Result UploadSegmentResponse

  -- `UploadSegment` once the payload is there, if the loop ends
  unfoldable pub local_payload : Checked → Option Str → Map Str → S → Option Ended
  unfolding after_receive
  local_payload checked none files s = none
  local_payload checked (some payload) files s =
      some (after_receive env service checked (ok payload) files s)

  unfoldable pub local_checked :
      Result Checked → ℕ → List UploadSegmentRequest → Map Str → S → Option Ended
  unfolding local_payload receive_local
  local_checked (err e) fuel reqs files s = some ((files, s), err e)
  local_checked (ok checked) fuel reqs files s =
      local_payload checked (receive_local fuel reqs []) files s

  -- `InvokeUploadSegment`. The response that the service closes the stream with is the answer.
  unfoldable pub invoke_upload_segment : ℕ → List UploadSegmentRequest → Map Str → S → Option Ended
  unfolding local_checked local_header
  invoke_upload_segment fuel reqs files s =
      local_checked (local_header reqs) fuel (rest_of reqs) files s

-- With a commit the loop needs no more fuel than there are requests, and collects what the loop on
-- a stream that ends collects.
receive_local-committed :
    (fuel : ℕ) (reqs : List UploadSegmentRequest) (payload : Str)
    → length reqs ≤ fuel
    → any get_commit reqs ≡ true
    → (all : Str) × (receive_local fuel reqs payload ≡ some all)
      × (receive (map message reqs) payload ≡ ok all)
unfolding receive_local receive
receive_local-committed fuel [] payload h c = cc
receive_local-committed zero (msg ∷ reqs) payload h c = absurd (omega arith)
receive_local-committed (suc fuel) (msg ∷ reqs) payload h c = elim (Bool-cases (get_commit msg)) [
  | inl done ↦ (payload ++ get_chunk msg, rw done refl, rw done refl)
  | inr more ↦
      rw more
        (receive_local-committed fuel reqs (payload ++ get_chunk msg) (omega arith) (rw more at c))
]

-- Without a commit no amount of fuel is enough.
receive_local-spins :
    (fuel : ℕ) (reqs : List UploadSegmentRequest) (payload : Str)
    → any get_commit reqs ≡ false
    → receive_local fuel reqs payload ≡ none
unfolding receive_local
receive_local-spins zero reqs payload c = refl
receive_local-spins (suc fuel) [] payload c = receive_local-spins fuel [] payload c
receive_local-spins (suc fuel) (msg ∷ reqs) payload c = elim (Bool-cases (get_commit msg)) [
  | inl done ↦ absurd (false≢true (sym (rw done at c)))
  | inr more ↦ rw more (receive_local-spins fuel reqs (payload ++ get_chunk msg) (rw more at c))
]

module _ {S : Type 0} (env : Environment) (service : Service S) where
  -- After a sound header, `InvokeUploadSegment` returns exactly if one of the later requests is a
  -- commit. With a commit it returns within as many calls of `Recv` as there are requests, with the
  -- outcome of the same upload over a stream that ends. Without one it never returns, although an
  -- upload over a stream that ends does.
  pub invoke_upload_segment_returns :
      (msg : UploadSegmentRequest) (reqs : List UploadSegmentRequest) (checked : Checked)
      (files : Map Str) (s : S)
      → check_header (get_header msg) ≡ ok checked
      → ((fuel : ℕ)
          → length reqs ≤ fuel
          → any get_commit reqs ≡ true
          → invoke_upload_segment env service fuel (msg ∷ reqs) files s
            ≡ some (upload_segment env service (map message (msg ∷ reqs)) files s))
        × ((fuel : ℕ)
            → any get_commit reqs ≡ false
            → invoke_upload_segment env service fuel (msg ∷ reqs) files s ≡ none)
  unfolding invoke_upload_segment upload_segment local_header receive_header tail local_checked
      after_header
  invoke_upload_segment_returns msg reqs checked files s h = (
    λ fuel enough c.
        let r = receive_local-committed fuel reqs [] enough c in
        ap (λ o. local_checked env service o fuel reqs files s) h
        ∙ ap (λ o. local_payload env service checked o files s) r.1
        ∙ ap (λ o. some (after_receive env service checked o files s)) (sym r.2)
        ∙ ap (λ o. some (after_header env service o (map message reqs) files s)) (sym h),
    λ fuel c.
        ap (λ o. local_checked env service o fuel reqs files s) h
        ∙ ap (λ o. local_payload env service checked o files s)
            (receive_local-spins fuel reqs [] c),
  )
