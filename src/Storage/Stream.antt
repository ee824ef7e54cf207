-- ===== src/Storage/Stream.antt =====
-- `localStream` of internal/storage/proto/storage.pb.go as an object with its methods, and
-- `UploadSegment` (internal/storage/service.go) over it. Its loop runs on fuel, one unit for each `Recv`.
use tritontube.Base.{
  Bool-cases, inl, inr, ℕ, zero, suc, ◌≤◌, Str, true, false, List, [], ◌∷◌, ◌++◌, Option, none,
  some, Map, map, any, length, if◌then◌else◌, ◌≡◌, refl, ap, sym, ◌∙◌, append_assoc, append-nil,
}
use tritontube.Storage.Types.{
  UploadSegmentRequest, UploadSegmentResponse, Result, ok, err, get_header, get_chunk, get_commit,
  missing_header, stream_broken, closed_without_response,
}
use tritontube.Storage.Upload.{
  message, Checked, check_header, Service, Environment, after_receive, upload_segment,
}
use tritontube.Storage.Local.{
  receive_local, local_header, local_checked, local_payload, invoke_upload_segment,
  invoke_upload_segment_returns, Ended,
}

-- The mutex makes each method one step.
pub record LocalStream : Type 0 where
  pub req : List UploadSegmentRequest
  pub res : Option UploadSegmentResponse
  pub error : Option Str

unfoldable pub new_local_stream : LocalStream
new_local_stream = record { req = []; res = none; error = none }

unfoldable pub send : UploadSegmentRequest → LocalStream → LocalStream × Option Str
send msg st = elim st.error [
  | none ↦ (record st { req = st.req ++ msg ∷ [] }, none)
  | some e ↦ (st, some e)
]

unfoldable pub close_and_recv : LocalStream → Option UploadSegmentResponse × Option Str
close_and_recv st = (st.res, st.error)

-- A nil message is `none`.
unfoldable pub recv : LocalStream → LocalStream × (Option UploadSegmentRequest × Option Str)
recv st = elim st.req [
  | [] ↦ (st, (none, st.error))
  | msg ∷ msgs ↦ (record st { req = msgs }, (some msg, none))
]

unfoldable pub send_and_close : UploadSegmentResponse → LocalStream → LocalStream × Option Str
send_and_close res st = elim st.error [
  | none ↦ (record st { res = some res }, none)
  | some e ↦ (st, some e)
]

-- Requests that are sent one after the other
unfoldable pub send_all : List UploadSegmentRequest → LocalStream → LocalStream
unfolding send
send_all [] st = st
send_all (msg ∷ msgs) st = send_all msgs (send msg st).0

-- A fresh stream over which the requests are sent is the one that `InvokeUploadSegment` fills.
send_all-req :
    (msgs reqs : List UploadSegmentRequest)
    → send_all msgs (record new_local_stream { req = reqs })
      ≡ record new_local_stream { req = reqs ++ msgs }
unfolding send_all new_local_stream
send_all-req [] reqs = ap (λ l. record new_local_stream { req = l }) (sym (append-nil reqs))
send_all-req (msg ∷ msgs) reqs =
    send_all-req msgs (reqs ++ msg ∷ [])
    ∙ ap (λ l. record new_local_stream { req = l }) (append_assoc reqs (msg ∷ []) msgs)

-- The header out of the first `Recv`; a nil message has none.
unfoldable pub header_from :
    LocalStream × (Option UploadSegmentRequest × Option Str) → Result Checked
unfolding check_header get_header
header_from (st, (o, some e)) = err (stream_broken e)
header_from (st, (none, none)) = err missing_header
header_from (st, (some msg, none)) = check_header (get_header msg)

-- One round of the loop; a nil message has no chunk and no commit.
unfoldable pub round :
    (LocalStream → Str → Option (LocalStream × Result Str))
    → LocalStream × (Option UploadSegmentRequest × Option Str)
    → Str
    → Option (LocalStream × Result Str)
unfolding get_chunk get_commit
round again (st, (o, some e)) payload = some (st, err (stream_broken e))
round again (st, (none, none)) payload = again st payload
round again (st, (some msg, none)) payload =
    let collected = payload ++ get_chunk msg in
    let rest = again st collected in if get_commit msg then some (st, ok collected) else rest

unfoldable pub collect : ℕ → LocalStream → Str → Option (LocalStream × Result Str)
unfolding round recv
collect zero st payload = none
collect (suc fuel) st payload = round (collect fuel) (recv st) payload

-- What `InvokeUploadSegment` reads off the stream at the end
unfoldable pub stream_result :
    LocalStream → Option Str → Option UploadSegmentResponse → Result UploadSegmentResponse
stream_result st (some e) res = err (stream_broken e)
stream_result st none none = err closed_without_response
stream_result st none (some res) = ok res

module _ {S : Type 0} (env : Environment) (service : Service S) where
  -- The service's answer is sent over the stream, whose state decides the outcome.
  unfoldable pub answered :
      LocalStream → (Map Str × S) × Result UploadSegmentResponse → Ended env service
  unfolding send_and_close stream_result
  answered st (p, err e) = (p, err e)
  answered st (p, ok res) =
      let (closed, e) = send_and_close res st in (p, stream_result closed closed.error closed.res)

  unfoldable pub collected :
      Checked → Option (LocalStream × Result Str) → Map Str → S → Option (Ended env service)
  unfolding after_receive answered
  collected checked none files s = none
  collected checked (some (st, payload)) files s = some (
      answered st
        (after_receive (record env { send_error = st.error }) service checked payload files s))

  unfoldable pub with_header :
      Result Checked → ℕ → LocalStream → Map Str → S → Option (Ended env service)
  unfolding collected collect
  with_header (err e) fuel st files s = some ((files, s), err e)
  with_header (ok checked) fuel st files s = collected checked (collect fuel st []) files s

  unfoldable pub invoke_over_stream :
      ℕ → List UploadSegmentRequest → Map Str → S → Option (Ended env service)
  unfolding with_header header_from recv new_local_stream
  invoke_over_stream fuel reqs files s =
      let first = recv (record new_local_stream { req = new_local_stream.req ++ reqs }) in
      with_header (header_from first) fuel first.0 files s

  -- A stream without an error carries the answer of the service unchanged.
  answered_lem :
      (reqs : List UploadSegmentRequest) (p : (Map Str × S) × Result UploadSegmentResponse)
      → answered (record { req = reqs; res = none; error = none }) p ≡ p
  unfolding answered
  answered_lem reqs (p, err e) = refl
  answered_lem reqs (p, ok res) = refl

  abbrev in_process : Environment
  in_process = record env { send_error = none }

  collected_lem :
      (checked : Checked) (fuel : ℕ) (reqs : List UploadSegmentRequest) (payload : Str)
      (files : Map Str) (s : S)
      → collected checked
          (collect fuel (record { req = reqs; res = none; error = none }) payload)
          files
          s
        ≡ local_payload in_process service checked (receive_local fuel reqs payload) files s
  unfolding collect receive_local
  collected_lem checked zero reqs payload files s = unfold collected local_payload in refl
  collected_lem checked (suc fuel) [] payload files s =
      collected_lem checked fuel [] payload files s
  collected_lem checked (suc fuel) (msg ∷ reqs) payload files s =
      elim (Bool-cases (get_commit msg)) [
        | inl done ↦ rw done (
            unfold collected local_payload in
            ap some (
              answered_lem reqs
                (after_receive in_process service checked (ok (payload ++ get_chunk msg)) files s)))
        | inr more ↦ rw more (collected_lem checked fuel reqs (payload ++ get_chunk msg) files s)
      ]

  with_header_lem :
      (h : Result Checked) (fuel : ℕ) (reqs : List UploadSegmentRequest) (files : Map Str) (s : S)
      → with_header h fuel (record { req = reqs; res = none; error = none }) files s
        ≡ local_checked in_process service h fuel reqs files s
  unfolding with_header local_checked
  with_header_lem (err e) fuel reqs files s = refl
  with_header_lem (ok checked) fuel reqs files s = collected_lem checked fuel reqs [] files s

  invoke_over_stream_lem :
      (fuel : ℕ) (reqs : List UploadSegmentRequest) (files : Map Str) (s : S)
      → invoke_over_stream fuel reqs files s
        ≡ invoke_upload_segment in_process service fuel reqs files s
  unfolding invoke_over_stream invoke_upload_segment local_header
  invoke_over_stream_lem fuel [] files s = with_header_lem (err missing_header) fuel [] files s
  invoke_over_stream_lem fuel (msg ∷ reqs) files s =
      with_header_lem (check_header (get_header msg)) fuel reqs files s

  -- After a sound header, `InvokeUploadSegment` over its local stream returns exactly if one of the later requests is a
  -- commit. With a commit it returns within as many calls of `Recv` as there are requests, with the
  -- outcome of the same upload over a stream that ends. Without one it never returns, although an
  -- upload over a stream that ends does.
  pub invoke_over_stream_returns :
      (msg : UploadSegmentRequest) (reqs : List UploadSegmentRequest) (checked : Checked)
      (files : Map Str) (s : S)
      → check_header (get_header msg) ≡ ok checked
      → ((fuel : ℕ)
          → length reqs ≤ fuel
          → any get_commit reqs ≡ true
          → invoke_over_stream fuel (msg ∷ reqs) files s
            ≡ some (upload_segment in_process service (map message (msg ∷ reqs)) files s))
        × ((fuel : ℕ)
            → any get_commit reqs ≡ false
            → invoke_over_stream fuel (msg ∷ reqs) files s ≡ none)
  invoke_over_stream_returns msg reqs checked files s h =
      let local = invoke_upload_segment_returns in_process service msg reqs checked files s h in
      (
        λ fuel enough c. invoke_over_stream_lem fuel (msg ∷ reqs) files s ∙ local.0 fuel enough c,
        λ fuel c. invoke_over_stream_lem fuel (msg ∷ reqs) files s ∙ local.1 fuel c,
      )
