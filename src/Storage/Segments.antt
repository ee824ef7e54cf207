-- ===== src/Storage/Segments.antt =====
-- `GetSegment` of internal/storage/service.go. A reader is what its calls of `Read` return: bytes
-- without an error, and in the end bytes with io.EOF or with another error.
use tritontube.Base.{
  inr, ◌⊎◌, inl, ℕ, ◌+◌, Str, true, false, List, [], ◌∷◌, ◌++◌, append_assoc, append-nil, Option,
  none, some, length, if◌then◌else◌, arith, ◌≡◌, refl, ap, sym, ◌∙◌,
}
use tritontube.Storage.Types.{
  GetSegmentRequest, GetSegmentResponse, SegmentLocator, locator_required, read_failed, open_failed,
  stream_broken, Result, ok, err,
}

pub data Reader : Type 0 where
  read : Str → Reader → Reader
  last : Str → Option Str → Reader

-- All the bytes that a reader gives
unfoldable pub bytes_of : Reader → Str
bytes_of (read bytes r) = bytes ++ bytes_of r
bytes_of (last bytes e) = bytes

-- The error at its end; `none` is io.EOF.
unfoldable pub end_of : Reader → Option Str
end_of (read bytes r) = end_of r
end_of (last bytes e) = e

abbrev pub Sent : Type 0
Sent = List GetSegmentResponse × Result (Unit {0})

abbrev pub chunk_of : Str → GetSegmentResponse
chunk_of bytes = record { chunk = bytes; eof = false }

abbrev pub eof_message : GetSegmentResponse
eof_message = record { chunk = []; eof = true }

-- Which of the calls of `Send` fails, by its number
module _ (send_error : ℕ → Option Str) where
  -- `stream.Send`, with what was sent before it; then `next`
  unfoldable pub send_then :
      Option Str
      → GetSegmentResponse
      → List GetSegmentResponse
      → (List GetSegmentResponse → Sent)
      → Sent
  send_then none msg sent next = next (sent ++ msg ∷ [])
  send_then (some e) msg sent next = (sent, err (stream_broken e))

  abbrev pub send :
      GetSegmentResponse → List GetSegmentResponse → (List GetSegmentResponse → Sent) → Sent
  send msg sent next = send_then (send_error (length sent)) msg sent next

  -- `if n > 0 { … }`
  abbrev pub send_chunk : Str → List GetSegmentResponse → (List GetSegmentResponse → Sent) → Sent
  send_chunk [] sent next = next sent
  send_chunk (b ∷ bytes) sent next = send (chunk_of (b ∷ bytes)) sent next

  -- What follows an error of `Read`
  unfoldable pub finish_read : Option Str → List GetSegmentResponse → Sent
  unfolding send_then
  finish_read none sent = send eof_message sent (λ all. (all, ok tt))
  finish_read (some e) sent = (sent, err (read_failed e))

  -- The loop of `GetSegment`
  unfoldable pub send_all : Reader → List GetSegmentResponse → Sent
  unfolding finish_read send_then
  send_all (read bytes r) sent = send_chunk bytes sent (send_all r)
  send_all (last bytes e) sent = send_chunk bytes sent (finish_read e)

  -- `open_file` is `s.fs.Get`: a reader of the file, or an error.
  unfoldable pub get_located : Option SegmentLocator → (Str → Str → Reader ⊎ Str) → Sent
  unfolding send_all
  get_located none open_file = ([], err locator_required)
  get_located (some l) open_file = elim (open_file l.bucket l.object) [
    | inl r ↦ send_all r []
    | inr e ↦ ([], err (open_failed e))
  ]

  -- The offset and the length of the request are not read.
  unfoldable pub get_segment : Option GetSegmentRequest → (Str → Str → Reader ⊎ Str) → Sent
  unfolding get_located
  get_segment none open_file = ([], err locator_required)
  get_segment (some req) open_file = get_located req.locator open_file

-- The chunks of messages, one after the other
unfoldable pub chunks : List GetSegmentResponse → Str
chunks [] = []
chunks (m ∷ ms) = m.chunk ++ chunks ms

chunks-append : (xs ys : List GetSegmentResponse) → chunks (xs ++ ys) ≡ chunks xs ++ chunks ys
unfolding chunks
chunks-append [] ys = refl
chunks-append (x ∷ xs) ys =
    rw (chunks-append xs ys) (sym (append_assoc x.chunk (chunks xs) (chunks ys)))

-- How many messages say that the stream is at its end
unfoldable pub eofs : List GetSegmentResponse → ℕ
eofs [] = 0
eofs (m ∷ ms) = (if m.eof then 1 else 0) + eofs ms

eofs-append : (xs ys : List GetSegmentResponse) → eofs (xs ++ ys) ≡ eofs xs + eofs ys
unfolding eofs
eofs-append [] ys = omega arith
eofs-append (x ∷ xs) ys = omega (arith, eofs-append xs ys)

-- The number of end messages, and the answer, at the end of a reader
abbrev pub marks : Option Str → ℕ
marks none = 1
marks (some e) = 0

abbrev pub answer_at : Option Str → Result (Unit {0})
answer_at none = ok tt
answer_at (some e) = err (read_failed e)

-- What a stream has sent when it has delivered the bytes `rest` after those of `before`.
record Delivers (rest : Str) (end : Option Str) (before : List GetSegmentResponse) (s : Sent)
    : Type 0 where
  bytes : chunks s.0 ≡ chunks before ++ rest
  flags : eofs s.0 ≡ eofs before + marks end
  answer : s.1 ≡ answer_at end

chunks-more :
    (bytes rest : Str) (sent : List GetSegmentResponse)
    → chunks (sent ++ chunk_of bytes ∷ []) ++ rest ≡ chunks sent ++ (bytes ++ rest)
unfolding chunks
chunks-more bytes rest sent =
    rw
      (
        chunks-append sent (chunk_of bytes ∷ []),
        append-nil bytes,
        append_assoc (chunks sent) bytes rest,
      )
      refl

eofs-more :
    (bytes : Str) (sent : List GetSegmentResponse) → eofs (sent ++ chunk_of bytes ∷ []) ≡ eofs sent
unfolding eofs
eofs-more bytes sent = omega (arith, eofs-append sent (chunk_of bytes ∷ []))

-- A chunk that is sent first
after_chunk :
    (bytes rest : Str) (end : Option Str) (before : List GetSegmentResponse) (s : Sent)
    → Delivers rest end (before ++ chunk_of bytes ∷ []) s
    → Delivers (bytes ++ rest) end before s
after_chunk bytes rest end before s d = record {
  bytes = d.bytes ∙ chunks-more bytes rest before;
  flags = omega (arith, d.flags, eofs-more bytes before);
  answer = d.answer;
}

abbrev never : ℕ → Option Str
never n = none

finish_read-Delivers :
    (end : Option Str) (before : List GetSegmentResponse)
    → Delivers [] end before (finish_read never end before)
unfolding finish_read send_then chunks eofs
finish_read-Delivers none before = record {
  bytes = chunks-append before (eof_message ∷ []);
  flags = omega (arith, eofs-append before (eof_message ∷ []));
  answer = refl;
}
finish_read-Delivers (some e) before = record {
  bytes = sym (append-nil (chunks before));
  flags = omega arith;
  answer = refl;
}

send_all-Delivers :
    (r : Reader) (before : List GetSegmentResponse)
    → Delivers (bytes_of r) (end_of r) before (send_all never r before)
unfolding send_all send_then bytes_of end_of
send_all-Delivers (read [] r) before = send_all-Delivers r before
send_all-Delivers (read (b ∷ bytes) r) before =
    after_chunk (b ∷ bytes) (bytes_of r) (end_of r) before _
      (send_all-Delivers r (before ++ chunk_of (b ∷ bytes) ∷ []))
send_all-Delivers (last [] e) before = finish_read-Delivers e before
send_all-Delivers (last (b ∷ bytes) e) before =
    let d =
      after_chunk (b ∷ bytes) [] e before _
        (finish_read-Delivers e (before ++ chunk_of (b ∷ bytes) ∷ [])) in
    record {
      bytes = d.bytes ∙ ap (λ x. chunks before ++ x) (append-nil (b ∷ bytes));
      flags = d.flags;
      answer = d.answer;
    }

-- A stream in which no `Send` fails delivers exactly the bytes of the file, in order. If the file
-- could be read to its end, it ends with success and has marked the end once; else it ends with the
-- error of the read and has not marked it.
pub get_segment_lem :
    (req : GetSegmentRequest) (l : SegmentLocator) (r : Reader)
    → req.locator ≡ some l
    → let s : Sent = get_segment (λ n. none) (some req) (λ bucket object. inl r) in
      (chunks s.0 ≡ bytes_of r) × (eofs s.0 ≡ marks (end_of r)) × (s.1 ≡ answer_at (end_of r))
unfolding get_segment get_located
get_segment_lem req l r h =
    let d = send_all-Delivers r [] in
    rw h (d.bytes ∙ unfold chunks in refl, omega (arith, d.flags, eofs_nil), d.answer)
  where
    eofs_nil : eofs [] ≡ 0
    eofs_nil = unfold eofs in refl
