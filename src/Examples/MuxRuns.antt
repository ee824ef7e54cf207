-- ===== src/Examples/MuxRuns.antt =====
-- A mux that takes the longest pattern, for the servers of cmd/.
use tritontube.Base.{
  false≢true, Str, lit, str_eq, str_eq_iff, leb, leb→le, le→leb, length, ◌<◌, true, false, List, [],
  ◌∷◌, ◌++◌, Option, none, some, any, All, if◌then◌else◌, ◌≡◌, refl, sym, ◌∙◌, ◌⊎◌, inl, inr, arith,
  Bool-cases,
}
use tritontube.Http.{is_clean, ServeMux, IsServeMux, matches, Request, respond}
use tritontube.WebServer.{text, metadata_base_of, write_quorum_of, handle_upload, handle_view}
use tritontube.WebServer.Routes.{Environment, serve, serve_routes}
use tritontube.WebServer.View.{view_request}
use tritontube.Examples.WebRuns.{outside, start}

abbrev longer : Str → Option Str → Option Str
longer p none = some p
longer p (some q) = if leb (length q) (length p) then some p else some q

abbrev longest_match : ServeMux
longest_match [] path = none
longest_match (p ∷ ps) path =
    let rest = longest_match ps path in if matches p path then longer p rest else rest

module _ (path pattern : Str) (matched : matches pattern path ≡ true) where
  abbrev Below : Str → Type 0
  Below p = (str_eq p pattern ≡ true) ⊎ (matches p path ≡ false) ⊎ (length p < length pattern)

  abbrev Weak : Option Str → Type 0
  Weak none = Unit
  Weak (some q) = (q ≡ pattern) ⊎ (length q < length pattern)

  dominated_pair : (p : Str) (o : Option Str) → Weak (some p) → Weak o → Weak (longer p o)
  dominated_pair p none h w = h
  dominated_pair p (some q) h w = elim (Bool-cases (leb (length q) (length p))) [
    | inl e ↦ rw e h
    | inr e ↦ rw e w
  ]

  longer_wins : (o : Option Str) → Weak o → longer pattern o ≡ some pattern
  longer_wins none w = refl
  longer_wins (some q) (inl same) =
      rw (same, le→leb (length pattern) (length pattern) (omega arith)) refl
  longer_wins (some q) (inr shorter) = rw (le→leb (length q) (length pattern) (omega arith)) refl

  longer_loses : (p : Str) → Weak (some p) → longer p (some pattern) ≡ some pattern
  longer_loses p (inl same) = rw (same, le→leb (length pattern) (length pattern) (omega arith)) refl
  longer_loses p (inr shorter) = elim (Bool-cases (leb (length pattern) (length p))) [
    | inl e ↦ absurd (omega (arith, leb→le (length pattern) (length p) e))
    | inr e ↦ rw e refl
  ]

  -- What matches is the pattern or shorter.
  dominated_one : (p : Str) → Below p → matches p path ≡ true → Weak (some p)
  dominated_one p (inl same) m = inl ((str_eq_iff p pattern).0 same)
  dominated_one p (inr (inl not_matched)) m = absurd (false≢true (sym not_matched ∙ m))
  dominated_one p (inr (inr shorter)) m = inr shorter

  dominated_each : (ps : List Str) → All Below ps → Weak (longest_match ps path)
  dominated_each [] h = tt
  dominated_each (p ∷ ps) h = elim (Bool-cases (matches p path)) [
    | inl m ↦
        rw m
          (dominated_pair p (longest_match ps path) (dominated_one p h.0 m) (dominated_each ps h.1))
    | inr m ↦ rw m (dominated_each ps h.1)
  ]

  wins :
      (ps : List Str)
      → any (str_eq pattern) ps ≡ true
      → All Below ps
      → longest_match ps path ≡ some pattern
  wins [] there h = cc
  wins (p ∷ ps) there h = elim (Bool-cases (str_eq pattern p)) [
    | inl e ↦
        let same = (str_eq_iff pattern p).0 e in
        rw (sym same, matched) (longer_wins (longest_match ps path) (dominated_each ps h.1))
    | inr e ↦
        let rest = wins ps (rw e at there) h.1 in
        elim (Bool-cases (matches p path)) [
          | inl m ↦ rw (m, rest) (longer_loses p (dominated_one p h.0 m))
          | inr m ↦ rw m rest
        ]
  ]

longest_match-IsServeMux : IsServeMux longest_match
longest_match-IsServeMux = record {
  longest =
      λ patterns path pattern clean there matched h. wins path pattern matched patterns there h;
}

abbrev environment : Environment
environment = record { metadata_base = lit "http://m"; upload_w = none }

abbrev request : Request
request = view_request (lit "v") (lit "hd") (lit "3")

serve_routes_example :
    let base = metadata_base_of (lit "http://m") in
    (request.path ≡ lit "/upload"
      → serve outside environment longest_match request none start
        ≡ handle_upload outside base (write_quorum_of none) request none start)
    × ((rest : Str)
        → request.path ≡ lit "/v/" ++ rest
        → is_clean request.path ≡ true
        → serve outside environment longest_match request none start
          ≡ handle_view outside base request start)
    × (request.path ≡ lit "/healthz"
        → serve outside environment longest_match request none start
          ≡ (start, respond 200 (text (lit "OK"))))
serve_routes_example =
    serve_routes outside environment longest_match longest_match-IsServeMux request none start
