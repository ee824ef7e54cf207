-- ===== src/MetadataServer/Routes.antt =====
-- `main` of cmd/metadata/main.go: its handlers.
use tritontube.Base.{
  sym, true, Str, lit, str_eq, List, [], ◌∷◌, ◌++◌, Option, none, some, has_prefix, has_suffix,
  if◌then◌else◌, ◌≡◌, refl, ap, ◌∙◌, inl, inr, arith,
}
use tritontube.Http.{is_clean, Request, Response, respond, ServeMux, IsServeMux}
use tritontube.Metadata.Service.{State, Others}
use tritontube.MetadataServer.{Body, text, Outside, Server, handle_create_video, route_video}

abbrev pub patterns : List Str
patterns = lit "/healthz" ∷ lit "/videos" ∷ lit "/videos/" ∷ lit "/" ∷ []

module _ (outside : Outside) (others : Others) (server : Server) where
  -- The handler of a pattern
  unfoldable pub handle : Option Str → Request → State → State × Response Body
  unfolding handle_create_video route_video
  handle none req st = (st, respond 404 (text (lit "404 page not found")))
  handle (some pattern) req st =
      if str_eq pattern (lit "/healthz")
      then (st, respond 200 (text (lit "ok")))
      else if str_eq pattern (lit "/videos")
      then handle_create_video outside others server req st
      else if str_eq pattern (lit "/videos/")
      then route_video outside others server req st
      else (st, respond 200 (text (lit "<h1>TritonTube Metadata gRPC</h1>")))

  unfoldable pub serve : ServeMux → Request → State → State × Response Body
  unfolding handle
  serve mux req st = handle (mux patterns req.path) req st

  module _ (mux : ServeMux) (laws : IsServeMux mux) where
    create_route : mux patterns (lit "/videos") ≡ some (lit "/videos")
    unfolding str_eq has_prefix has_suffix is_clean
    create_route =
        laws.longest patterns (lit "/videos") (lit "/videos") refl refl refl
          (inr (inl refl), (inl refl, (inr (inl refl), (inr (inr (omega arith)), tt))))

    video_route :
        (rest : Str)
        → is_clean (lit "/videos/" ++ rest) ≡ true
        → mux patterns (lit "/videos/" ++ rest) ≡ some (lit "/videos/")
    unfolding str_eq has_prefix has_suffix
    video_route rest clean =
        laws.longest patterns (lit "/videos/" ++ rest) (lit "/videos/") clean refl refl
          (inr (inl refl), (inr (inl refl), (inl refl, (inr (inr (omega arith)), tt))))

    -- With a mux that at a clean path takes the longest pattern that matches: a request for `/videos`
    -- creates a video, and one with a clean path below `/videos/` is about the segments of one.
    pub serve_lem :
        (req : Request) (st : State)
        → (req.path ≡ lit "/videos"
            → serve mux req st ≡ handle_create_video outside others server req st)
          × ((rest : Str)
              → req.path ≡ lit "/videos/" ++ rest
              → is_clean req.path ≡ true
              → serve mux req st ≡ route_video outside others server req st)
    unfolding serve str_eq
    serve_lem req st = (
      λ h. ap (λ o. handle o req st) (ap (mux patterns) h ∙ create_route),
      λ rest h clean.
          ap (λ o. handle o req st)
            (ap (mux patterns) h ∙ video_route rest (ap is_clean (sym h) ∙ clean)),
    )
