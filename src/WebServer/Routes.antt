-- ===== src/WebServer/Routes.antt =====
-- `main` of cmd/web/main.go: its environment and its handlers.
use tritontube.Base.{
  sym, true, Str, lit, str_eq, ℤ, List, [], ◌∷◌, ◌++◌, Option, none, some, has_prefix, has_suffix,
  if◌then◌else◌, ◌≡◌, refl, ap, ◌∙◌, inl, inr, arith,
}
use tritontube.Http.{is_clean, Request, Response, respond, ServeMux, IsServeMux}
use tritontube.WebServer.{
  Body, text, Outside, metadata_base_of, write_quorum_of, handle_upload, handle_view,
}

abbrev pub patterns : List Str
patterns = lit "/healthz" ∷ lit "/upload" ∷ lit "/v/" ∷ lit "/" ∷ []

-- `METADATA_BASE`, and `UPLOAD_W` as `strconv.Atoi` reads it
pub record Environment : Type 0 where
  pub metadata_base : Str
  pub upload_w : Option ℤ

module _ {W : Type 0} (outside : Outside W) (env : Environment) where
  -- The handler of a pattern; `payload` is what `io.ReadAll` gives of the body.
  unfoldable pub handle : Option Str → Request → Option Str → W → W × Response Body
  unfolding handle_upload handle_view metadata_base_of write_quorum_of
  handle none req payload w = (w, respond 404 (text (lit "404 page not found")))
  handle (some pattern) req payload w =
      let base = metadata_base_of env.metadata_base in
      if str_eq pattern (lit "/healthz")
      then (w, respond 200 (text (lit "OK")))
      else if str_eq pattern (lit "/upload")
      then handle_upload outside base (write_quorum_of env.upload_w) req payload w
      else if str_eq pattern (lit "/v/")
      then handle_view outside base req w
      else (w, respond 200 (text (lit "<h1>TritonTube Web</h1><p>Hello!</p>")))

  unfoldable pub serve : ServeMux → Request → Option Str → W → W × Response Body
  unfolding handle
  serve mux req payload w = handle (mux patterns req.path) req payload w

  module _ (mux : ServeMux) (laws : IsServeMux mux) where
    upload_route : mux patterns (lit "/upload") ≡ some (lit "/upload")
    unfolding str_eq has_prefix has_suffix is_clean
    upload_route =
        laws.longest patterns (lit "/upload") (lit "/upload") refl refl refl
          (inr (inl refl), (inl refl, (inr (inl refl), (inr (inr (omega arith)), tt))))

    health_route : mux patterns (lit "/healthz") ≡ some (lit "/healthz")
    unfolding str_eq has_prefix has_suffix is_clean
    health_route =
        laws.longest patterns (lit "/healthz") (lit "/healthz") refl refl refl
          (inl refl, (inr (inl refl), (inr (inl refl), (inr (inr (omega arith)), tt))))

    view_route :
        (rest : Str)
        → is_clean (lit "/v/" ++ rest) ≡ true
        → mux patterns (lit "/v/" ++ rest) ≡ some (lit "/v/")
    unfolding str_eq has_prefix has_suffix
    view_route rest clean =
        laws.longest patterns (lit "/v/" ++ rest) (lit "/v/") clean refl refl
          (inr (inl refl), (inr (inl refl), (inl refl, (inr (inr (omega arith)), tt))))

    -- With a mux that at a clean path takes the longest pattern that matches: a request for `/upload`
    -- is answered by the upload, with the quorum and the metadata server of the environment; one with
    -- a clean path below `/v/` by the view, with that metadata server; and one for `/healthz` with
    -- 200, and nothing changes.
    pub serve_routes :
        (req : Request) (payload : Option Str) (w : W)
        → let base = metadata_base_of env.metadata_base in
          (req.path ≡ lit "/upload"
            → serve mux req payload w
              ≡ handle_upload outside base (write_quorum_of env.upload_w) req payload w)
          × ((rest : Str)
              → req.path ≡ lit "/v/" ++ rest
              → is_clean req.path ≡ true
              → serve mux req payload w ≡ handle_view outside base req w)
          × (req.path ≡ lit "/healthz"
              → serve mux req payload w ≡ (w, respond 200 (text (lit "OK"))))
    unfolding serve str_eq
    serve_routes req payload w = (
      λ h. ap (λ o. handle o req payload w) (ap (mux patterns) h ∙ upload_route),
      λ rest h clean.
          ap (λ o. handle o req payload w)
            (ap (mux patterns) h ∙ view_route rest (ap is_clean (sym h) ∙ clean)),
      λ h. ap (λ o. handle o req payload w) (ap (mux patterns) h ∙ health_route),
    )
