-- ===== src/StorageServer/Routes.antt =====
-- `main` of cmd/storage/main.go: its environment and its handlers.
use tritontube.Base.{
  sym, true, Str, lit, str_eq, List, [], ◌∷◌, ◌++◌, Option, none, some, Map, has_prefix, has_suffix,
  if◌then◌else◌, ◌≡◌, refl, ap, ◌∙◌, inl, inr, arith,
}
use tritontube.Http.{is_clean, Request, Response, respond, ServeMux, IsServeMux}
use tritontube.Storage.Files.{FsCalls, Fs, new_fs, full_path}
use tritontube.StorageServer.{Body, text, root_of, handle_blob}

abbrev pub patterns : List Str
patterns = lit "/healthz" ∷ lit "/blob/" ∷ lit "/" ∷ []

-- `PORT` and `DATA_DIR`; `join` is `filepath.Join`.
module _ (hex_sha256 : Str → Str) (join : List Str → Str) (calls : FsCalls) (port dir : Str) where
  abbrev pub store : Fs
  store = new_fs (root_of dir port)

  -- The handler of a pattern
  unfoldable pub handle : Option Str → Request → Map Str → Map Str × Response Body
  unfolding handle_blob root_of new_fs full_path
  handle none req files = (files, respond 404 (text (lit "404 page not found")))
  handle (some pattern) req files =
      if str_eq pattern (lit "/healthz")
      then (files, respond 200 (text (lit "OK")))
      else if str_eq pattern (lit "/blob/")
      then handle_blob hex_sha256 (full_path join store) calls req files
      else (files, respond 200 (text (lit "<h1>TritonTube Storage</h1>")))

  unfoldable pub serve : ServeMux → Request → Map Str → Map Str × Response Body
  unfolding handle
  serve mux req files = handle (mux patterns req.path) req files

  -- With a mux that at a clean path takes the longest pattern that matches, a request with a clean path
  -- below `/blob/` is about a blob in the directory of the environment.
  pub serve_lem :
      (mux : ServeMux) (req : Request) (files : Map Str)
      → IsServeMux mux
      → (rest : Str) → req.path ≡ lit "/blob/" ++ rest
      → is_clean req.path ≡ true
      → serve mux req files ≡ handle_blob hex_sha256 (full_path join store) calls req files
  unfolding serve str_eq has_prefix has_suffix
  serve_lem mux req files laws rest h clean =
      ap (λ o. handle o req files)
        (ap (mux patterns) h
          ∙ laws.longest patterns (lit "/blob/" ++ rest) (lit "/blob/")
              (ap is_clean (sym h) ∙ clean) refl refl
              (inr (inl refl), (inl refl, (inr (inr (omega arith)), tt))))
