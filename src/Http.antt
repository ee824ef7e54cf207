-- ===== src/Http.antt =====
-- What the servers of cmd/ use of net/http: requests with their query, and answers.
use tritontube.Base.{
  ◌&&◌, not, ◌∷◌, split_on, List, Bool, true, false, lit, str_eq, any, All, has_prefix, has_suffix,
  length, ◌<◌, ◌⊎◌, if◌then◌else◌, ◌≡◌, [], ℕ, Str, Map, Option, none, some, lookup,
}

pub record Request : Type 0 where
  pub method : Str
  pub path : Str
  pub query : Map Str
  pub body : Str

-- `r.URL.Query().Get(name)`: the first value, "" if there is none
abbrev pub or_empty : Option Str → Str
or_empty none = []
or_empty (some s) = s

abbrev pub query_get : Str → Request → Str
query_get name req = or_empty (lookup name req.query)

pub record Response (B : Type 0) : Type 0 where
  pub status : ℕ
  pub body : B

-- http.Error
abbrev pub respond : {B : Type 0} → ℕ → B → Response B
respond status body = record { status = status; body = body }

-- A path that `http.ServeMux` does not redirect to a cleaner one: it begins with a slash, no part of
-- it is a dot or two dots, and only its last part may be empty.
abbrev pub clean_parts : List Str → Bool
clean_parts [] = true
clean_parts (p ∷ []) = not (str_eq p (lit ".")) && not (str_eq p (lit ".."))
clean_parts (p ∷ q ∷ ps) =
    not (str_eq p [])
    && not (str_eq p (lit "."))
    && not (str_eq p (lit ".."))
    && clean_parts (q ∷ ps)

abbrev pub clean_after_slash : List Str → Bool
clean_after_slash (p ∷ q ∷ ps) = str_eq p [] && clean_parts (q ∷ ps)
clean_after_slash _ = false

unfoldable pub is_clean : Str → Bool
unfolding split_on
is_clean path = clean_after_slash (split_on 47 path)

-- `http.ServeMux`: the handler of a request is that of one of the registered patterns. A pattern that
-- ends in a slash matches the paths that it begins, any other only itself. A path that is not clean
-- is redirected before any handler, and nothing is said of it here.
abbrev pub ServeMux : Type 0
ServeMux = List Str → Str → Option Str

abbrev pub matches : Str → Str → Bool
matches pattern path =
    if has_suffix pattern (lit "/") then has_prefix path pattern else str_eq pattern path

-- At a clean path the longest of the patterns that match is taken.
pub record IsServeMux (mux : ServeMux) : Type 0 where
  pub longest :
      (patterns : List Str) (path pattern : Str)
      → is_clean path ≡ true
      → any (str_eq pattern) patterns ≡ true
      → matches pattern path ≡ true
      → All
          (λ p. (str_eq p pattern ≡ true) ⊎ (matches p path ≡ false) ⊎ (length p < length pattern))
          patterns
      → mux patterns path ≡ some pattern
