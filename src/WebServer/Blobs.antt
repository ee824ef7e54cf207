-- ===== src/WebServer/Blobs.antt =====
-- The loops of cmd/web/main.go over the replicas of a segment, on storage servers that keep what they
-- have accepted.
use tritontube.Base.{
  All, ◌<◌, Str, lit, ◌==◌, Bool, true, false, List, [], ◌∷◌, Option, none, some, if◌then◌else◌,
  arith, ◌≡◌, refl, ap, ◌∙◌, Bool-cases, ◌⊎◌, inl, inr,
}
use tritontube.Http.{Response, respond}
use tritontube.WebServer.{
  Tally, Body, content, Outside, blob_url, add_result, put_all, found, get_first,
}

-- The content of an answer, if it is a 200; and whether an answer is a 201
abbrev pub content_of : Option (Response Str) → Option Str
content_of none = none
content_of (some r) = if r.status == 200 then some r.body else none

abbrev pub is_created : Option (Response Str) → Bool
is_created none = false
is_created (some r) = r.status == 201

module _ {W : Type 0} (outside : Outside W) where
  abbrev pub read_at : Str → W → Option Str
  read_at url w = content_of (outside.send (lit "GET") url [] w).1

  -- What the storage servers of a segment do (cmd/storage/main.go): a GET changes nothing, a PUT
  -- that is answered with 201 is read from then on, and any PUT leaves what is read at each server as
  -- it is, or puts the payload there. `Reached` says at which addresses the servers are.
  pub record IsStorage (object : Str) (Reached : Str → Type 0) : Type 0 where
    pub get_frame : (url : Str) (w : W) → (outside.send (lit "GET") url [] w).0 ≡ w
    pub put_stored :
        (base payload : Str) (w : W)
        → Reached base
        → is_created (outside.send (lit "PUT") (blob_url object base) payload w).1 ≡ true
        → read_at
            (blob_url object base)
            (outside.send (lit "PUT") (blob_url object base) payload w).0
          ≡ some payload
    pub put_read :
        (base other payload : Str) (w : W)
        → Reached base
        → Reached other
        → let w' = (outside.send (lit "PUT") (blob_url object base) payload w).0 in
          (read_at (blob_url object other) w' ≡ read_at (blob_url object other) w)
          ⊎ (read_at (blob_url object other) w' ≡ some payload)

  -- Nothing is read but the payload.
  abbrev Holds : Str → Option Str → Type 0
  Holds payload o = (o ≡ none) ⊎ (o ≡ some payload)

  abbrev pub Everywhere : Str → Str → List Str → W → Type 0
  Everywhere payload object [] w = Unit
  Everywhere payload object (base ∷ bases) w =
      Holds payload (read_at (blob_url object base) w) × Everywhere payload object bases w

  abbrev Somewhere : Str → Str → List Str → W → Type 0
  Somewhere payload object [] w = ⊥
  Somewhere payload object (base ∷ bases) w =
      (read_at (blob_url object base) w ≡ some payload) ⊎ Somewhere payload object bases w

  pub found_lem :
      (rest : W → W × Response Body) (p : W × Option (Response Str)) (w : W)
      → p.0 ≡ w
      → (content_of p.1 ≡ none → found outside rest p ≡ rest w)
        × ((c : Str)
            → content_of p.1 ≡ some c
            → found outside rest p ≡ (w, respond 200 (content c)))
  unfolding found
  found_lem rest (v, none) w h = (λ e. ap rest h, λ c e. cc)
  found_lem rest (v, some r) w h = elim (Bool-cases (r.status == 200)) [
    | inl e ↦ rw e (λ n. cc, λ c s. cc)
    | inr e ↦ rw e (λ n. ap rest h, λ c s. cc)
  ]

  module _ {object : Str} {Reached : Str → Type 0} (laws : IsStorage object Reached) where
    pub get_first_lem :
        (payload : Str) (bases : List Str) (w : W)
        → Everywhere payload object bases w
        → Somewhere payload object bases w
        → get_first outside object bases w ≡ (w, respond 200 (content payload))
    unfolding get_first
    get_first_lem payload [] w every some_one = absurd some_one
    get_first_lem payload (base ∷ bases) w every some_one =
        let sent = outside.send (lit "GET") (blob_url object base) [] w in
        let step =
          found_lem (get_first outside object bases) sent w
            (laws.get_frame (blob_url object base) w) in
        elim every.0 [
          | inr here ↦ step.1 payload here
          | inl absent ↦ elim some_one [
            | inl here ↦ step.1 payload here
            | inr there ↦ step.0 absent ∙ get_first_lem payload bases w every.1 there
          ]
        ]

    put_Everywhere :
        (base payload : Str) (bases : List Str) (w : W)
        → Reached base
        → All Reached bases
        → Everywhere payload object bases w
        → Everywhere payload object bases
            (outside.send (lit "PUT") (blob_url object base) payload w).0
    put_Everywhere base payload [] w r rs h = tt
    put_Everywhere base payload (other ∷ bases) w r rs h = (
      elim (laws.put_read base other payload w r rs.0) [
        | inl same ↦ elim h.0 [ inl e ↦ inl (same ∙ e) | inr e ↦ inr (same ∙ e) ]
        | inr new ↦ inr new
      ],
      put_Everywhere base payload bases w r rs.1 h.1,
    )

    pub put_all-Everywhere :
        (payload : Str) (bases all : List Str) (t : Tally) (w : W)
        → All Reached bases
        → All Reached all
        → Everywhere payload object all w
        → Everywhere payload object all (put_all outside object payload bases t w).0
    unfolding put_all
    put_all-Everywhere payload [] all t w rs qs h = h
    put_all-Everywhere payload (base ∷ bases) all t w rs qs h =
        put_all-Everywhere payload bases all _ _ rs.1 qs
          (put_Everywhere base payload all w rs.0 qs h)

    -- What holds the payload holds it after the PUTs of the payload.
    pub put_all_keeps :
        (payload base : Str) (bases : List Str) (t : Tally) (w : W)
        → Reached base
        → All Reached bases
        → read_at (blob_url object base) w ≡ some payload
        → read_at (blob_url object base) (put_all outside object payload bases t w).0 ≡ some payload
    unfolding put_all
    put_all_keeps payload base [] t w r rs h = h
    put_all_keeps payload base (other ∷ bases) t w r rs h =
        put_all_keeps payload base bases _ _ r rs.1
          (elim (laws.put_read other base payload w rs.0 r) [ inl same ↦ same ∙ h | inr new ↦ new ])

    pub not_counted :
        (base : Str) (reply : Option (Response Str)) (t : Tally)
        → is_created reply ≡ false
        → (add_result outside base reply t).success ≡ t.success
    unfolding add_result
    not_counted base none t h = refl
    not_counted base (some r) t h = rw h refl

    pub put_all-Somewhere :
        (payload : Str) (bases : List Str) (t : Tally) (w : W)
        → All Reached bases
        → t.success < (put_all outside object payload bases t w).1.success
        → Somewhere payload object bases (put_all outside object payload bases t w).0
    unfolding put_all
    put_all-Somewhere payload [] t w rs h = absurd (omega arith)
    put_all-Somewhere payload (base ∷ bases) t w rs h =
        let sent = outside.send (lit "PUT") (blob_url object base) payload w in
        let t' = add_result outside base sent.1 t in
        elim (Bool-cases (is_created sent.1)) [
          | inl e ↦ inl (
              put_all_keeps payload base bases t' sent.0 rs.0 rs.1
                (laws.put_stored base payload w rs.0 e))
          | inr e ↦ inr (
              put_all-Somewhere payload bases t' sent.0 rs.1
                (omega (arith, h, not_counted base sent.1 t e)))
        ]
