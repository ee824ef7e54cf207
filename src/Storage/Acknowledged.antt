-- ===== src/Storage/Acknowledged.antt =====
-- The acknowledgements that `UploadSegment` of internal/storage/service.go answers with.
use tritontube.Base.{
  Str, str_eq, str_eq_iff, str_eq_refl, Bool, true, false, List, [], ◌∷◌, Option, none, some, Map,
  lookup, insert, lookup-insert, any, All, is_some, Bool-cases, inl, inr, arith, ◌≡◌, refl, sym,
}
use tritontube.Storage.Replication.{failed_replicas, merge_replication_errors, no_failure}
use tritontube.Chash.Preference.{mem}
use tritontube.Storage.Types.{ReplicaAck, UploadSegmentHeader}
use tritontube.Storage.Upload.{acks, replicate, replication_results, to_s3, s3_result_key}

-- An acknowledgement of a success
abbrev pub Succeeded : ReplicaAck → Type 0
Succeeded a = (a.success ≡ true) × (a.error_message ≡ [])

-- The list has an acknowledgement of the name.
abbrev pub names : Str → List ReplicaAck → Bool
names id l = any (λ (a : ReplicaAck). str_eq a.node_id id) l

acks-Succeeded :
    (self : Str) (results : Map (Option Str))
    → failed_replicas results ≡ []
    → All Succeeded (acks self results)
unfolding acks failed_replicas
acks-Succeeded self [] h = tt
acks-Succeeded self ((id, none) ∷ r) h = elim (Bool-cases (str_eq id self)) [
  | inl e ↦ rw e (acks-Succeeded self r h)
  | inr e ↦ rw e ((refl, refl), acks-Succeeded self r h)
]
acks-Succeeded self ((id, some e) ∷ r) h = cc

names-acks :
    (self id : Str) (results : Map (Option Str))
    → str_eq id self ≡ false
    → is_some (lookup id results) ≡ true
    → names id (acks self results) ≡ true
unfolding acks lookup
names-acks self id [] other there = cc
names-acks self id ((k, e) ∷ r) other there =
    ground (arith, str_eq_iff k id, names-acks self id r other)

module _ (transport : Str → Option Str) (self id : Str) where
  replicate_keeps :
      (ids : List Str) (results : Map (Option Str))
      → is_some (lookup id results) ≡ true
      → is_some (lookup id (replicate transport self ids results)) ≡ true
  unfolding replicate
  replicate_keeps [] results h = h
  replicate_keeps (x ∷ xs) results h = elim (Bool-cases (str_eq x self)) [
    | inl e ↦ rw e (replicate_keeps xs results h)
    | inr e ↦ rw e (
        replicate_keeps xs (insert x (transport x) results)
          (rw (lookup-insert x id (transport x) results) (ground arith)))
  ]

  replicate_reaches :
      (ids : List Str) (results : Map (Option Str))
      → mem id ids ≡ true
      → str_eq id self ≡ false
      → is_some (lookup id (replicate transport self ids results)) ≡ true
  unfolding replicate
  replicate_reaches [] results h other = cc
  replicate_reaches (x ∷ xs) results h other = elim (Bool-cases (str_eq id x)) [
    | inl e ↦
        let same = (str_eq_iff id x).0 e in
        rw (sym same, other)
          (replicate_keeps xs (insert id (transport id) results)
            (rw (lookup-insert id id (transport id) results, str_eq_refl id) refl))
    | inr e ↦ elim (Bool-cases (str_eq x self)) [
      | inl mine ↦ rw mine (replicate_reaches xs results (rw e at h) other)
      | inr yours ↦
          rw yours (replicate_reaches xs (insert x (transport x) results) (rw e at h) other)
    ]
  ]

module _ (transport : Str → Option Str) (s3 : Str → Str → Option Str) (self : Str)
    (h : UploadSegmentHeader) (targets : List Str) where
  abbrev results : Map (Option Str)
  results = replication_results transport s3 self h targets

  -- Every target but the node itself is acknowledged, and so is S3, if the header asks for it.
  pub acks-targets :
      (id : Str)
      → mem id targets ≡ true
      → str_eq id self ≡ false
      → names id (acks self results) ≡ true
  unfolding replication_results
  acks-targets id there other = names-acks self id results other (
      let sent = replicate_reaches transport self id targets ((self, none) ∷ []) there other in
      elim (Bool-cases (to_s3 h)) [
        | inl e ↦
            rw
              (
                e,
                lookup-insert (s3_result_key h) id (s3 h.s3_bucket h.s3_key)
                    (replicate transport self targets ((self, none) ∷ [])),
              )
              (ground arith)
        | inr e ↦ rw e sent
      ])

  pub acks-s3 :
      to_s3 h ≡ true
      → str_eq (s3_result_key h) self ≡ false
      → names (s3_result_key h) (acks self results) ≡ true
  unfolding replication_results
  acks-s3 asked other = names-acks self (s3_result_key h) results other (
      rw
        (
          asked,
          lookup-insert (s3_result_key h) (s3_result_key h) (s3 h.s3_bucket h.s3_key)
              (replicate transport self targets ((self, none) ∷ [])),
          str_eq_refl (s3_result_key h),
        )
        refl)

  pub acks-results : merge_replication_errors results ≡ none → All Succeeded (acks self results)
  unfolding merge_replication_errors
  acks-results merged = acks-Succeeded self results (no_failure (failed_replicas results) merged)

insert-succeeded :
    (id : Str) (results : Map (Option Str))
    → failed_replicas results ≡ []
    → failed_replicas (insert id none results) ≡ []
unfolding failed_replicas insert
insert-succeeded id [] h = refl
insert-succeeded id ((k, none) ∷ r) h = elim (Bool-cases (str_eq k id)) [
  | inl e ↦ rw e h
  | inr e ↦ rw e (insert-succeeded id r h)
]
insert-succeeded id ((k, some e) ∷ r) h = cc

module _ (transport : Str → Option Str) (self : Str) where
  replicate-succeeded :
      (ids : List Str) (results : Map (Option Str))
      → ((id : Str) → mem id ids ≡ true → str_eq id self ≡ false → transport id ≡ none)
      → failed_replicas results ≡ []
      → failed_replicas (replicate transport self ids results) ≡ []
  unfolding replicate
  replicate-succeeded [] results sent h = h
  replicate-succeeded (x ∷ xs) results sent h =
      let later : (id : Str) → mem id xs ≡ true → str_eq id self ≡ false → transport id ≡ none =
        λ id there. sent id (ground arith) in
      elim (Bool-cases (str_eq x self)) [
        | inl e ↦ rw e (replicate-succeeded xs results later h)
        | inr e ↦
            rw (e, sent x (rw (str_eq_refl x) refl) e)
              (replicate-succeeded xs (insert x none results) later (insert-succeeded x results h))
      ]

  -- If every call of the transport succeeds, and the upload to S3 if the header asks for it, no
  -- replica has failed.
  pub results-succeeded :
      (s3 : Str → Str → Option Str) (h : UploadSegmentHeader) (targets : List Str)
      → ((id : Str) → mem id targets ≡ true → str_eq id self ≡ false → transport id ≡ none)
      → (to_s3 h ≡ true → s3 h.s3_bucket h.s3_key ≡ none)
      → merge_replication_errors (replication_results transport s3 self h targets) ≡ none
  unfolding replication_results merge_replication_errors
  results-succeeded s3 h targets sent stored =
      let results = replicate transport self targets ((self, none) ∷ []) in
      let good : failed_replicas results ≡ [] =
        replicate-succeeded targets ((self, none) ∷ []) sent (unfold failed_replicas in refl) in
      elim (Bool-cases (to_s3 h)) [
        | inl e ↦ rw (e, stored e, insert-succeeded (s3_result_key h) results good) refl
        | inr e ↦ rw (e, good) refl
      ]
