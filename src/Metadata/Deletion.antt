-- ===== src/Metadata/Deletion.antt =====
-- `DeleteMetadata` of internal/metadata/service.go from end to end, with no other client at work.
use tritontube.Base.{
  insert, ℕ, Str, str_eq, Int64, is_pos, Bool, true, false, [], Option, none, some, lookup, delete,
  lookup-delete, if◌then◌else◌, arith, ◌≡◌, refl, ap, sym, ◌∙◌, Bool-cases, inl, inr,
}
use tritontube.Pgx
use tritontube.Pgx.Commits.{version_of}
use tritontube.Pgx.{Store, Tx, Record, err_serialization, read_valid}
use tritontube.Etcd
use tritontube.Etcd.{Client, delete_op}
use tritontube.Metadata.Types.{
  version_mismatch, not_found, DeleteMetadataRequest, DeleteMetadataResponse, ServiceError, from_pg,
  Result, ok, err, revision_conflict,
}
use tritontube.Metadata.Service.{
  State, Service, nobody, is_serialization, retry, write_and_commit, guarded, etcd_outcome,
  finish_on_etcd, etcd_key,
}
use tritontube.Metadata.Delete.{
  check_delete, delete_checked, delete_read, delete_begun, delete_attempt, delete_on_etcd,
  delete_metadata,
}
use tritontube.Metadata.Attempts.{version_holds, after_read, begin_fresh, get-fresh}
use tritontube.Metadata.Guard.{guard_holds, guarded_conflict, guarded_delete, Deletes}
use tritontube.Metadata.Alone.{read_valid_refl}
use tritontube.Metadata.Retry.{retry_first}

-- A delete and its commit: it removes the key, if the version that was read is current.
unfoldable pub removal : Str → Option Record → Store → Store × Result Bool
removal key o s =
    if read_valid (lookup key s.entries) (version_of o)
    then (record { entries = delete key s.entries }, ok true)
    else (s, err (from_pg err_serialization))

write_delete :
    (during : Store → Store) (key : Str) (o : Option Record) (s : Store)
    → write_and_commit during true s (Pgx.delete_key key (after_read key o))
      ≡ removal key o (during s)
unfolding write_and_commit Pgx.delete_key Pgx.commit removal insert delete
write_delete during key o s =
    elim (Bool-cases (read_valid (lookup key (during s).entries) (version_of o))) [
      | inl valid ↦ rw valid refl
      | inr stale ↦ rw stale refl
    ]

-- The record half of `DeleteMetadata`: the store without the key, or the error of the check.
unfoldable pub removed : Str → Store → Result (Unit {0}) → Store × Result Bool
removed key s (ok u) = (record { entries = delete key s.entries }, ok true)
removed key s (err e) = (s, err e)

delete_attempt-alone :
    (expected : Int64) (key : Str) (n : ℕ) (s : Store)
    → delete_attempt nobody expected key n s
      ≡ removed key s (check_delete expected key (lookup key s.entries))
unfolding delete_attempt delete_begun delete_read
delete_attempt-alone expected key n s =
    ap (delete_begun (λ t. t) expected key s) begin_fresh
    ∙ ap (delete_read (λ t. t) expected key s) (get-fresh key s)
    ∙ by_check (check_delete expected key (lookup key s.entries))
  where
    by_check :
        (c : Result (Unit {0}))
        → delete_checked (λ t. t) key s (after_read key (lookup key s.entries)) c ≡ removed key s c
    by_check (ok u) =
        unfold delete_checked removed removal in
        write_delete (λ t. t) key (lookup key s.entries) s
        ∙ rw (read_valid_refl (lookup key s.entries)) refl
    by_check (err e) = unfold delete_checked removed in refl

check_delete-final :
    (expected : Int64) (key : Str) (o : Option Record) (e : ServiceError)
    → check_delete expected key o ≡ err e
    → is_serialization e ≡ false
unfolding check_delete
check_delete-final expected key o e h = ground arith

check_delete-mismatch :
    (expected : Int64) (key : Str) (rec : Record)
    → version_holds expected (some rec) ≡ false
    → check_delete expected key (some rec) ≡ err (version_mismatch key)
unfolding check_delete
check_delete-mismatch expected key rec h = ground arith

check_delete-holds :
    (expected : Int64) (key : Str) (rec : Record)
    → version_holds expected (some rec) ≡ true
    → check_delete expected key (some rec) ≡ ok tt
unfolding check_delete
check_delete-holds expected key rec h = ground arith

-- What a delete promises of its outcome: the reply has the revision of etcd, the key is in neither
-- store, and the other keys are as before.
abbrev pub Erases : Service → Str → State → State × Result DeleteMetadataResponse → Type 0
Erases svc key st (st', r) =
    (r ≡ ok (record { etcd_revision = st'.etcd.revision }))
    × ((k : Str)
        → lookup k st'.store.entries ≡ (if str_eq key k then none else lookup k st.store.entries))
    × ((k : Str)
        → lookup k st'.etcd.kv
          ≡ (if str_eq (etcd_key svc key) k then none else lookup k st.etcd.kv))

module _ (svc : Service) (positive : is_pos svc.max_retries ≡ true) (req : DeleteMetadataRequest)
    (keyed : str_eq req.key [] ≡ false) (st : State) where
  -- With nobody else there the first attempt is the last.
  first_attempt :
      retry svc (delete_attempt nobody req.expected_version req.key) st.store
      ≡ removed req.key st.store
          (check_delete req.expected_version req.key (lookup req.key st.store.entries))
  first_attempt =
      retry_first (delete_attempt nobody req.expected_version req.key) svc st.store positive
        (λ e failed.
          final e (check_delete req.expected_version req.key (lookup req.key st.store.entries)) refl
            (ap (λ p. p.1) (sym alone) ∙ failed))
      ∙ alone
    where
      alone :
          delete_attempt nobody req.expected_version req.key 0 st.store
          ≡ removed req.key st.store
              (check_delete req.expected_version req.key (lookup req.key st.store.entries))
      alone = delete_attempt-alone req.expected_version req.key 0 st.store

      final :
          (e : ServiceError) (c : Result (Unit {0}))
          → check_delete req.expected_version req.key (lookup req.key st.store.entries) ≡ c
          → (removed req.key st.store c).1 ≡ err e
          → is_serialization e ≡ false
      final e (ok u) ec failed = unfold removed in cc
      final e (err x) ec failed =
          let same : x ≡ e = unfold removed in cc in
          check_delete-final req.expected_version req.key (lookup req.key st.store.entries) e
            (ec ∙ ap err same)

  -- What is left once the check has a result.
  delete_metadata-checked :
      (c : Result (Unit {0}))
      → check_delete req.expected_version req.key (lookup req.key st.store.entries) ≡ c
      → delete_metadata nobody svc (some req) st
        ≡ delete_on_etcd nobody svc req st (removed req.key st.store c)
  unfolding delete_metadata
  delete_metadata-checked c e =
      rw keyed
        (ap (delete_on_etcd nobody svc req st) (first_attempt ∙ ap (removed req.key st.store) e))

  abbrev answer : Client × Etcd.Result Etcd.TxnResponse → State × Result DeleteMetadataResponse
  answer p =
      finish_on_etcd st (record { entries = delete req.key st.store.entries })
        (etcd_outcome req.key (λ revision. record { etcd_revision = revision }) p)

  abbrev delete_txn : Etcd.Txn
  delete_txn =
      guarded (etcd_key svc req.key) req.expected_etcd_revision (delete_op (etcd_key svc req.key))

  delete_metadata-allowed :
      check_delete req.expected_version req.key (lookup req.key st.store.entries) ≡ ok tt
      → delete_metadata nobody svc (some req) st ≡ answer (Etcd.commit delete_txn st.etcd)
  delete_metadata-allowed checked =
      delete_metadata-checked (ok tt) checked ∙ unfold removed delete_on_etcd in refl

  answer-Erases :
      (p : Client × Etcd.Result Etcd.TxnResponse)
      → Deletes (etcd_key svc req.key) st.etcd p
      → Erases svc req.key st (answer p)
  unfolding finish_on_etcd etcd_outcome
  answer-Erases (c, Etcd.err e) (h, gone) = cc
  answer-Erases (c, Etcd.ok r) (h, gone) =
      let same : r ≡ record { succeeded = true; revision = c.revision } = cc in
      (
        ap
            (λ (t : Etcd.TxnResponse).
              if t.succeeded
              then ok (record { etcd_revision = t.revision })
              else err (revision_conflict req.key))
            same,
        λ k. lookup-delete req.key k st.store.entries,
        gone,
      )

  pub delete_checked-Erases :
      ((e : ServiceError)
        → check_delete req.expected_version req.key (lookup req.key st.store.entries) ≡ err e
        → delete_metadata nobody svc (some req) st ≡ (st, err e))
      × (check_delete req.expected_version req.key (lookup req.key st.store.entries) ≡ ok tt
          → (guard_holds st.etcd.kv (etcd_key svc req.key) req.expected_etcd_revision ≡ false
              → delete_metadata nobody svc (some req) st ≡ (
                record st { store = record { entries = delete req.key st.store.entries } },
                err (revision_conflict req.key),
              ))
            × (guard_holds st.etcd.kv (etcd_key svc req.key) req.expected_etcd_revision ≡ true
                → Erases svc req.key st (delete_metadata nobody svc (some req) st)))
  delete_checked-Erases = (
    λ e refused. delete_metadata-checked (err e) refused ∙ unfold removed delete_on_etcd in refl,
    λ checked. (
      λ differs.
          delete_metadata-allowed checked
          ∙ ap answer (
              guarded_conflict (etcd_key svc req.key) req.expected_etcd_revision
                (delete_op (etcd_key svc req.key)) st.etcd differs)
          ∙ unfold finish_on_etcd etcd_outcome in refl,
      λ same. rw (delete_metadata-allowed checked) (
          answer-Erases (Etcd.commit delete_txn st.etcd)
            (guarded_delete (etcd_key svc req.key) req.expected_etcd_revision st.etcd same)),
    ),
  )

  -- For a request with a key, a positive number of retries, and no other client at work. If the key
  -- has no record the delete fails as not found, and if its version is not the expected one, where
  -- that is positive, as a mismatch; neither changes anything. If etcd has another revision than
  -- expected, where one is, it fails and etcd stays as it is; but the record is gone. Else it
  -- succeeds, and the key is gone from both and every other key is as before.
  pub delete_metadata-Erases :
      (lookup req.key st.store.entries ≡ none
        → delete_metadata nobody svc (some req) st ≡ (st, err (not_found req.key)))
      × ((rec : Record)
          → lookup req.key st.store.entries ≡ some rec
          → (version_holds req.expected_version (some rec) ≡ false
              → delete_metadata nobody svc (some req) st ≡ (st, err (version_mismatch req.key)))
            × (version_holds req.expected_version (some rec) ≡ true
                → (guard_holds st.etcd.kv (etcd_key svc req.key) req.expected_etcd_revision ≡ false
                    → delete_metadata nobody svc (some req) st ≡ (
                      record st { store = record { entries = delete req.key st.store.entries } },
                      err (revision_conflict req.key),
                    ))
                  × (guard_holds st.etcd.kv (etcd_key svc req.key) req.expected_etcd_revision ≡ true
                      → Erases svc req.key st (delete_metadata nobody svc (some req) st))))
  delete_metadata-Erases =
      let check : Option Record → Result (Unit {0}) = check_delete req.expected_version req.key in
      (
        λ absent.
            delete_checked-Erases.0 (not_found req.key)
              (ap check absent ∙ unfold check_delete in refl),
        λ rec found. (
          λ differs.
              delete_checked-Erases.0 (version_mismatch req.key)
                (ap check found ∙ check_delete-mismatch req.expected_version req.key rec differs),
          λ holds.
              delete_checked-Erases.1
                (ap check found ∙ check_delete-holds req.expected_version req.key rec holds),
        ),
      )
