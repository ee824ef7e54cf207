-- ===== src/Examples/MetadataRuns.antt =====
-- The metadata service of internal/metadata/service.go on a store with three records.
use tritontube.Base.{
  Option, true, false, ℕ, Str, lit, [], ◌∷◌, ◌≡◌, refl, ℤ, pos, inc64, none, some, lookup, insert,
  str_eq, str_lt, has_prefix, delete,
}
use tritontube.Base.Sort.{sort_by}
use tritontube.Pgx
use tritontube.Pgx.{Record, Store, Tx, err_serialization, read_valid}
use tritontube.Etcd.{new_client, current}
use tritontube.Metadata.Types.{
  DeleteMetadataRequest, DeleteMetadataRequest, MetadataItem, PutMetadataRequest,
  ListMetadataResponse, version_mismatch, not_found, revision_conflict, from_pg, ok, err,
  record_to_item,
}
use tritontube.Metadata.Service.{etcd_key, State, Service, Others, nobody, retry}
use tritontube.Metadata.Put.{check_put, put_attempt, put_metadata}
use tritontube.Metadata.Reads.{list_metadata}
use tritontube.Metadata.Delete.{delete_metadata}
use tritontube.Metadata.Deletion.{Erases, delete_metadata-Erases}
use tritontube.Metadata.Attempts.{version_holds, next_record, put_attempt_atomic}
use tritontube.Metadata.Retry.{retry_exhausted, failed_attempts}
use tritontube.Metadata.Guard.{guard_holds}
use tritontube.Metadata.Effects.{put_metadata_conflict, put_metadata-Stores, Stores, put_store}
use tritontube.Metadata.Answers.{list_metadata_next_page}

abbrev row : Str → Record
row key = record { key = key; value = lit "x"; attributes = []; version = pos 1 }

abbrev store : Store
store = record {
  entries = (lit "a", row (lit "a")) ∷ (lit "b", row (lit "b")) ∷ (lit "c", row (lit "c")) ∷ [];
}

abbrev state : State
state = record { store = store; replica = none; etcd = new_client }

abbrev service : Service
service = record { max_retries = pos 5; key_prefix = lit "m/" }

abbrev item : MetadataItem
item = record { key = lit "a"; value = lit "y"; attributes = []; version = pos 0 }

abbrev request : ℤ → ℤ → PutMetadataRequest
request version revision = record {
  item = some item;
  expected_version = version;
  expected_etcd_revision = revision;
}

-- A stand-in for the JSON encoding.
abbrev encode : MetadataItem → Str
encode i = i.value

-- Somebody else writes another key between the read and the commit.
abbrev neighbour : Others
neighbour = record {
  before = λ n s. s;
  during = λ n s. record { entries = insert (lit "d") (row (lit "d")) s.entries };
  on_etcd = λ c. c;
}

abbrev after_both : Store
after_both = record {
  entries =
      (lit "a", record (row (lit "a")) { value = lit "y"; version = pos 2 })
      ∷ (lit "b", row (lit "b"))
      ∷ (lit "c", row (lit "c"))
      ∷ (lit "d", row (lit "d"))
      ∷ [];
}

both_run :
    put_attempt neighbour (pos 1) item 0 store
    ≡ (after_both, ok (record (row (lit "a")) { value = lit "y"; version = pos 2 }))
unfolding put_attempt Pgx.begin_tx Pgx.get Pgx.put Pgx.commit lookup insert delete str_eq inc64
both_run = refl

put_attempt_atomic_example :
    let s1 : Store = neighbour.during 0 store in
    let there : Option Record = lookup (lit "a") s1.entries in
    (version_holds (pos 1) there ≡ true)
    × (record (row (lit "a")) { value = lit "y"; version = pos 2 } ≡ next_record item there)
    × (after_both ≡ record {
      entries =
          insert (lit "a") (record (row (lit "a")) { value = lit "y"; version = pos 2 }) s1.entries;
    })
put_attempt_atomic_example =
    put_attempt_atomic neighbour (pos 1) item 0 store after_both
      (record (row (lit "a")) { value = lit "y"; version = pos 2 }) both_run

-- Somebody else writes the same key between each read and each commit.
abbrev rival : Others
rival = record {
  before = λ n s. store;
  during = λ n s. record { entries = (lit "a", record (row (lit "a")) { version = pos 2 }) ∷ [] };
  on_etcd = λ c. c;
}

rival_wins :
    (n : ℕ) (s : Store) → (put_attempt rival (pos 0) item n s).1 ≡ err (from_pg err_serialization)
unfolding put_attempt Pgx.begin_tx Pgx.get Pgx.put Pgx.commit lookup insert delete str_eq inc64
rival_wins n s = refl

retry_exhausted_example :
    retry service (put_attempt rival (pos 0) item) store
    ≡ (failed_attempts (put_attempt rival (pos 0) item) 5 0 store, err (from_pg err_serialization))
retry_exhausted_example =
    retry_exhausted (put_attempt rival (pos 0) item) rival_wins service store refl

both_retry :
    retry service (put_attempt neighbour (pos 1) item) store
    ≡ (after_both, ok (record (row (lit "a")) { value = lit "y"; version = pos 2 }))
unfolding retry put_attempt Pgx.begin_tx Pgx.get Pgx.put Pgx.commit lookup insert delete str_eq
    inc64
both_retry = refl

put_metadata_conflict_example :
    put_metadata encode nobody service (some (request (pos 1) (pos 9))) state
    ≡ (record state { store = put_store item state }, err (revision_conflict (lit "a")))
unfolding check_put guard_holds lookup str_eq current
put_metadata_conflict_example =
    put_metadata_conflict encode service refl (request (pos 1) (pos 9)) item refl refl state refl
      refl

put_metadata-Stores_example :
    Stores encode service item state
      (put_metadata encode nobody service (some (request (pos 1) (pos 0))) state)
unfolding check_put guard_holds lookup str_eq current
put_metadata-Stores_example =
    put_metadata-Stores encode service refl (request (pos 1) (pos 0)) item refl refl state refl refl

-- The first of three pages of one item.
abbrev first_page : ListMetadataResponse
first_page = record { items = record_to_item (row (lit "a")) ∷ []; next_page_token = lit "b" }

first_page_run :
    list_metadata (record { prefix = []; limit = pos 1; page_token = [] }) state ≡ ok first_page
unfolding list_metadata Pgx.begin_tx Pgx.list sort_by has_prefix str_lt str_eq
first_page_run = refl

list_metadata_next_page_example :
    list_metadata (record { prefix = []; limit = pos 1; page_token = lit "b" }) state
    ≡ ok (record { items = []; next_page_token = [] })
unfolding str_eq
list_metadata_next_page_example =
    list_metadata_next_page [] (pos 1) state first_page first_page_run refl

abbrev removal_request : DeleteMetadataRequest
removal_request = record { key = lit "a"; expected_version = pos 1; expected_etcd_revision = pos 0 }

delete_metadata-Erases_example :
    (lookup (lit "a") store.entries ≡ none
      → delete_metadata nobody service (some removal_request) state
        ≡ (state, err (not_found (lit "a"))))
    × ((rec : Record)
        → lookup (lit "a") store.entries ≡ some rec
        → (version_holds (pos 1) (some rec) ≡ false
            → delete_metadata nobody service (some removal_request) state
              ≡ (state, err (version_mismatch (lit "a"))))
          × (version_holds (pos 1) (some rec) ≡ true
              → (guard_holds state.etcd.kv (etcd_key service (lit "a")) (pos 0) ≡ false
                  → delete_metadata nobody service (some removal_request) state ≡ (
                    record state { store = record { entries = delete (lit "a") store.entries } },
                    err (revision_conflict (lit "a")),
                  ))
                × (guard_holds state.etcd.kv (etcd_key service (lit "a")) (pos 0) ≡ true
                    → Erases service
                        (lit "a")
                        state
                        (delete_metadata nobody service (some removal_request) state))))
unfolding str_eq
delete_metadata-Erases_example = delete_metadata-Erases service refl removal_request refl state
