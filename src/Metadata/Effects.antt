-- ===== src/Metadata/Effects.antt =====
-- `PutMetadata` and `DeleteMetadata` of internal/metadata/service.go from end to end, with no other
-- client at work.
use tritontube.Base.{
  Str, str_eq, str_eq_refl, Int64, inc64, is_pos, true, false, [], none, some, lookup, insert,
  lookup-insert, if◌then◌else◌, arith, ◌≡◌, refl, ap, ◌∙◌,
}
use tritontube.Pgx.Commits.{version_of}
use tritontube.Pgx.{Store, Record}
use tritontube.Etcd
use tritontube.Etcd.{Client}
use tritontube.Metadata.Types.{
  MetadataItem, PutMetadataRequest, PutMetadataResponse, ServiceError, Result, ok, err, clone,
  revision_conflict,
}
use tritontube.Metadata.Service.{
  State, Service, nobody, guarded, etcd_outcome, finish_on_etcd, etcd_key,
}
use tritontube.Metadata.Put.{check_put, put_on_etcd, put_item, put_metadata}
use tritontube.Etcd.{put_op, KvPair}
use tritontube.Metadata.Guard.{guard_holds, guarded_conflict, guarded_put}
use tritontube.Etcd.Dated.{written}
use tritontube.Metadata.Reads.{get_metadata, read_store, found_item}
use tritontube.Metadata.Answers.{get_metadata-lookup, clone_map_id}
use tritontube.Metadata.Types.{record_to_item}
use tritontube.Metadata.Attempts.{
  version_holds, next_record, new_record_lem, check_put-version_holds,
}
use tritontube.Metadata.Alone.{put-stored, stored}

pub read_store_shared : (st : State) → st.replica ≡ none → read_store st ≡ st.store
unfolding read_store
read_store_shared st h = ground arith

-- The record that a put of an item stores, and the store with it.
abbrev pub put_record : MetadataItem → State → Record
put_record it st = next_record it (lookup it.key st.store.entries)

abbrev pub put_store : MetadataItem → State → Store
put_store it st = record { entries = insert it.key (put_record it st) st.store.entries }

-- The item of the reply, and the reply.
abbrev pub reply_item : MetadataItem → State → MetadataItem
reply_item it st = record it { version = inc64 (version_of (lookup it.key st.store.entries)) }

abbrev pub reply : MetadataItem → State → Int64 → PutMetadataResponse
reply it st revision = record { item = reply_item it st; etcd_revision = revision }

pub item-put_record :
    (it : MetadataItem) (st : State) → record_to_item (put_record it st) ≡ reply_item it st
unfolding record_to_item
item-put_record it st =
    ap (λ m. record (reply_item it st) { attributes = m }) (clone_map_id it.attributes)

pub clone_id : (it : MetadataItem) → clone it ≡ it
unfolding clone
clone_id it = ap (λ m. record it { attributes = m }) (clone_map_id it.attributes)

-- What a successful put promises of its outcome: the reply has the next revision; the records and
-- etcd hold the new record and its encoding, and their other keys are as before.
abbrev pub Stores :
    (MetadataItem → Str)
    → Service
    → MetadataItem
    → State
    → State × Result PutMetadataResponse
    → Type 0
Stores encode svc it st (st', r) =
    (r ≡ ok (reply it st (inc64 st.etcd.revision)))
    × (st'.replica ≡ st.replica)
    × ((k : Str)
        → lookup k st'.store.entries
          ≡ (if str_eq it.key k then some (put_record it st) else lookup k st.store.entries))
    × ((k : Str)
        → lookup k st'.etcd.kv ≡ (
            if str_eq (etcd_key svc it.key) k
            then some (written (encode (reply_item it st)) st.etcd)
            else lookup k st.etcd.kv))

-- A request for an item with a key, nobody else at work, and a service with retries.
module _ (encode : MetadataItem → Str) (svc : Service) (positive : is_pos svc.max_retries ≡ true)
    (req : PutMetadataRequest) (it : MetadataItem) (given : req.item ≡ some it)
    (keyed : str_eq it.key [] ≡ false) (st : State) where
  put_metadata-stored :
      put_metadata encode nobody svc (some req) st
      ≡ put_on_etcd encode nobody svc req it st (
          stored it st.store
            (check_put req.expected_version it.key (lookup it.key st.store.entries)))
  unfolding put_metadata put_item
  put_metadata-stored =
      ap (λ o. put_item encode nobody svc req o st) given
      ∙ rw keyed (
          ap (put_on_etcd encode nobody svc req (clone it) st)
            (put-stored svc positive req.expected_version (clone it) st.store))
      ∙ ap
          (λ c. put_on_etcd encode nobody svc req c st (
            stored c st.store
              (check_put req.expected_version c.key (lookup c.key st.store.entries))))
          (clone_id it)

  -- For a request with an item and a key, a positive number of retries, and no other client at
  -- work: a put that its version check refuses answers with the error of the check, and changes
  -- neither the records nor etcd.
  pub put_metadata_refused :
      (e : ServiceError)
      → check_put req.expected_version it.key (lookup it.key st.store.entries) ≡ err e
      → put_metadata encode nobody svc (some req) st ≡ (st, err e)
  unfolding stored put_on_etcd
  put_metadata_refused e refused = put_metadata-stored ∙ rw refused refl

  abbrev put_txn : Etcd.Txn
  put_txn =
      guarded (etcd_key svc it.key) req.expected_etcd_revision
        (put_op (etcd_key svc it.key) (encode (reply_item it st)))

  -- What the store holds and the transaction writes once the version is checked.
  stored_next :
      put_on_etcd encode nobody svc req it st (stored it st.store (ok tt))
      ≡ finish_on_etcd st
          (put_store it st)
          (etcd_outcome it.key (reply it st) (Etcd.commit put_txn st.etcd))
  unfolding stored put_on_etcd
  stored_next =
      ap
        (λ rec.
          put_on_etcd encode nobody svc req it st
            (record { entries = insert it.key rec st.store.entries }, ok rec))
        (new_record_lem it (lookup it.key st.store.entries))

  put_metadata_checked :
      check_put req.expected_version it.key (lookup it.key st.store.entries) ≡ ok tt
      → put_metadata encode nobody svc (some req) st
        ≡ finish_on_etcd st
            (put_store it st)
            (etcd_outcome it.key (reply it st) (Etcd.commit put_txn st.etcd))
  put_metadata_checked checked =
      put_metadata-stored
      ∙ ap (λ c. put_on_etcd encode nobody svc req it st (stored it st.store c)) checked
      ∙ stored_next

  -- For a request with an item and a key, a positive number of retries, and no other client at
  -- work: a put whose version check passes and whose revision is not the key's fails, and etcd
  -- stays as it is; but the new record is in the store.
  pub put_metadata_conflict :
      check_put req.expected_version it.key (lookup it.key st.store.entries) ≡ ok tt
      → guard_holds st.etcd.kv (etcd_key svc it.key) req.expected_etcd_revision ≡ false
      → put_metadata encode nobody svc (some req) st
        ≡ (record st { store = (put_store it st) }, err (revision_conflict it.key))
  put_metadata_conflict checked differs =
      put_metadata_checked checked
      ∙ ap (λ p. finish_on_etcd st (put_store it st) (etcd_outcome it.key (reply it st) p))
          (guarded_conflict (etcd_key svc it.key) req.expected_etcd_revision
            (put_op (etcd_key svc it.key) (encode (reply_item it st))) st.etcd differs)
      ∙ unfold finish_on_etcd etcd_outcome in refl

  abbrev EtcdHolds : Client → Type 0
  EtcdHolds c =
      (k : Str)
      → lookup k c.kv ≡ (
          if str_eq (etcd_key svc it.key) k
          then some (written (encode (reply_item it st)) st.etcd)
          else lookup k st.etcd.kv)

  etcd_outcome-Stores :
      (p : Client × Etcd.Result Etcd.TxnResponse)
      → p.1 ≡ Etcd.ok (record { succeeded = true; revision = inc64 st.etcd.revision })
      → EtcdHolds p.0
      → Stores encode svc it st
          (finish_on_etcd st (put_store it st) (etcd_outcome it.key (reply it st) p))
  unfolding finish_on_etcd etcd_outcome
  etcd_outcome-Stores (c, Etcd.err e) h after = cc
  etcd_outcome-Stores (c, Etcd.ok r) h after =
      let same : r ≡ record { succeeded = true; revision = inc64 st.etcd.revision } = cc in
      (
        ap
            (λ (t : Etcd.TxnResponse).
              if t.succeeded then ok ((reply it st) t.revision) else err (revision_conflict it.key))
            same,
        refl,
        λ k. lookup-insert it.key k (put_record it st) st.store.entries,
        after,
      )

  pub put_checked-Stores :
      check_put req.expected_version it.key (lookup it.key st.store.entries) ≡ ok tt
      → guard_holds st.etcd.kv (etcd_key svc it.key) req.expected_etcd_revision ≡ true
      → Stores encode svc it st (put_metadata encode nobody svc (some req) st)
  put_checked-Stores checked same =
      let wrote =
        guarded_put (etcd_key svc it.key) req.expected_etcd_revision (encode (reply_item it st))
          st.etcd same in
      rw (put_metadata_checked checked)
        (etcd_outcome-Stores (Etcd.commit put_txn st.etcd) wrote.0 wrote.1)

  -- For a request with an item and a key, a positive number of retries, and no other client at
  -- work: a put whose version and revision, where given, are those of the key succeeds. The reply
  -- has the item with the version after the one on record and the next revision, the record of the
  -- item with this version is stored, etcd holds the encoding of the item of the reply, and no other
  -- key changes in either.
  pub put_metadata-Stores :
      version_holds req.expected_version (lookup it.key st.store.entries) ≡ true
      → guard_holds st.etcd.kv (etcd_key svc it.key) req.expected_etcd_revision ≡ true
      → Stores encode svc it st (put_metadata encode nobody svc (some req) st)
  put_metadata-Stores holds = put_checked-Stores (
      (check_put-version_holds req.expected_version it.key (lookup it.key st.store.entries)).1
        holds)

  -- For a request with an item and a key, a positive number of retries, and no other client at
  -- work: after a put whose version and revision, where given, are those of the key, a get returns
  -- the item of the reply, if the read pool is the write pool.
  pub get-put_metadata :
      st.replica ≡ none
      → check_put req.expected_version it.key (lookup it.key st.store.entries) ≡ ok tt
      → guard_holds st.etcd.kv (etcd_key svc it.key) req.expected_etcd_revision ≡ true
      → get_metadata
          (some (record { key = it.key }))
          (put_metadata encode nobody svc (some req) st).0
        ≡ ok (record { item = (reply_item it st) })
  unfolding found_item
  get-put_metadata shared checked same =
      let st' = (put_metadata encode nobody svc (some req) st).0 in
      let after = put_checked-Stores checked same in
      let found : lookup it.key (read_store st').entries ≡ some (put_record it st) =
        ap (λ (t : Store). lookup it.key t.entries) (read_store_shared st' (after.1 ∙ shared))
        ∙ after.2 it.key
        ∙ rw (str_eq_refl it.key) refl in
      get_metadata-lookup it.key st' keyed
      ∙ ap (found_item it.key) found
      ∙ ap (λ i. ok (record { item = i })) (item-put_record it st)
