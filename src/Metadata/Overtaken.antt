-- ===== src/Metadata/Overtaken.antt =====
-- Two calls of `PutMetadata` (internal/metadata/service.go) on one key, the second of which runs
-- between the two halves of the first: after its record is committed, before its etcd transaction.
use tritontube.Base.{
  insert, pos, Map, lookup-insert, Str, str_eq, str_eq_refl, Int64, inc64, int_eq, is_nonneg,
  is_pos, true, false, [], Option, none, some, lookup, ◌≡◌, refl, ap, sym, ◌∙◌,
}
use mathlib.Core.Option as Option
use tritontube.Pgx.{Store, Record}
use tritontube.Etcd
use tritontube.Etcd.{current, Client, KvPair, put_op}
use tritontube.Etcd.Dated.{written}
use tritontube.Metadata.Types.{
  MetadataItem, PutMetadataRequest, PutMetadataResponse, Result, ok, err, record_to_item, clone,
  revision_conflict,
}
use tritontube.Metadata.Service.{
  State, Service, nobody, etcd_key, retry, finish_on_etcd, etcd_outcome, guarded,
}
use tritontube.Metadata.Attempts.{new_record_lem}
use tritontube.Metadata.Put.{check_put, put_metadata, put_attempt, put_on_etcd}
use tritontube.Metadata.Guard.{guard_holds, guarded_put, guarded_conflict}
use tritontube.Metadata.Effects.{
  clone_id, put_record, put_store, reply_item, Stores, put_checked-Stores, item-put_record, reply,
}
use tritontube.Metadata.Alone.{put-stored, stored}
use tritontube.Metadata.InSync.{InSync, mirrored, recorded, etcd_key-str_eq, Stores-InSync}

-- The put `req` of the item, and between its halves the whole put `rival`.
unfoldable pub overtaken_put :
    (MetadataItem → Str)
    → Service
    → PutMetadataRequest
    → MetadataItem
    → PutMetadataRequest
    → State
    → State × Result PutMetadataResponse
unfolding put_metadata put_on_etcd put_attempt retry clone
overtaken_put encode svc req it rival st =
    let (s, made) = retry svc (put_attempt nobody req.expected_version (clone it)) st.store in
    let st' = (put_metadata encode nobody svc (some rival) (record st { store = s })).0 in
    put_on_etcd encode nobody svc req (clone it) st' (st'.store, made)

-- The state in which the second put starts.
abbrev pub after_records : MetadataItem → State → State
after_records it st = record st { store = put_store it st }

etcd_outcome-state :
    {A : Type 0} (st : State) (key : Str) (make : Int64 → A)
    (p : Client × Etcd.Result Etcd.TxnResponse)
    → (finish_on_etcd st st.store (etcd_outcome key make p)).0 ≡ record st { etcd = p.0 }
unfolding finish_on_etcd etcd_outcome
etcd_outcome-state st key make (c, Etcd.ok r) = refl
etcd_outcome-state st key make (c, Etcd.err e) = refl

guard_holds-none :
    (kv : Map KvPair) (key : Str) (expected : Int64)
    → is_nonneg expected ≡ false
    → guard_holds kv key expected ≡ true
unfolding guard_holds
guard_holds-none kv key expected h = rw h refl

guard_holds-written :
    (kv : Map KvPair) (key : Str) (expected : Int64) (entry : KvPair)
    → is_nonneg expected ≡ true
    → lookup key kv ≡ some entry
    → guard_holds kv key expected ≡ int_eq entry.mod_revision expected
unfolding guard_holds current
guard_holds-written kv key expected entry h found = rw h (
    ap (λ (o : Option KvPair). int_eq (elim o [ none ↦ pos 0 | some e ↦ e.mod_revision ]) expected)
      found)

module _ (encode : MetadataItem → Str) (svc : Service) (positive : is_pos svc.max_retries ≡ true)
    (req : PutMetadataRequest) (it : MetadataItem) (rival : PutMetadataRequest)
    (other : MetadataItem) (given : rival.item ≡ some other) (keyed : str_eq it.key [] ≡ false)
    (same_key : other.key ≡ it.key) (st : State)
    (checked : check_put req.expected_version it.key (lookup it.key st.store.entries) ≡ ok tt)
    (rival_checked : check_put rival.expected_version other.key
        (lookup other.key (put_store it st).entries)
      ≡ ok tt)
    (rival_current : guard_holds st.etcd.kv (etcd_key svc other.key) rival.expected_etcd_revision
      ≡ true) where
  abbrev between : State
  between = (put_metadata encode nobody svc (some rival) (after_records it st)).0

  -- The first put after its record half.
  abbrev resumed : MetadataItem → Store × Result Record → State × Result PutMetadataResponse
  resumed c p =
      let st' = (put_metadata encode nobody svc (some rival) (record st { store = p.0 })).0 in
      put_on_etcd encode nobody svc req c st' (st'.store, p.1)

  overtaken_put-resumed :
      overtaken_put encode svc req it rival st
      ≡ finish_on_etcd between between.store (
          etcd_outcome it.key (reply it st) (
            Etcd.commit
              (guarded
                (etcd_key svc it.key)
                req.expected_etcd_revision
                (put_op (etcd_key svc it.key) (encode (reply_item it st))))
              between.etcd))
  unfolding overtaken_put
  overtaken_put-resumed =
      ap (resumed (clone it)) (
        put-stored svc positive req.expected_version (clone it) st.store
        ∙ ap (stored (clone it) st.store) checked)
      ∙ ap (λ c. resumed c (stored c st.store (ok tt))) (clone_id it)
      ∙ unfold stored in
        ap (λ rec. resumed it (record { entries = insert it.key rec st.store.entries }, ok rec))
          (new_record_lem it (lookup it.key st.store.entries))
        ∙ unfold put_on_etcd in refl

  between-Stores :
      Stores encode svc other
        (after_records it st)
        (put_metadata encode nobody svc (some rival) (after_records it st))
  between-Stores =
      put_checked-Stores encode svc positive rival other given
        (ap (λ k. str_eq k []) same_key ∙ keyed) (after_records it st) rival_checked rival_current

  here : str_eq other.key it.key ≡ true
  here = ap (λ k. str_eq k it.key) same_key ∙ str_eq_refl it.key

  between-record :
      lookup it.key between.store.entries ≡ some (put_record other (after_records it st))
  between-record = between-Stores.2 it.key ∙ rw here refl

  between-kv :
      lookup (etcd_key svc it.key) between.etcd.kv
      ≡ some (written (encode (reply_item other (after_records it st))) st.etcd)
  between-kv =
      between-Stores.3 (etcd_key svc it.key) ∙ rw (etcd_key-str_eq svc other.key it.key, here) refl

  between-InSync : InSync encode svc st → InSync encode svc between
  between-InSync sync =
      Stores-InSync encode svc (after_records it st) other
        (put_metadata encode nobody svc (some rival) (after_records it st))
        (λ k differs.
          sync k
          ∙ ap (λ o. Option.map (λ r. encode (record_to_item r)) o)
              (sym (
                lookup-insert it.key k (put_record it st) st.store.entries
                ∙ rw (ap (λ j. str_eq j k) (sym same_key) ∙ differs) refl)))
        between-Stores

  abbrev late_txn : Etcd.Txn
  late_txn =
      guarded (etcd_key svc it.key) req.expected_etcd_revision
        (put_op (etcd_key svc it.key) (encode (reply_item it st)))

  overtaken_put-state :
      (overtaken_put encode svc req it rival st).0
      ≡ record between { etcd = (Etcd.commit late_txn between.etcd).0 }
  overtaken_put-state =
      ap (λ p. p.0) overtaken_put-resumed
      ∙ etcd_outcome-state between it.key (reply it st) (Etcd.commit late_txn between.etcd)

  -- For two puts of one key that both pass their version checks, a positive number of retries, and a
  -- second put that quotes no revision of etcd or the key's: let the second run from end to end when
  -- the first has committed its record and not yet its etcd transaction. If the first quotes no
  -- revision, the record is in the end the second's, and etcd holds the item of the first, with its
  -- older version. If it quotes one that is not the revision of the second put, it fails, and etcd
  -- mirrors the records if it did so before.
  pub overtaken_put_lem :
      (is_nonneg req.expected_etcd_revision ≡ false
        → (recorded encode (overtaken_put encode svc req it rival st).0.store it.key
            ≡ some (encode (reply_item other (after_records it st))))
          × (mirrored svc (overtaken_put encode svc req it rival st).0.etcd it.key
              ≡ some (encode (reply_item it st))))
      × (is_nonneg req.expected_etcd_revision ≡ true
          → int_eq (inc64 st.etcd.revision) req.expected_etcd_revision ≡ false
          → InSync encode svc st
          → ((overtaken_put encode svc req it rival st).1 ≡ err (revision_conflict it.key))
            × InSync encode svc (overtaken_put encode svc req it rival st).0)
  overtaken_put_lem = (
    λ unguarded.
        let wrote =
          guarded_put (etcd_key svc it.key) req.expected_etcd_revision (encode (reply_item it st))
            between.etcd
            (guard_holds-none between.etcd.kv (etcd_key svc it.key) req.expected_etcd_revision
              unguarded) in
        (
          rw (overtaken_put-state, between-record)
              (ap (λ i. some (encode i)) (item-put_record other (after_records it st))),
          rw (overtaken_put-state, wrote.1 (etcd_key svc it.key), str_eq_refl (etcd_key svc it.key))
              refl,
        ),
    λ quoted differs sync.
        let lost =
          guarded_conflict (etcd_key svc it.key) req.expected_etcd_revision
            (put_op (etcd_key svc it.key) (encode (reply_item it st))) between.etcd
            (guard_holds-written between.etcd.kv (etcd_key svc it.key) req.expected_etcd_revision
                (written (encode (reply_item other (after_records it st))) st.etcd) quoted
                between-kv
              ∙ differs) in
        (
          rw (overtaken_put-resumed, lost) (unfold finish_on_etcd etcd_outcome in refl),
          rw (overtaken_put-state, lost) (between-InSync sync),
        ),
  )
