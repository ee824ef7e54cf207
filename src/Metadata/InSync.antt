-- ===== src/Metadata/InSync.antt =====
-- The two stores of internal/metadata/service.go side by side: the records, and the copies of their
-- items that `PutMetadata` and `DeleteMetadata` keep in etcd.
use tritontube.Base.{
  Str, str_eq, str_eq_iff, is_pos, Bool, true, false, [], ◌∷◌, ◌++◌, Option, none, some, lookup,
  if◌then◌else◌, arith, ◌≡◌, refl, ap, sym, ◌∙◌, Bool-cases, inl, inr,
}
use mathlib.Core.Option as Option
use tritontube.Pgx.{Store}
use tritontube.Etcd.{Client, KvPair}
use tritontube.Etcd.Dated.{written}
use tritontube.Metadata.Types.{
  key_required, clone, PutMetadataResponse, DeleteMetadataResponse, MetadataItem,
  PutMetadataRequest, DeleteMetadataRequest, Result, ok, err, record_to_item,
}
use tritontube.Metadata.Service.{State, Service, nobody, etcd_key}
use tritontube.Metadata.Put.{put_item, check_put, put_metadata}
use tritontube.Metadata.Delete.{check_delete, delete_metadata}
use tritontube.Metadata.Guard.{guard_holds}
use tritontube.Metadata.Effects.{
  put_record, reply_item, Stores, put_metadata_refused, put_checked-Stores, item-put_record,
}
use tritontube.Metadata.Deletion.{Erases, delete_checked-Erases}

-- What etcd holds for a key of the service, and the encoding of the item that is on record.
abbrev pub mirrored : Service → Client → Str → Option Str
mirrored svc c k = Option.map (λ (p : KvPair). p.value) (lookup (etcd_key svc k) c.kv)

abbrev pub recorded : (MetadataItem → Str) → Store → Str → Option Str
recorded encode s k = Option.map (λ r. encode (record_to_item r)) (lookup k s.entries)

-- Etcd mirrors the records.
abbrev pub InSync : (MetadataItem → Str) → Service → State → Type 0
InSync encode svc st = (k : Str) → mirrored svc st.etcd k ≡ recorded encode st.store k

append-injective : (p a b : Str) → p ++ a ≡ p ++ b → a ≡ b
append-injective [] a b e = e
append-injective (c ∷ p) a b e = append-injective p a b (ground arith)

pub etcd_key-str_eq :
    (svc : Service) (a b : Str) → str_eq (etcd_key svc a) (etcd_key svc b) ≡ str_eq a b
unfolding etcd_key
etcd_key-str_eq svc a b = ground (
  arith,
  str_eq_iff a b,
  str_eq_iff (svc.key_prefix ++ a) (svc.key_prefix ++ b),
  append-injective svc.key_prefix a b,
)

-- A put of an item brings its key in step, whatever the key held before.
pub Stores-InSync :
    (encode : MetadataItem → Str) (svc : Service) (st : State) (it : MetadataItem)
    (out : State × Result PutMetadataResponse)
    → ((k : Str) → str_eq it.key k ≡ false → mirrored svc st.etcd k ≡ recorded encode st.store k)
    → Stores encode svc it st out
    → InSync encode svc out.0
Stores-InSync encode svc st it (st', r) others (replied, replica, records, copies) k =
    rw (records k, copies (etcd_key svc k), etcd_key-str_eq svc it.key k)
      (after (str_eq it.key k) refl)
  where
    after :
        (b : Bool)
        → str_eq it.key k ≡ b
        → Option.map
            (λ (p : KvPair). p.value)
            (if b
              then some (written (encode (reply_item it st)) st.etcd)
              else lookup (etcd_key svc k) st.etcd.kv)
          ≡ Option.map
              (λ r. encode (record_to_item r))
              (if b then some (put_record it st) else lookup k st.store.entries)
    after true e = ap (λ i. some (encode i)) (sym (item-put_record it st))
    after false e = others k e

module _ (encode : MetadataItem → Str) (svc : Service) (st : State)
    (sync : InSync encode svc st) where
  Erases-InSync :
      (key : Str) (out : State × Result DeleteMetadataResponse)
      → Erases svc key st out
      → InSync encode svc out.0
  Erases-InSync key (st', r) (replied, records, copies) k =
      rw (records k, copies (etcd_key svc k), etcd_key-str_eq svc key k) (after (str_eq key k))
    where
      after :
          (b : Bool)
          → Option.map
              (λ (p : KvPair). p.value)
              (if b then none else lookup (etcd_key svc k) st.etcd.kv)
            ≡ Option.map
                (λ r. encode (record_to_item r))
                (if b then none else lookup k st.store.entries)
      after true = refl
      after false = sync k

put_metadata-unkeyed :
    (encode : MetadataItem → Str) (svc : Service) (req : PutMetadataRequest) (it : MetadataItem)
    (st : State)
    → req.item ≡ some it
    → str_eq it.key [] ≡ true
    → put_metadata encode nobody svc (some req) st ≡ (st, err key_required)
unfolding put_metadata put_item clone
put_metadata-unkeyed encode svc req it st given unkeyed =
    ap (λ o. put_item encode nobody svc req o st) given ∙ rw unkeyed refl

-- What may happen next: a put or a delete, with nobody else at work, that gives no revision of etcd
-- or the one that its key has.
pub data Step (encode : MetadataItem → Str) (svc : Service) : State → State → Type 0 where
  put :
      {st : State} (req : PutMetadataRequest) (it : MetadataItem)
      → req.item ≡ some it
      → guard_holds st.etcd.kv (etcd_key svc it.key) req.expected_etcd_revision ≡ true
      → Step encode svc st (put_metadata encode nobody svc (some req) st).0
  delete :
      {st : State} (req : DeleteMetadataRequest)
      → guard_holds st.etcd.kv (etcd_key svc req.key) req.expected_etcd_revision ≡ true
      → Step encode svc st (delete_metadata nobody svc (some req) st).0

pub data Reach (encode : MetadataItem → Str) (svc : Service) : State → State → Type 0 where
  start : {st : State} → Reach encode svc st st
  later :
      {first st st' : State}
      → Reach encode svc first st
      → Step encode svc st st'
      → Reach encode svc first st'

module _ (encode : MetadataItem → Str) (svc : Service)
    (positive : is_pos svc.max_retries ≡ true) where
  put_metadata-InSync :
      (req : PutMetadataRequest) (it : MetadataItem) (st : State)
      → req.item ≡ some it
      → guard_holds st.etcd.kv (etcd_key svc it.key) req.expected_etcd_revision ≡ true
      → InSync encode svc st
      → InSync encode svc (put_metadata encode nobody svc (some req) st).0
  put_metadata-InSync req it st given same sync = elim (Bool-cases (str_eq it.key [])) [
    | inl unkeyed ↦ rw (put_metadata-unkeyed encode svc req it st given unkeyed) sync
    | inr keyed ↦
        checked keyed (check_put req.expected_version it.key (lookup it.key st.store.entries)) refl
  ]
    where
      checked :
          str_eq it.key [] ≡ false
          → (c : Result (Unit {0}))
          → check_put req.expected_version it.key (lookup it.key st.store.entries) ≡ c
          → InSync encode svc (put_metadata encode nobody svc (some req) st).0
      checked keyed (ok u) e =
          Stores-InSync encode svc st it (put_metadata encode nobody svc (some req) st)
            (λ k other. sync k)
            (put_checked-Stores encode svc positive req it given keyed st e same)
      checked keyed (err x) e =
          rw (put_metadata_refused encode svc positive req it given keyed st x e) sync

  delete_metadata-InSync :
      (req : DeleteMetadataRequest) (st : State)
      → guard_holds st.etcd.kv (etcd_key svc req.key) req.expected_etcd_revision ≡ true
      → InSync encode svc st
      → InSync encode svc (delete_metadata nobody svc (some req) st).0
  delete_metadata-InSync req st same sync = elim (Bool-cases (str_eq req.key [])) [
    | inl unkeyed ↦ unfold delete_metadata in rw unkeyed sync
    | inr keyed ↦
        checked keyed (check_delete req.expected_version req.key (lookup req.key st.store.entries))
          refl
  ]
    where
      checked :
          str_eq req.key [] ≡ false
          → (c : Result (Unit {0}))
          → check_delete req.expected_version req.key (lookup req.key st.store.entries) ≡ c
          → InSync encode svc (delete_metadata nobody svc (some req) st).0
      checked keyed (ok u) e =
          Erases-InSync encode svc st sync req.key (delete_metadata nobody svc (some req) st)
            (((delete_checked-Erases svc positive req keyed st).1 e).1 same)
      checked keyed (err x) e = rw ((delete_checked-Erases svc positive req keyed st).0 x e) sync

  Step-InSync :
      {st st' : State} → Step encode svc st st' → InSync encode svc st → InSync encode svc st'
  Step-InSync {st} (put req it given same) sync = put_metadata-InSync req it st given same sync
  Step-InSync {st} (delete req same) sync = delete_metadata-InSync req st same sync

  -- For a service with a positive number of retries, after any sequence of puts and deletes one after
  -- the other, each of which gives no revision of etcd or the revision of its key: if etcd mirrored
  -- the records at the start, it still does. For every key etcd holds the encoding of the item on
  -- record, and nothing if there is no record.
  pub Reach-InSync :
      {first st : State}
      → Reach encode svc first st
      → InSync encode svc first
      → InSync encode svc st
  Reach-InSync start sync = sync
  Reach-InSync (later r step) sync = Step-InSync step (Reach-InSync r sync)
