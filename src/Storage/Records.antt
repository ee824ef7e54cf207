-- ===== src/Storage/Records.antt =====
-- internal/storage/metadata.go: the records of the segments in etcd, and an upload that writes one.
use tritontube.Base.{
  Str, lit, str_eq, false, [], ◌++◌, Option, none, some, if◌then◌else◌, ◌≡◌, refl, ap, ◌∙◌, ◌⊎◌,
  inl, inr,
}
use tritontube.Etcd
use tritontube.Etcd.{Client, EtcdError, TxnResponse}
use tritontube.Etcd.Reads.{get-put}
use tritontube.Storage.Types.{Result, ok, err, etcd_required}
use tritontube.Storage.Upload.{SegmentRecord, MetadataStore}

pub record EtcdMetadataStoreConfig : Type 0 where
  pub etcd : Option Client
  pub prefix : Str

-- The client is the state; the store itself is its prefix.
pub record EtcdMetadataStore : Type 0 where
  pub prefix : Str

unfoldable pub new_etcd_metadata_store :
    EtcdMetadataStoreConfig → Result (EtcdMetadataStore × Client)
new_etcd_metadata_store cfg = elim cfg.etcd [
  | none ↦ err etcd_required
  | some c ↦
      ok (
        record { prefix = if str_eq cfg.prefix [] then lit "/storage/segments" else cfg.prefix },
        c,
      )
]

unfoldable pub record_key : EtcdMetadataStore → Str → Str
record_key store segment_id = store.prefix ++ (lit "/" ++ segment_id)

-- The text of the error of an etcd call; and `json.Marshal` of a record that is updated now, with
-- its text or the text of its error.
module _ (error_text : EtcdError → Str) (encode : SegmentRecord → Str ⊎ Str) where
  unfoldable pub put_error : Client × Etcd.Result TxnResponse → Client × Option Str
  put_error (c, Etcd.ok r) = (c, none)
  put_error (c, Etcd.err e) = (c, some (error_text e))

  unfoldable pub put_encoded : Str → Str ⊎ Str → Client → Client × Option Str
  unfolding put_error Etcd.put
  put_encoded key (inl text) c = put_error (Etcd.put key text c)
  put_encoded key (inr e) c = (c, some (lit "storage: failed to encode metadata: " ++ e))

  unfoldable pub put_segment : EtcdMetadataStore → SegmentRecord → Client → Client × Option Str
  unfolding put_encoded record_key
  put_segment store r c =
      if str_eq r.segment_id []
      then (c, some (lit "storage: segment id is required"))
      else put_encoded (record_key store r.segment_id) (encode r) c

  -- The store as the interface of the service
  abbrev pub metadata_store : EtcdMetadataStore → MetadataStore Client
  metadata_store store = record { put_segment = put_segment store }

  put_error_ok :
      (p : Client × Etcd.Result TxnResponse) (r : TxnResponse)
      → p.1 ≡ Etcd.ok r
      → put_error p ≡ (p.0, none)
  unfolding put_error
  put_error_ok (c, Etcd.ok x) r h = refl
  put_error_ok (c, Etcd.err e) r h = cc

  pub put_segment_lem :
      (store : EtcdMetadataStore) (r : SegmentRecord) (text : Str) (c : Client)
      → str_eq r.segment_id [] ≡ false
      → encode r ≡ inl text
      → put_segment store r c ≡ ((Etcd.put (record_key store r.segment_id) text c).0, none)
  unfolding put_segment
  put_segment_lem store r text c named h = rw named (
      ap (λ o. put_encoded (record_key store r.segment_id) o c) h
      ∙ unfold put_encoded in
        put_error_ok (Etcd.put (record_key store r.segment_id) text c) _
          (get-put (record_key store r.segment_id) text c).0)
