-- ===== src/Metadata/Types.antt =====
-- The messages of internal/metadata/metadata.pb.go and the errors of internal/metadata/service.go.
use tritontube.Base.Sort.{sort_by}
use tritontube.Base.{
  lit, ◌∷◌, ◌++◌, str_lt, int_text, some, Str, Int64, ℤ, Map, List, Option, none, some, ltb, length,
  [], if◌then◌else◌,
}
use tritontube.Pgx.{PgError, Record}
use tritontube.Etcd.{EtcdError}

pub record MetadataItem : Type 0 where
  pub key : Str
  pub value : Str
  pub attributes : Map Str
  pub version : Int64

-- A nil pointer is `none`, here and in the requests.
pub record PutMetadataRequest : Type 0 where
  pub item : Option MetadataItem
  pub expected_version : Int64
  pub expected_etcd_revision : Int64

pub record PutMetadataResponse : Type 0 where
  pub item : MetadataItem
  pub etcd_revision : Int64

pub record GetMetadataRequest : Type 0 where
  pub key : Str

pub record GetMetadataResponse : Type 0 where
  pub item : MetadataItem

pub record DeleteMetadataRequest : Type 0 where
  pub key : Str
  pub expected_version : Int64
  pub expected_etcd_revision : Int64

pub record DeleteMetadataResponse : Type 0 where
  pub etcd_revision : Int64

pub record ListMetadataRequest : Type 0 where
  pub prefix : Str
  pub limit : ℤ
  pub page_token : Str

pub record ListMetadataResponse : Type 0 where
  pub items : List MetadataItem
  pub next_page_token : Str

-- One constructor for each error that the service makes, the errors that it passes on, and the error
-- of a method that `UnimplementedMetadataServiceServer` stands in for.
pub data ServiceError : Type 0 where
  write_pool_required etcd_required item_required key_required : ServiceError
  missing_key version_mismatch not_found delete_lost revision_conflict : Str → ServiceError
  retries_exceeded : ℤ → ServiceError
  from_pg : PgError → ServiceError
  from_etcd : EtcdError → ServiceError
  not_implemented : Str → ServiceError

pub data Result {ℓ} (A : Type ℓ) : Type ℓ where
  ok : A → Result A
  err : ServiceError → Result A

-- `cloneMap`: nil for an empty map, else a copy. Maps are values here.
unfoldable pub clone_map : Map Str → Map Str
clone_map m = if ltb 0 (length m) then m else []

-- `Clone` copies the attributes if there are any.
unfoldable pub clone : MetadataItem → MetadataItem
unfolding clone_map
clone x = record x { attributes = clone_map x.attributes }

unfoldable pub record_to_item : Record → MetadataItem
unfolding clone_map
record_to_item r = record {
  key = r.key;
  value = r.value;
  attributes = clone_map r.attributes;
  version = r.version;
}

-- `GetAttributes`: an empty map for a nil item and for nil attributes, which is the empty map here
unfoldable pub get_attributes : Option MetadataItem → Map Str
get_attributes none = []
get_attributes (some x) = x.attributes

-- `PutMetadataRequest.GetItem`
unfoldable pub get_item : Option PutMetadataRequest → Option MetadataItem
get_item none = none
get_item (some x) = x.item

-- `%v` of a map of strings, whose keys `fmt` sorts
unfoldable pub pairs_text : Map Str → Str
pairs_text [] = []
pairs_text ((k, v) ∷ []) = k ++ (lit ":" ++ v)
pairs_text ((k, v) ∷ m) = k ++ (lit ":" ++ (v ++ (lit " " ++ pairs_text m)))

unfoldable pub map_text : Map Str → Str
unfolding pairs_text sort_by
map_text m = lit "map[" ++ (pairs_text (sort_by (λ a b. str_lt a.0 b.0) m) ++ lit "]")

-- `EncodeMetadataItem`: `none` is its error on a nil item. Nothing calls it.
unfoldable pub encode_metadata_item : Option MetadataItem → Option Str
unfolding map_text int_text
encode_metadata_item none = none
encode_metadata_item (some item) =
    some (item.value ++ (10 ∷ (int_text item.version ++ (10 ∷ map_text item.attributes))))
