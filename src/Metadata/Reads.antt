-- ===== src/Metadata/Reads.antt =====
-- `GetMetadata` and `ListMetadata` of internal/metadata/service.go.
use tritontube.Base.{
  ℕ, zero, suc, ◌+◌, Str, str_eq, str_lt, ℤ, pos, is_pos, pos_part, List, [], ◌∷◌, map, filter,
  take, length, ltb, Option, none, some, if◌then◌else◌,
}
use tritontube.Pgx
use tritontube.Pgx.{
  Store, Tx, TxOptions, Record, err_serialization, iso_level_serializable, read_only, read_write,
}
use tritontube.Metadata.Types.{
  GetMetadataRequest, GetMetadataResponse, ListMetadataRequest, ListMetadataResponse, key_required,
  not_found, from_pg, Result, ok, err, record_to_item,
}
use tritontube.Metadata.Service.{State, read_options}

-- The store behind the read pool.
unfoldable pub read_store : State → Store
read_store st = elim st.replica [ none ↦ st.store | some s ↦ s ]

unfoldable pub found_item : Str → Option Record → Result GetMetadataResponse
unfolding record_to_item
found_item key none = err (not_found key)
found_item key (some rec) = ok (record { item = record_to_item rec })

unfoldable pub get_begun : Str → Store → Pgx.Result Tx → Result GetMetadataResponse
unfolding found_item
get_begun key s (Pgx.ok tx) = found_item key (Pgx.get key s tx).1
get_begun key s (Pgx.err e) = err (from_pg e)

-- `GetMetadata` reads, and changes no state.
unfoldable pub get_metadata : Option GetMetadataRequest → State → Result GetMetadataResponse
unfolding get_begun read_store
get_metadata none st = err key_required
get_metadata (some req) st =
    if str_eq req.key []
    then err key_required
    else get_begun req.key (read_store st) (Pgx.begin_tx read_options)

abbrev pub page_limit : ℤ → ℕ
page_limit limit = if is_pos limit then pos_part limit else 100

-- The filter by the page token.
unfoldable pub after_token : Str → List Record → List Record
after_token token items = if str_eq token [] then items else filter (λ r. str_lt token r.key) items

-- `items[limit].Key`; only read where the list is longer than the limit.
abbrev pub key_at : List Record → ℕ → Str
key_at [] i = []
key_at (r ∷ items) zero = r.key
key_at (r ∷ items) (suc i) = key_at items i

unfoldable pub page : ℕ → List Record → ListMetadataResponse
unfolding record_to_item
page limit items =
    if ltb limit (length items)
    then record {
      items = map record_to_item (take limit items);
      next_page_token = key_at items limit;
    }
    else record { items = map record_to_item items; next_page_token = [] }

unfoldable pub list_begun :
    ListMetadataRequest → Store → Pgx.Result Tx → Result ListMetadataResponse
unfolding after_token page
list_begun req s (Pgx.ok tx) = ok (
    page (page_limit req.limit)
      (after_token req.page_token (Pgx.list req.prefix (pos (page_limit req.limit + 1)) s tx).1))
list_begun req s (Pgx.err e) = err (from_pg e)

-- `ListMetadata` reads, and changes no state.
unfoldable pub list_metadata : ListMetadataRequest → State → Result ListMetadataResponse
unfolding list_begun read_store
list_metadata req st = list_begun req (read_store st) (Pgx.begin_tx read_options)
