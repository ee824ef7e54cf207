-- ===== src/Metadata/Answers.antt =====
-- What `GetMetadata` and `ListMetadata` (internal/metadata/service.go) answer.
use tritontube.Base.{
  le→ltb, false≢true, ◌&&◌, ltb→lt, length-take, ℕ, zero, suc, ◌+◌, ◌≤◌, ◌<◌, Str, str_eq, str_lt,
  str_lt_irrefl, ℤ, pos, is_pos, pos_part, Bool, false, List, [], ◌∷◌, filter, take, length, some,
  Map, lookup, All, ltb, arith, ◌≡◌, refl, ap, sym, ◌∙◌, Bool-cases, inl, inr, str_eq_refl,
}
use tritontube.Base.Sort.{Ascending, sort_by, sort_by-Ascending}
use tritontube.Pgx
use tritontube.Pgx.{Store, Tx, Record, key_less, clone_record, cut}
use tritontube.Pgx.Commits.{get-seen, seen}
use tritontube.Pgx.Listing.{matching, list-sort, key_less-IsWeakOrder}
use tritontube.Metadata.Types.{ListMetadataRequest, ListMetadataResponse, ok, clone_map}
use tritontube.Metadata.Service.{State}
use tritontube.Metadata.Reads.{
  read_store, found_item, get_begun, get_metadata, page_limit, after_token, key_at, page,
  list_begun, list_metadata,
}

pub clone_map_id : (m : Map Str) → clone_map m ≡ m
unfolding clone_map
clone_map_id [] = refl
clone_map_id (x ∷ m) = ground arith

-- A get answers with the record of the read pool's store.
pub get_metadata-lookup :
    (key : Str) (st : State)
    → str_eq key [] ≡ false
    → get_metadata (some (record { key = key })) st
      ≡ found_item key (lookup key (read_store st).entries)
unfolding get_metadata get_begun Pgx.begin_tx
get_metadata-lookup key st keyed =
    rw keyed (ap (found_item key) (get-seen key (read_store st) _ ∙ unfold seen lookup in refl))

-- The records that `ListMetadata` asks the store for: one more than the limit.
pub list_metadata-page :
    (req : ListMetadataRequest) (st : State)
    → list_metadata req st
      ≡ ok (
          page (page_limit req.limit) (
            after_token req.page_token (
              cut
                (pos (page_limit req.limit + 1))
                (sort_by key_less (matching req.prefix (read_store st).entries)))))
unfolding list_metadata list_begun Pgx.begin_tx
list_metadata-page req st =
    ap (λ items. ok (page (page_limit req.limit) (after_token req.page_token items)))
      (list-sort req.prefix (pos (page_limit req.limit + 1)) (read_store st) _)

key_at_ge :
    (n : ℕ) (r : Record) (items : List Record)
    → All (λ q. key_less q r ≡ false) items
    → n < length items
    → str_lt (key_at items n) r.key ≡ false
key_at_ge n r [] h more = absurd (omega arith)
key_at_ge zero r (q ∷ items) h more = h.0
key_at_ge (suc n) r (q ∷ items) h more = key_at_ge n r items h.1 (omega arith)

-- The last of the records that fit on a page and one more has no key below the others.
last_key_max :
    (n : ℕ) (items : List Record)
    → Ascending key_less items
    → length items ≤ suc n
    → n < length items
    → All (λ r. str_lt (key_at items n) r.key ≡ false) items
last_key_max n [] s fits more = absurd (omega arith)
last_key_max zero (r ∷ []) s fits more = (str_lt_irrefl r.key, tt)
last_key_max zero (r ∷ q ∷ items) s fits more = absurd (omega arith)
last_key_max (suc n) (r ∷ items) s fits more =
    (key_at_ge n r items s.0 (omega arith), last_key_max n items s.1 (omega arith) (omega arith))

filter-none :
    (p : Record → Bool) (items : List Record) → All (λ r. p r ≡ false) items → filter p items ≡ []
filter-none p [] h = refl
filter-none p (r ∷ items) h = rw h.0 (filter-none p items h.1)

take-All : (P : Record → Type 0) (n : ℕ) (items : List Record) → All P items → All P (take n items)
take-All P zero items h = tt
take-All P (suc n) [] h = tt
take-All P (suc n) (r ∷ items) h = (h.0, take-All P n items h.1)

take-Ascending :
    (n : ℕ) (items : List Record) → Ascending key_less items → Ascending key_less (take n items)
take-Ascending zero items h = tt
take-Ascending (suc n) [] h = tt
take-Ascending (suc n) (r ∷ items) h =
    (take-All (λ q. key_less q r ≡ false) n items h.0, take-Ascending n items h.1)

cut-Ascending :
    (limit : ℤ) (items : List Record)
    → Ascending key_less items
    → Ascending key_less (cut limit items)
unfolding cut
cut-Ascending limit items h =
    elim (Bool-cases (is_pos limit && ltb (pos_part limit) (length items))) [
      | inl short ↦ rw short (take-Ascending (pos_part limit) items h)
      | inr whole ↦ rw whole h
    ]

length-cut : (n : ℕ) (items : List Record) → length (cut (pos (n + 1)) items) ≤ suc n
unfolding cut
length-cut n items = ground (arith, length-take (n + 1) items)

-- A page of records, and the page for its token out of the same records.
page_twice :
    (n : ℕ) (items : List Record)
    → Ascending key_less items
    → length items ≤ suc n
    → str_eq (page n items).next_page_token [] ≡ false
    → page n (after_token (page n items).next_page_token items)
      ≡ record { items = []; next_page_token = [] }
unfolding page after_token
page_twice n items s fits more = elim (Bool-cases (ltb n (length items))) [
  | inl full ↦
      let none_left =
        filter-none (λ r. str_lt (key_at items n) r.key) items
          (last_key_max n items s fits (ltb→lt n (length items) full)) in
      let token_given : str_eq (key_at items n) [] ≡ false = rw full at more in
      rw (full, token_given, none_left, le→ltb n 0 (omega arith)) refl
  | inr short ↦ absurd (false≢true (sym (rw short at more) ∙ str_eq_refl []))
]

ok_injective : {A : Type 0} {a b : A} → ok a ≡ ok b → a ≡ b
ok_injective {a} {b} h = cc

no_token : (items : List Record) → after_token [] items ≡ items
unfolding after_token
no_token items = rw (str_eq_refl []) refl

-- Where a first page has a token, the token leads nowhere: asked for the next page with the same
-- prefix and limit, the service answers with no item and no token.
pub list_metadata_next_page :
    (prefix : Str) (limit : ℤ) (st : State) (first : ListMetadataResponse)
    → list_metadata (record { prefix = prefix; limit = limit; page_token = [] }) st ≡ ok first
    → str_eq first.next_page_token [] ≡ false
    → list_metadata
        (record { prefix = prefix; limit = limit; page_token = first.next_page_token })
        st
      ≡ ok (record { items = []; next_page_token = [] })
list_metadata_next_page prefix limit st first answered more =
    let n = page_limit limit in
    let items = cut (pos (n + 1)) (sort_by key_less (matching prefix (read_store st).entries)) in
    let is_first : page n items ≡ first =
      ok_injective (
        ap (λ l. ok (page n l)) (sym (no_token items))
        ∙ sym (list_metadata-page _ st)
        ∙ answered) in
    list_metadata-page _ st
    ∙ ap (λ t. ok (page n (after_token t items)))
        (ap (λ (p : ListMetadataResponse). p.next_page_token) (sym is_first))
    ∙ ap ok (
        page_twice n items
          (cut-Ascending (pos (n + 1)) _ (
            sort_by-Ascending key_less key_less-IsWeakOrder
              (matching prefix (read_store st).entries)))
          (length-cut n _) (rw (← is_first) at more))
