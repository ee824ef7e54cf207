-- ===== src/Metadata/Alone.antt =====
-- The record half of `PutMetadata` (internal/metadata/service.go) with no other client at work.
use tritontube.Base.{
  ℕ, Str, Int64, int_eq_iff, is_pos, true, false, Option, none, some, lookup, insert, arith, ◌≡◌,
  refl, ap, sym, ◌∙◌,
}
use tritontube.Pgx.Commits.{version_of}
use tritontube.Pgx.{Store, Record, read_valid}
use tritontube.Metadata.Types.{MetadataItem, ServiceError, Result, ok, err}
use tritontube.Metadata.Service.{Service, nobody, is_serialization, retry}
use tritontube.Metadata.Put.{check_put, new_record, put_attempt}
use tritontube.Metadata.Attempts.{upsert, checked_upsert, put_attempt-upsert}
use tritontube.Metadata.Retry.{retry_first}

pub read_valid_refl : (o : Option Record) → read_valid o (version_of o) ≡ true
unfolding read_valid
read_valid_refl none = ground arith
read_valid_refl (some r) = (int_eq_iff r.version r.version).1 refl

-- The record half of `PutMetadata`: the store and the record, or the error of the check.
unfoldable pub stored : MetadataItem → Store → Result (Unit {0}) → Store × Result Record
stored item s (ok u) =
    let r = new_record item (lookup item.key s.entries) in
    (record { entries = insert item.key r s.entries }, ok r)
stored item s (err e) = (s, err e)

put_attempt-alone :
    (expected : Int64) (item : MetadataItem) (n : ℕ) (s : Store)
    → put_attempt nobody expected item n s
      ≡ stored item s (check_put expected item.key (lookup item.key s.entries))
put_attempt-alone expected item n s =
    put_attempt-upsert nobody expected item n s
    ∙ by_check (check_put expected item.key (lookup item.key s.entries))
  where
    by_check :
        (c : Result (Unit {0}))
        → checked_upsert (λ t. t) item (lookup item.key s.entries) s c ≡ stored item s c
    by_check (ok u) =
        unfold checked_upsert stored upsert in rw (read_valid_refl (lookup item.key s.entries)) refl
    by_check (err e) = unfold checked_upsert stored in refl

check_put-final :
    (expected : Int64) (key : Str) (o : Option Record) (e : ServiceError)
    → check_put expected key o ≡ err e
    → is_serialization e ≡ false
unfolding check_put
check_put-final expected key o e h = ground arith

module _ (svc : Service) (positive : is_pos svc.max_retries ≡ true) where
  -- With nobody else there the first attempt is the last.
  pub put-stored :
      (expected : Int64) (item : MetadataItem) (s : Store)
      → retry svc (put_attempt nobody expected item) s
        ≡ stored item s (check_put expected item.key (lookup item.key s.entries))
  put-stored expected item s =
      retry_first (put_attempt nobody expected item) svc s positive (λ e failed.
        final e (check_put expected item.key (lookup item.key s.entries)) refl
          (ap (λ p. p.1) (sym (put_attempt-alone expected item 0 s)) ∙ failed))
      ∙ put_attempt-alone expected item 0 s
    where
      final :
          (e : ServiceError) (c : Result (Unit {0}))
          → check_put expected item.key (lookup item.key s.entries) ≡ c
          → (stored item s c).1 ≡ err e
          → is_serialization e ≡ false
      final e (ok u) ec failed = unfold stored in cc
      final e (err x) ec failed =
          let same : x ≡ e = unfold stored in cc in
          check_put-final expected item.key (lookup item.key s.entries) e (ec ∙ ap err same)
