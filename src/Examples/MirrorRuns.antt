-- ===== src/Examples/MirrorRuns.antt =====
-- Etcd as a mirror of the records (internal/metadata/service.go), on runs of one key.
use tritontube.Base.{
  Str, lit, [], ◌≡◌, refl, pos, negsuc, inc64, int_eq, is_nonneg, none, some, lookup, insert,
  str_eq, true, false,
}
use tritontube.Etcd.{new_client}
use tritontube.Metadata.Types.{
  clone, MetadataItem, PutMetadataRequest, DeleteMetadataRequest, err, revision_conflict,
}
use tritontube.Metadata.Service.{State, Service, nobody, etcd_key}
use tritontube.Metadata.Put.{check_put, put_metadata}
use tritontube.Metadata.Delete.{delete_metadata}
use tritontube.Metadata.Guard.{guard_holds}
use tritontube.Metadata.InSync.{
  InSync, put, delete, Reach, start, later, Reach-InSync, recorded, mirrored,
}
use tritontube.Metadata.Overtaken.{overtaken_put, overtaken_put_lem}

abbrev empty : State
empty = record { store = record { entries = [] }; replica = none; etcd = new_client }

abbrev service : Service
service = record { max_retries = pos 5; key_prefix = lit "m/" }

abbrev item : Str → MetadataItem
item value = record { key = lit "a"; value = value; attributes = []; version = pos 0 }

-- No version and no revision is quoted.
abbrev request : Str → PutMetadataRequest
request value = record {
  item = some (item value);
  expected_version = pos 0;
  expected_etcd_revision = negsuc 0;
}

abbrev removal : DeleteMetadataRequest
removal = record { key = lit "a"; expected_version = pos 0; expected_etcd_revision = negsuc 0 }

-- A stand-in for the JSON encoding.
abbrev encode : MetadataItem → Str
encode i = i.value

abbrev first : State
first = (put_metadata encode nobody service (some (request (lit "x"))) empty).0

abbrev second : State
second = (put_metadata encode nobody service (some (request (lit "y"))) first).0

abbrev third : State
third = (delete_metadata nobody service (some removal) second).0

three_steps : Reach encode service empty third
unfolding guard_holds
three_steps =
    later
      (later (later start (put (request (lit "x")) (item (lit "x")) refl refl))
        (put (request (lit "y")) (item (lit "y")) refl refl))
      (delete removal refl)

Reach-InSync_example : InSync encode service third
unfolding lookup etcd_key
Reach-InSync_example = Reach-InSync encode service refl three_steps (λ k. refl)

-- The second put writes "y" between the halves of the first, which then writes "x".
overtaken_put_example :
    let out =
      overtaken_put encode service (request (lit "x")) (item (lit "x")) (request (lit "y")) empty in
    (is_nonneg (negsuc 0) ≡ false
      → (recorded encode out.0.store (lit "a") ≡ some (lit "y"))
        × (mirrored service out.0.etcd (lit "a") ≡ some (lit "x")))
    × (is_nonneg (negsuc 0) ≡ true
        → int_eq (inc64 (pos 0)) (negsuc 0) ≡ false
        → InSync encode service empty
        → (out.1 ≡ err (revision_conflict (lit "a"))) × InSync encode service out.0)
unfolding check_put lookup guard_holds insert str_eq clone
overtaken_put_example =
    overtaken_put_lem encode service refl (request (lit "x")) (item (lit "x")) (request (lit "y"))
      (item (lit "y")) refl refl refl empty refl refl refl
