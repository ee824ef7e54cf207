-- ===== src/Storage/Replication.antt =====
-- internal/storage/replication.go: the replica set and the errors of the replicas.
use tritontube.Base.{
  inr, inl, str_eq_sym, Bool-cases, Str, lit, itoa, str_eq, true, List, [], ◌∷◌, ◌++◌, Option, none,
  some, Map, lookup, length, ltb, if◌then◌else◌, arith, ◌≡◌, refl, ◌↔◌,
}
use tritontube.Chash.Preference.{mem}
use tritontube.Storage.Types.{StorageError, empty_replica_set, missing_primary}

-- The loop of `ValidateReplicationTargets`
unfoldable pub find_primary : List Str → Str → Option StorageError
find_primary [] primary = some (missing_primary primary)
find_primary (t ∷ ts) primary =
    let rest = find_primary ts primary in if str_eq t primary then none else rest

-- `none` is a nil error.
unfoldable pub validate_replication_targets : List Str → Str → Option StorageError
unfolding find_primary
validate_replication_targets [] primary = some empty_replica_set
validate_replication_targets (t ∷ ts) primary = find_primary (t ∷ ts) primary

-- `ErrReplicationFailed.Errors`: the replicas that failed
unfoldable pub failed_replicas : Map (Option Str) → Map Str
failed_replicas [] = []
failed_replicas ((id, none) ∷ results) = failed_replicas results
failed_replicas ((id, some e) ∷ results) = (id, e) ∷ failed_replicas results

-- `ErrReplicationFailed.Error`
unfoldable pub replication_failed : Map Str → Str
replication_failed errors =
    if ltb 0 (length errors)
    then lit "replication failed for " ++ (itoa (length errors) ++ lit " replicas")
    else lit "replication failed"

-- `MergeReplicationErrors`: the map of an `ErrReplicationFailed`, or nil
unfoldable pub merge_replication_errors : Map (Option Str) → Option (Map Str)
unfolding failed_replicas
merge_replication_errors results =
    let failed = failed_replicas results in if ltb 0 (length failed) then some failed else none

-- `results[id]`, nil if it is missing
abbrev pub or_nil : Option (Option Str) → Option Str
or_nil none = none
or_nil (some e) = e

abbrev pub error_of : Str → Map (Option Str) → Option Str
error_of id results = or_nil (lookup id results)

find_primary_lem : (l : List Str) (p : Str) → (find_primary l p ≡ none) ↔ (mem p l ≡ true)
unfolding find_primary
find_primary_lem [] p = (λ h. cc, λ h. cc)
find_primary_lem (x ∷ xs) p = rw (str_eq_sym x p) (elim (Bool-cases (str_eq p x)) [
  | inl e ↦ rw e (λ h. refl, λ h. refl)
  | inr e ↦ rw e (find_primary_lem xs p)
])

-- A replica set is valid if and only if the primary is in it; the empty one is not valid.
pub validate_replication_targets_lem :
    (targets : List Str) (primary : Str)
    → (validate_replication_targets targets primary ≡ none) ↔ (mem primary targets ≡ true)
unfolding validate_replication_targets
validate_replication_targets_lem [] primary = (λ h. cc, λ h. cc)
validate_replication_targets_lem (t ∷ ts) primary = find_primary_lem (t ∷ ts) primary

pub no_failure : (l : Map Str) → (if ltb 0 (length l) then some l else none) ≡ none → l ≡ []
no_failure [] h = refl
no_failure (x ∷ xs) h = ground arith

nothing_failed : (r : Map (Option Str)) → failed_replicas r ≡ [] → (id : Str) → error_of id r ≡ none
unfolding failed_replicas lookup
nothing_failed [] h id = refl
nothing_failed ((k, none) ∷ r) h id = elim (Bool-cases (str_eq k id)) [
  | inl e ↦ rw e refl
  | inr e ↦ rw e (nothing_failed r h id)
]
nothing_failed ((k, some e) ∷ r) h id = cc

-- The replicas' errors merge to nil only if no replica has an error.
pub merge_replication_errors_lem :
    (results : Map (Option Str))
    → merge_replication_errors results ≡ none
    → (id : Str) → error_of id results ≡ none
unfolding merge_replication_errors
merge_replication_errors_lem results h =
    nothing_failed results (no_failure (failed_replicas results) h)
