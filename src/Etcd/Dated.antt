-- ===== src/Etcd/Dated.antt =====
-- Revisions of internal/metadata/etcdsim/etcdsim.go: each change has a new one, which its key carries.
use tritontube.Base.{
  ℕ, suc, ◌+◌, ◌≤◌, ◌<◌, Str, str_eq_iff, pos, pos_part, inc64, inc64_lem, max_int64, Bool, true,
  false, List, [], ◌∷◌, some, lookup, lookup-insert, lookup-delete, length, ◌==◌, is_some, arith,
  ◌≡◌, ap, ◌∙◌, Bool-cases, inl, inr,
}
use tritontube.Etcd.{
  KvPair, WatchEvent, Client, Op, Txn, Result, ok, err, eval_compares, run_ops, apply_put,
  apply_delete, finish, notify_watchers, commit_ops, commit, op_put, op_delete,
}
use tritontube.Etcd.Replay.{kv-notify_watchers, revision-notify_watchers}

-- Every key carries the revision of a past change, and no two keys carry the same.
pub record IsDated (c : Client) : Type 0 where
  pub counts : c.revision ≡ pos (pos_part c.revision)
  pub past :
      (k : Str) (e : KvPair)
      → lookup k c.kv ≡ some e
      → (e.mod_revision ≡ pos (pos_part e.mod_revision))
        × (1 ≤ pos_part e.mod_revision)
        × (pos_part e.mod_revision ≤ pos_part c.revision)
  pub unique :
      (j k : Str) (d e : KvPair)
      → lookup j c.kv ≡ some d
      → lookup k c.kv ≡ some e
      → d.mod_revision ≡ e.mod_revision
      → j ≡ k

pub next_revision :
    (c : Client)
    → IsDated c
    → pos_part c.revision < max_int64
    → inc64 c.revision ≡ pos (pos_part c.revision + 1)
next_revision c d h = ap inc64 d.counts ∙ inc64_lem (pos_part c.revision) h

abbrev pub written : Str → Client → KvPair
written value c = record { value = value; mod_revision = inc64 c.revision }

apply_put-IsDated :
    (key value : Str) (c : Client)
    → IsDated c
    → pos_part c.revision < max_int64
    → IsDated (apply_put key value c)
unfolding apply_put
apply_put-IsDated key value c d h = record {
  counts = rw (next_revision c d h);
  past = λ k e found.
      ground (arith, lookup-insert key k (written value c) c.kv, next_revision c d h, d.past k e);
  unique = λ j k a b fa fb same. ground (
    arith,
    lookup-insert key j (written value c) c.kv,
    lookup-insert key k (written value c) c.kv,
    next_revision c d h,
    d.past j a,
    d.past k b,
    d.unique j k a b,
    str_eq_iff key j,
    str_eq_iff key k,
  );
}

apply_delete-IsDated :
    (key : Str) (c : Client)
    → IsDated c
    → pos_part c.revision < max_int64
    → IsDated (apply_delete key c)
unfolding apply_delete
apply_delete-IsDated key c d h = record {
  counts = rw (next_revision c d h);
  past = λ k e found. ground (arith, lookup-delete key k c.kv, next_revision c d h, d.past k e);
  unique = λ j k a b fa fb same.
      ground (arith, lookup-delete key j c.kv, lookup-delete key k c.kv, d.unique j k a b);
}

-- Well formed, and no older than before.
abbrev Newer : Client → Client → Type 0
Newer c c' = IsDated c' × (pos_part c.revision ≤ pos_part c'.revision)

Newer-put :
    (key value : Str) (c c' : Client)
    → IsDated c
    → pos_part c.revision < max_int64
    → Newer (apply_put key value c) c'
    → Newer c c'
unfolding apply_put
Newer-put key value c c' d h n = (n.0, omega (arith, n.1, ap pos_part (next_revision c d h)))

Newer-delete :
    (key : Str) (c c' : Client)
    → IsDated c
    → pos_part c.revision < max_int64
    → Newer (apply_delete key c) c'
    → Newer c c'
unfolding apply_delete
Newer-delete key c c' d h n = (n.0, omega (arith, n.1, ap pos_part (next_revision c d h)))

put_room :
    (key value : Str) (c : Client) (n : ℕ)
    → IsDated c
    → pos_part c.revision + suc n ≤ max_int64
    → pos_part (apply_put key value c).revision + n ≤ max_int64
unfolding apply_put
put_room key value c n d h = omega (arith, ap pos_part (next_revision c d (omega arith)))

delete_room :
    (key : Str) (c : Client) (n : ℕ)
    → IsDated c
    → pos_part c.revision + suc n ≤ max_int64
    → pos_part (apply_delete key c).revision + n ≤ max_int64
unfolding apply_delete
delete_room key c n d h = omega (arith, ap pos_part (next_revision c d (omega arith)))

run_ops-Newer :
    (ops : List Op) (before : List WatchEvent) (c : Client)
    → IsDated c
    → pos_part c.revision + length ops ≤ max_int64
    → Newer c (run_ops ops before c).0
unfolding run_ops
run_ops-Newer [] before c d h = (d, omega arith)
run_ops-Newer (o ∷ ops) before c d h = elim (Bool-cases (o.typ == op_put)) [
  | inl is_put ↦ rw is_put (
      Newer-put o.key o.value c _ d (omega arith) (
        run_ops-Newer ops _ (apply_put o.key o.value c)
          (apply_put-IsDated o.key o.value c d (omega arith))
          (put_room o.key o.value c (length ops) d h)))
  | inr not_put ↦ elim (Bool-cases (o.typ == op_delete)) [
    | inl is_delete ↦ elim (Bool-cases (is_some (lookup o.key c.kv))) [
      | inl there ↦
          rw (not_put, is_delete, there)
            (Newer-delete o.key c _ d (omega arith) (
              run_ops-Newer ops _ (apply_delete o.key c)
                (apply_delete-IsDated o.key c d (omega arith))
                (delete_room o.key c (length ops) d h)))
      | inr missing ↦ rw (not_put, is_delete, missing) (run_ops-Newer ops before c d (omega arith))
    ]
    | inr unknown ↦ rw (not_put, unknown) (d, omega arith)
  ]
]

IsDated-notify_watchers :
    (events : List WatchEvent) (c : Client) → IsDated c → IsDated (notify_watchers events c)
IsDated-notify_watchers events c d =
    let kv = kv-notify_watchers events c in
    let revision = revision-notify_watchers events c in
    record {
      counts = rw revision d.counts;
      past = λ k e found. rw revision (d.past k e (rw kv at found));
      unique = λ j k a b fa fb same. d.unique j k a b (rw kv at fa) (rw kv at fb) same;
    }

finish-Newer :
    (success : Bool) (c : Client) (p : Client × Result (List WatchEvent))
    → Newer c p.0
    → Newer c (finish success p).0
unfolding finish
finish-Newer success c (c1, err e) n = n
finish-Newer success c (c1, ok events) n =
    (IsDated-notify_watchers events c1 n.0, rw (revision-notify_watchers events c1) n.1)

-- A transaction, whatever its outcome, keeps the keys dated: each has a revision of the past, and
-- no two the same. It never takes the revision back. The revision must not be within the number of
-- operations of the largest int64.
pub commit-IsDated :
    (t : Txn) (c : Client)
    → IsDated c
    → pos_part c.revision + length t.on_success ≤ max_int64
    → pos_part c.revision + length t.on_failure ≤ max_int64
    → IsDated (commit t c).0 × (pos_part c.revision ≤ pos_part (commit t c).0.revision)
unfolding commit
commit-IsDated t c d hs hf = by_verdict (eval_compares c.kv t.compares)
  where
    by_verdict : (v : Result Bool) → Newer c (commit_ops t v c).0
    by_verdict (err e) = unfold commit_ops in (d, omega arith)
    by_verdict (ok true) =
        unfold commit_ops in
        finish-Newer true c (run_ops t.on_success [] c) (run_ops-Newer t.on_success [] c d hs)
    by_verdict (ok false) =
        unfold commit_ops in
        finish-Newer false c (run_ops t.on_failure [] c) (run_ops-Newer t.on_failure [] c d hf)
