-- ===== src/Etcd/Replay.antt =====
-- The events of a transaction (internal/metadata/etcdsim/etcdsim.go) tell what it did: an observer
-- who applies them to the old keys has the new keys.
use tritontube.Base.{
  true, inc64, Int64, Bool, List, [], ◌∷◌, ◌++◌, Map, lookup, insert, delete, if◌then◌else◌, ◌==◌,
  is_some, ◌≡◌, refl, ap, sym, ◌∙◌, Bool-cases, inl, inr,
}
use tritontube.Etcd.{
  KvPair, put_event, delete_event, WatchEvent, Client, Op, Txn, TxnResponse, Result, ok, err,
  eval_compares, run_ops, apply_put, apply_delete, event_of_put, event_of_delete, finish,
  notify_watchers, commit_ops, commit, op_put, op_delete,
}

-- What an observer does with one event.
unfoldable pub observe : WatchEvent → Map KvPair → Map KvPair
observe e kv = elim e.type [
  | put_event ↦ insert e.key (record { value = e.value; mod_revision = e.mod_revision }) kv
  | delete_event ↦ delete e.key kv
]

unfoldable pub observe_all : List WatchEvent → Map KvPair → Map KvPair
unfolding observe
observe_all [] kv = kv
observe_all (e ∷ es) kv = observe_all es (observe e kv)

observe_all-append :
    (es fs : List WatchEvent) (kv : Map KvPair)
    → observe_all (es ++ fs) kv ≡ observe_all fs (observe_all es kv)
unfolding observe_all
observe_all-append [] fs kv = refl
observe_all-append (e ∷ es) fs kv = observe_all-append es fs (observe e kv)

-- The key of a delete was there.
abbrev pub happens : WatchEvent → Map KvPair → Bool
happens e kv = elim e.type [ put_event ↦ true | delete_event ↦ is_some (lookup e.key kv) ]

-- Each event is one revision later than the one before it, and each delete is of a key that is
-- there when the events before it have been applied.
abbrev pub Follows : List WatchEvent → Int64 → Map KvPair → Type 0
Follows [] revision kv = Unit
Follows (e ∷ es) revision kv =
    (e.mod_revision ≡ inc64 revision)
    × (happens e kv ≡ true)
    × Follows es (inc64 revision) (observe e kv)

-- The revision after the events.
abbrev pub revision_after : List WatchEvent → Int64 → Int64
revision_after [] revision = revision
revision_after (e ∷ es) revision = revision_after es (inc64 revision)

-- The events lead from the one revision and keys to the others.
pub record Explains (events : List WatchEvent) (c c' : Client) : Type 0 where
  pub observed : observe_all events c.kv ≡ c'.kv
  pub counted : revision_after events c.revision ≡ c'.revision
  pub follows : Follows events c.revision c.kv

revision_after-append :
    (es fs : List WatchEvent) (revision : Int64)
    → revision_after (es ++ fs) revision ≡ revision_after fs (revision_after es revision)
revision_after-append [] fs revision = refl
revision_after-append (e ∷ es) fs revision = revision_after-append es fs (inc64 revision)

Follows-append :
    (es : List WatchEvent) (e : WatchEvent) (revision : Int64) (kv : Map KvPair)
    → Follows es revision kv
    → e.mod_revision ≡ inc64 (revision_after es revision)
    → happens e (observe_all es kv) ≡ true
    → Follows (es ++ e ∷ []) revision kv
unfolding observe_all
Follows-append [] e revision kv h later there = (later, there, tt)
Follows-append (d ∷ es) e revision kv h later there =
    (h.0, h.1, Follows-append es e (inc64 revision) (observe d kv) h.2 later there)

-- One more event.
Explains-append :
    (es : List WatchEvent) (e : WatchEvent) (c c' c'' : Client)
    → Explains es c c'
    → e.mod_revision ≡ inc64 c'.revision
    → happens e c'.kv ≡ true
    → c''.revision ≡ inc64 c'.revision
    → observe e c'.kv ≡ c''.kv
    → Explains (es ++ e ∷ []) c c''
Explains-append es e c c' c'' h later there next same = record {
  observed =
      observe_all-append es (e ∷ []) c.kv
      ∙ unfold observe_all in (ap (observe e) h.observed ∙ same);
  counted = revision_after-append es (e ∷ []) c.revision ∙ ap inc64 h.counted ∙ sym next;
  follows =
      Follows-append es e c.revision c.kv h.follows (later ∙ ap inc64 (sym h.counted))
        (ap (happens e) h.observed ∙ there);
}

abbrev Explained : Client → Client × Result (List WatchEvent) → Type 0
Explained base (c, ok events) = Explains events base c
Explained base (c, err e) = Unit

-- The events so far explain the keys and the revision so far.
run_ops-Explained :
    (base : Client) (ops : List Op) (before : List WatchEvent) (c : Client)
    → Explains before base c
    → Explained base (run_ops ops before c)
unfolding run_ops
run_ops-Explained base [] before c h = h
run_ops-Explained base (o ∷ ops) before c h = elim (Bool-cases (o.typ == op_put)) [
  | inl is_put ↦ rw is_put (
      run_ops-Explained base ops _ (apply_put o.key o.value c) (
        unfold apply_put observe in
        Explains-append before (event_of_put o.key o.value c) base c (apply_put o.key o.value c) h
          refl refl refl refl))
  | inr not_put ↦ elim (Bool-cases (o.typ == op_delete)) [
    | inl is_delete ↦ elim (Bool-cases (is_some (lookup o.key c.kv))) [
      | inl there ↦
          rw (not_put, is_delete, there)
            (run_ops-Explained base ops _ (apply_delete o.key c) (
              unfold apply_delete observe in
              Explains-append before (event_of_delete o.key c) base c (apply_delete o.key c) h refl
                there refl refl))
      | inr missing ↦ rw (not_put, is_delete, missing) (run_ops-Explained base ops before c h)
    ]
    | inr unknown ↦ rw (not_put, unknown) tt
  ]
]

pub kv-notify_watchers :
    (events : List WatchEvent) (c : Client) → (notify_watchers events c).kv ≡ c.kv
unfolding notify_watchers
kv-notify_watchers [] c = refl
kv-notify_watchers (e ∷ es) c = kv-notify_watchers es _

pub revision-notify_watchers :
    (events : List WatchEvent) (c : Client) → (notify_watchers events c).revision ≡ c.revision
unfolding notify_watchers
revision-notify_watchers [] c = refl
revision-notify_watchers (e ∷ es) c = revision-notify_watchers es _

-- The operations write the revision and the keys, and nothing else.
pub run_ops_frame :
    (ops : List Op) (before : List WatchEvent) (c : Client)
    → (run_ops ops before c).0
      ≡ record c { revision = (run_ops ops before c).0.revision; kv = (run_ops ops before c).0.kv }
unfolding run_ops
run_ops_frame [] before c = refl
run_ops_frame (o ∷ ops) before c = elim (Bool-cases (o.typ == op_put)) [
  | inl is_put ↦ rw is_put (run_ops_frame ops _ (apply_put o.key o.value c))
  | inr not_put ↦ elim (Bool-cases (o.typ == op_delete)) [
    | inl is_delete ↦ elim (Bool-cases (is_some (lookup o.key c.kv))) [
      | inl there ↦ rw (not_put, is_delete, there) (run_ops_frame ops _ (apply_delete o.key c))
      | inr missing ↦ rw (not_put, is_delete, missing) (run_ops_frame ops before c)
    ]
    | inr unknown ↦ rw (not_put, unknown)
  ]
]

-- What a successful commit tells: a list of events that lead from the old keys and revision to the
-- new ones, and of which the watchers are notified at the new revision.
pub record Told (c c' : Client) : Type 0 where
  pub events : List WatchEvent
  pub explained : Explains events c c'
  pub notified : c' ≡ notify_watchers events (record c { revision = c'.revision; kv = c'.kv })

finish-Told :
    (success : Bool) (c : Client) (p : Client × Result (List WatchEvent)) (r : TxnResponse)
    → Explained c p
    → p.0 ≡ record c { revision = p.0.revision; kv = p.0.kv }
    → (finish success p).1 ≡ ok r
    → Told c (finish success p).0
unfolding finish
finish-Told success c (c1, err e) r seen frame h = cc
finish-Told success c (c1, ok events) r seen frame h = record {
  events = events;
  explained = record {
    observed = seen.observed ∙ sym (kv-notify_watchers events c1);
    counted = seen.counted ∙ sym (revision-notify_watchers events c1);
    follows = seen.follows;
  };
  notified = rw (revision-notify_watchers, kv-notify_watchers) (ap (notify_watchers events) frame);
}

commit_ops-Told :
    (t : Txn) (c : Client) (v : Result Bool) (r : TxnResponse)
    → (commit_ops t v c).1 ≡ ok r
    → Told c (commit_ops t v c).0
unfolding commit_ops
commit_ops-Told t c (err e) r h = cc
commit_ops-Told t c (ok success) r h =
    let ops = if success then t.on_success else t.on_failure in
    finish-Told success c (run_ops ops [] c) r
      (run_ops-Explained c ops [] c
        (unfold observe_all in record { observed = refl; counted = refl; follows = tt }))
      (run_ops_frame ops [] c) h

-- A transaction that ends without an error notifies its watchers, at its last revision, of a list
-- of events that explains it: each is one revision later than the one before, each delete is of a
-- key that is there, and together they turn the old keys and revision into the new ones. An event
-- for which a channel has no room is dropped there.
pub commit-Told :
    (t : Txn) (c : Client) (r : TxnResponse) → (commit t c).1 ≡ ok r → Told c (commit t c).0
unfolding commit
commit-Told t c r h = commit_ops-Told t c (eval_compares c.kv t.compares) r h
