-- ===== src/MetadataServer/Start.antt =====
-- How cmd/metadata/main.go starts its server: the nodes of the environment on a ring, over an empty
-- record store and an empty etcd.
use tritontube.Base.{
  ℕ, Str, lit, str_eq, pos, List, [], ◌∷◌, none, some, if◌then◌else◌, split_on, ◌≡◌, refl,
}
use tritontube.Base.Sort.{SliceSort}
use tritontube.Chash.{Ring, hash_less, new_ring, add_node}
use tritontube.Pgx.{new_store}
use tritontube.Etcd.{new_client}
use tritontube.Metadata.Types.{Result, ok, err}
use tritontube.Metadata.Service.{State, Service, ServiceConfig, new_service}
use tritontube.MetadataServer.{Server}

-- `STORAGE_NODES`, with its default
unfoldable pub nodes_text : Str → Str
nodes_text raw = if str_eq raw [] then lit "http://localhost:8081,http://localhost:8083" else raw

module _ (trim_space : Str → Str) where
  -- The loop over the parts, which skips the empty ones
  unfoldable pub nonempty_parts : List Str → List Str
  nonempty_parts [] = []
  nonempty_parts (s ∷ parts) =
      let rest = nonempty_parts parts in
      if str_eq (trim_space s) [] then rest else trim_space s ∷ rest

  unfoldable pub load_nodes_from_env : Str → List Str
  unfolding nonempty_parts nodes_text split_on
  load_nodes_from_env raw = nonempty_parts (split_on 44 (nodes_text raw))

  module _ (sha1 : Str → List ℕ) (by_hash : SliceSort hash_less) where
    -- The loop that adds the nodes
    unfoldable pub add_nodes : List Str → Ring → Ring
    unfolding add_node
    add_nodes [] ring = ring
    add_nodes (node ∷ nodes) ring = add_nodes nodes (add_node sha1 by_hash node ring)

    -- `metadata.ServiceConfig`: both pools are one, and the retries are left to their default.
    abbrev pub config : ServiceConfig
    config = record {
      write_pool = some new_store;
      read_pool = none;
      etcd = some new_client;
      key_prefix = lit "segments/";
      max_retries = pos 0;
    }

    -- The end of `newServer`; an error ends the program.
    unfoldable pub started : Ring → Result (Service × State) → Result (Server × State)
    started ring (err e) = err e
    started ring (ok (svc, st)) = ok (record { ring = ring; svc = svc }, st)

    -- `newServer`, with what `STORAGE_NODES` holds
    unfoldable pub new_server : Str → Result (Server × State)
    unfolding started load_nodes_from_env add_nodes new_ring new_service
    new_server raw =
        started (add_nodes (load_nodes_from_env raw) (new_ring (pos 128))) (new_service config)

    -- The server starts, on a ring of the nodes that are named, with no records, with five retries
    -- and with one pool.
    pub new_server_lem :
        (raw : Str)
        → new_server raw
          ≡ ok (
            record {
              ring = add_nodes (load_nodes_from_env raw) (new_ring (pos 128));
              svc = record { max_retries = pos 5; key_prefix = lit "segments/" };
            },
            record { store = new_store; replica = none; etcd = new_client },
          )
    unfolding new_server started new_service str_eq
    new_server_lem raw = refl
