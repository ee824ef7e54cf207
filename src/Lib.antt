-- ===== src/Lib.antt =====
-- Verification library of tritontube: the HTTP servers (cmd), the storage cluster
-- (internal/storage), the metadata service (internal/metadata) and the simulators of etcd and
-- Postgres on which they run.
--
-- The parts of the program and the files that model them:
-- * internal/chash/ring.go, the consistent hash ring: Chash.antt. `lookup_key` is `Lookup`,
--   `add_node` and `remove_node` are `AddNode` and `RemoveNode`; Chash/Search.antt is `sort.Search`.
-- * internal/metadata/etcdsim/etcdsim.go, the key-value store with transactions and watches:
--   Etcd.antt. The `Client` is a state, and each method under the mutex is a function on it.
-- * internal/metadata/pgxsim/pgxsim.go, the serializable record store: Pgx.antt. A transaction `Tx`
--   holds its writes, deletes and read set; `commit` checks the read set against the store.
-- * internal/metadata/service.go and the messages of internal/metadata/metadata.pb.go: the files of
--   Metadata/. `put_metadata`, `get_metadata`, `delete_metadata` and `list_metadata` are its methods.
--   They write the record store first, in the loop `retry`, and then etcd. Metadata/InSync.antt sets
--   the two side by side, and Metadata/Overtaken.antt lets one put run between the halves of another.
-- * internal/storage/manager.go, the ring that is kept in etcd: Cluster.antt, and
--   Cluster/Watch.antt for its `Watch`. Cluster/Built.antt has the steps of a manager's life.
-- * internal/metadata/grpcstub/grpc.go and the client and handlers of metadata.pb.go: Rpc.antt and
--   Rpc/Metadata.antt, with the client as a value and the unimplemented server in Rpc/Client.antt.
--   `invoke` is `Invoke`; a service is a record of functions on its state.
-- * internal/storage/service.go and the messages of internal/storage/proto/storage.pb.go:
--   Storage/Upload.antt for `UploadSegment`, Segments.antt for `GetSegment`, Nodes.antt for
--   `Heartbeat` and `Rebalance`, Backends.antt for `NewService`, Stream.antt for the local stream
--   and `InvokeUploadSegment`, which Local.antt has over a list of requests, and Server.antt for
--   the four methods as one server.
-- * internal/storage/fs.go, replication.go, s3.go, metadata.go and rebalance.go: Files.antt,
--   Replication.antt, Backends.antt, Records.antt and Rebalancer.antt of Storage/. An upload writes
--   the file, replicates it and puts its record into etcd.
-- * cmd/metadata/main.go, which keeps the replicas of each segment in the metadata service:
--   MetadataServer.antt, MetadataServer/Start.antt for `newServer` and Routes.antt for `main`.
-- * cmd/storage-admin/main.go, which prints the plans of a ring: AdminCommand.antt.
-- * cmd/storage/main.go, which serves the files: StorageServer.antt and StorageServer/Routes.antt.
-- * cmd/web/main.go, which asks the metadata server for the replicas and calls the storage servers:
--   WebServer.antt and WebServer/Routes.antt. WebServer/Network.antt puts the storage servers on
--   its network, and WebServer/System.antt the metadata server too. Http.antt holds the requests and
--   answers of the three servers.
-- Base.antt and the files of Base/ hold what these share: tests on numbers, machine integers, texts
-- as lists of bytes, maps as association lists, and sorting. The other files below a part's file
-- hold its proofs. The files of Examples/ run the model and apply the theorems at small inputs.
--
-- Strings are lists of bytes, and a map is an association list. Where Go walks a map in any
-- order, the model walks the list. `int64` wraps at 2^63 where the code increments it. A call that
-- holds a mutex is one step. Between the read and the commit of a metadata write other clients may
-- do anything to the record store (`Others`); this is where the service retries.
--
-- Parameters, for code outside the repository: SHA-1 and SHA-256, JSON, the clock, the errors of
-- the calls of `os`, of the replication transport and of the S3 uploader, the calls that cmd/web
-- makes over HTTP, `http.ServeMux`, `filepath.Join`, `fmt.Sscanf`, `strings.TrimSpace`, and the
-- result of `sort.Slice`, which is an ascending rearrangement (`SliceSort`), in an order of equal
-- elements that nothing fixes.
--
-- Bounds: the loop of the ring lookup has one round for each token, the loop of `AddNode` one for
-- each virtual node, and the retry loop one for each attempt, so no round is missing. `sort.Search`
-- has as many rounds as elements, and each halves what is left. The local stream of
-- `InvokeUploadSegment` need not end, so its loop has fuel: one unit for each call of `Recv`.
--
-- Not modelled: the listeners and the log lines of the servers, flags and signals, `Close` and the
-- configuration of the etcd client, which do nothing, `Pool`, which only holds its store, panics on
-- nil, contexts that are cancelled in the middle of a call, and the redirects of `http.ServeMux` from
-- a path that is not clean.
pub mod AdminCommand
pub mod Base
pub mod Chash
pub mod Cluster
pub mod Etcd
pub mod Pgx
pub mod Rpc
pub mod Storage
pub mod StorageServer
pub mod WebServer
pub mod Http
pub mod Metadata
pub mod MetadataServer
pub mod Examples
