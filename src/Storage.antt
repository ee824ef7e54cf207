-- ===== src/Storage.antt =====
-- internal/storage: the storage service, its replication helpers, its segment records in etcd and
-- its files.
pub mod Types
pub mod Files
pub mod Writes
pub mod Replication
pub mod Upload
pub mod Nodes
pub mod Local
pub mod Stream
pub mod Server
pub mod RoundTrip
pub mod Segments
pub mod Outcomes
pub mod Records
pub mod Acknowledged
pub mod Recorded
pub mod Backends
pub mod Rebalancer
