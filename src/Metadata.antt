-- ===== src/Metadata.antt =====
-- internal/metadata: the metadata service over the record store and etcd. `Types` has its messages,
-- `Service` the state and the retry loop, `Put`, `Delete` and `Reads` its methods.
pub mod Types
pub mod Service
pub mod Put
pub mod Delete
pub mod Reads
pub mod Alone
pub mod Effects
pub mod Deletion
pub mod Answers
pub mod Guard
pub mod Retry
pub mod Attempts
pub mod InSync
pub mod Overtaken
