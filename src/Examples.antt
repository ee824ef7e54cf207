-- ===== src/Examples.antt =====
-- Runs of the model on small inputs, and the theorems at inputs that meet their hypotheses.
mod RingRuns
mod EtcdRuns
mod PgxRuns
mod MetadataRuns
mod MirrorRuns
mod ClusterRuns
mod MemberRuns
mod StorageRuns
mod ServerRuns
mod StreamRuns
mod NodeRuns
mod WebRuns
mod MuxRuns
mod OverwriteRuns
mod SystemRuns
