-- ===== src/Sidecar.antt =====
-- src/fluence: the sidecar that answers the scheduler plugin by calls of Fluxion.
pub mod Jgf
pub mod JobSpec
pub mod Alloc
pub mod Fluxion
pub mod Cancelled
pub mod Cluster
pub mod Program
mod Examples
