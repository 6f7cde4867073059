-- ===== src/Scheduler.antt =====
-- The scheduler plugin of sig-scheduler-plugins/pkg/fluence: what it takes from other code, the pod
-- group manager of core/core.go and core/flux.go, and the extension points of fluence.go.
pub mod World
pub mod Allocations
pub mod PodSpec
pub mod Groups
pub mod Flux
pub mod Manager
pub mod Plugin
pub mod Program
pub mod Toy
pub mod Examples
mod PluginExamples
mod LifecycleExamples
mod ThreadExamples
mod DeskExamples
