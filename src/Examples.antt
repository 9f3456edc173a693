-- ===== src/Examples.antt =====
-- Tests of the definitions, and the theorems at concrete inputs.
pub mod Inputs
mod StateExamples
mod PrimingExamples
mod AgentExamples
mod LedgerExamples
mod PollingExamples
mod ConfigExamples
mod OperationExamples
mod IpcExamples
mod SambaExamples
mod MountExamples
