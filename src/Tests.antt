-- ===== src/Tests.antt =====
-- Runs at concrete inputs, and the environment that they use.
pub mod Sample
mod Examples
mod MasterExamples
mod ConfigExamples
mod StreamExamples
mod StartExamples
mod DescriptorExamples
mod StoreExamples
