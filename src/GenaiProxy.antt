-- ===== src/GenaiProxy.antt =====
-- components/genai_proxy: who may call a model, what each call used, and what a day may cost.
pub mod Auth
pub mod Usage
pub mod Snapshot
pub mod Billing
mod Tests
