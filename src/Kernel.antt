-- ===== src/Kernel.antt =====
-- The Thin Kernel: which action a Change needs next (src/kernel.rs).
pub mod Types
pub mod Freshness
pub mod Candidates
pub mod Evidence
pub mod Instances
pub mod Selection
pub mod Actions
pub mod Collect
pub mod Steps
pub mod Evaluate
pub mod Returns
pub mod Passed
pub mod Settled
pub mod Prepared
pub mod Ready
pub mod Merging
pub mod Batch
pub mod Progress
pub mod Issued
pub mod Requests
pub mod Support
pub mod Reviews
pub mod Merged
pub mod Selected
pub mod Held
pub mod Activated
pub mod Sound
pub mod Collected
pub mod Valid
pub mod Clauses
pub mod Required
pub mod Reviewed
pub mod Keys
pub mod ReviewOnly
pub mod Dropped
pub mod Reached
