-- ===== src/Mandate.antt =====
-- cognitod/src/mandate.rs: the mandate manager, from the request to the entry of MANDATE_MAP.
pub mod Types
pub mod Proc
pub mod Manager
pub mod Reconcile
pub mod Queries
pub mod Counts
pub mod Accounting
pub mod History
pub mod Expiry
mod Removal
pub mod Names
pub mod Kernel
pub mod Batch
mod Tests
