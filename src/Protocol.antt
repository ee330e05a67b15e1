-- ===== src/Protocol.antt =====
-- linnix-ai-ebpf/linnix-ai-ebpf-common/src/lib.rs: what the kernel and the daemon share.
mod Events
mod Mandates
pub mod SlotFlags
pub use Events.*
pub use Mandates.*
