-- ===== src/Siphash.antt =====
-- SipHash-2-4, which the program implements twice: in the kernel and in the daemon.
pub mod State
pub mod Kernel
pub mod Userspace
pub mod Agree
pub mod Digest
mod Tests
