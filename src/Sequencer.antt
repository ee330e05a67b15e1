-- ===== src/Sequencer.antt =====
-- The sequenced ring. Producers: `submit_to_sequencer` in
-- linnix-ai-ebpf/linnix-ai-ebpf-ebpf/src/program.rs, without the fault-injection feature.
-- Consumer: cognitod/src/runtime/sequencer.rs.
pub mod Producer
pub mod Consumer
pub mod Order
pub mod Fifo
pub mod Delivery
pub mod Draining
pub mod Interleaving
pub mod Phases
pub mod Calls
pub mod Begin
pub mod Sighting
pub mod Reading
pub mod Whole
mod Tests
