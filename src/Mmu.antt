-- ===== src/Mmu.antt =====
-- inc/types.h, inc/mmu.h and inc/memlayout.h: rounding, linear addresses, the layout of the address
-- space, and descriptors.
pub mod Round
pub mod Page
pub mod Layout
pub mod Segment
pub mod Gate
mod Tests
