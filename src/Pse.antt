-- ===== src/Pse.antt =====
-- The character driver of the PSE, src/pse.c.
pub mod Types
pub mod File
pub mod Ioctl
pub mod Events
pub mod Probe
pub mod Reading
pub mod Lock
pub mod Faults
pub mod Calls
