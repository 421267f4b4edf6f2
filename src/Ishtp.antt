-- ===== src/Ishtp.antt =====
-- The ISHTP transport, src/intel-ish-hid-linux-6.5.
pub mod Types
pub mod Ipc
pub mod Dma
pub mod Hbm
pub mod Send
pub mod Rings
pub mod Recv
pub mod Link
pub mod Answers
pub mod Startup
pub mod Inbox
pub mod Connect
pub mod Credit
pub mod Transfer
pub mod Dispatch
pub mod Interrupt
pub mod Reset
