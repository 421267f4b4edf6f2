-- ===== src/Tests.antt =====
-- The theorems at concrete inputs, and runs of the code.
pub mod Data
pub mod Send
pub mod Recv
pub mod Dma
pub mod Rings
pub mod Pse
pub mod Link
pub mod Examples
pub mod Startup
pub mod Inbox
pub mod Connect
pub mod Credit
pub mod Transfer
pub mod Interrupt
pub mod Reset
pub mod Loader
