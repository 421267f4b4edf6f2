-- ===== src/Examples.antt =====
-- The example programs, examples/: the commands that a user program sends to the firmware through
-- /dev/pse.
pub mod Heci
pub mod Program
pub mod Client
pub mod Can
pub mod Pins
pub mod Automotive
