-- ===== src/Windlass/Smart.antt =====
-- The smart proxy of windlass-bridge: the virtual microcontroller that answers Klipper's `identify`
-- and the tasks around it.
pub mod Pipe
pub mod Proxy
pub mod Identify
pub mod Connection
pub mod Exporter
pub mod Link
mod Tests
