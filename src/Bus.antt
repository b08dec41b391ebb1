-- ===== src/Bus.antt =====
-- internal/bus: one request at a time on the serial line.
pub mod Line
pub mod Window
pub mod Poller
mod Examples
