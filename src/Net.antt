-- ===== src/Net.antt =====
-- internal/privhelper and internal/netconf: requests to the helper with privileges, and what is read
-- of NetworkManager's answers. The answers of commands and of the helper are arguments; white space
-- is that of ASCII.
pub mod Helper
pub mod Terse
pub mod Routes
pub mod Networks
mod Examples
