-- ===== src/Modbus.antt =====
-- internal/modbus: the wire protocol towards the unit and towards the network clients.
pub mod Crc
pub mod Pdu
pub mod Rtu
pub mod Tcp
pub mod Client
mod Examples
