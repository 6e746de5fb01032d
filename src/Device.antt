-- ===== src/Device.antt =====
-- Devices: src/device.
pub mod Pipe
