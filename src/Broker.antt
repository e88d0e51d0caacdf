-- ===== src/Broker.antt =====
-- src/broker: the operations on a granted key. Its mechanisms, and the device that they run on.
pub mod Mechanism
pub mod Device
