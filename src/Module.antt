-- ===== src/Module.antt =====
-- src/module: the client-side PKCS#11 module. Its DER reader and its mechanism tables.
pub mod Der
pub mod Mechanism
pub mod Rv
pub mod Grant
pub mod Objects
pub mod Cryptoki
