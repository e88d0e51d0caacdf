-- ===== src/Core.antt =====
-- src/core: the library that the broker and the desktop's dialogs share.
pub mod Secret
pub mod Pin
pub mod Session
