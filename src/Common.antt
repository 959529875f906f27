-- ===== src/Common.antt =====
-- Common/ of the repository, what the device and the server share.
pub mod RefCounter
