-- ===== src/Common.antt =====
-- cpp/common: statuses, text encodings and file fingerprints.
pub mod Status
pub mod Utf8
pub mod Sha256
pub mod Fingerprint
