-- ===== src/Image.antt =====
-- cpp/image: the decoded pages that the stages of one parse share.
pub mod Cache
