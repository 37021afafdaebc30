-- ===== src/Common/Sha256/Tests.antt =====
-- Runs of cpp/common/file_fingerprint.cpp.
use technical_doc_parser.Prelude.{◌≡◌, refl, bytes}
use technical_doc_parser.Common.Sha256.Transform.{transform}
use technical_doc_parser.Common.Sha256.{update, finish, fresh}

-- The digest of the three bytes "abc" is the one that FIPS 180-4 prints.
abc_digest :
    finish (update (bytes "abc") fresh)
    ≡ bytes "ba7816bf8f01cfea414140de5dae2223b00361a396177a9cb410ff61f20015ad"
unfolding finish update transform
abc_digest = refl
