-- ===== src/Common/Fingerprint/Tests.antt =====
-- The theorems of cpp/common/file_fingerprint.cpp at concrete inputs.
use technical_doc_parser.Prelude.{◌≡◌, [], ◌∷◌, bytes, true}
use technical_doc_parser.Common.Sha256.{finish, fresh}
use technical_doc_parser.Common.Sha256.Digest.{update_all, join, sha256, finish-update_all}
use technical_doc_parser.Common.Fingerprint.{InputFile, fingerprint_file, fingerprint_file_lem}

finish-update_all_example :
    finish (update_all (bytes "a" ∷ [] ∷ bytes "bc" ∷ []) fresh) ≡ sha256 (bytes "abc")
unfolding join
finish-update_all_example = finish-update_all (bytes "a" ∷ [] ∷ bytes "bc" ∷ [])

abbrev two_reads : InputFile
two_reads = record { opened = true; reads = bytes "ab" ∷ bytes "c" ∷ []; at_end = true }

fingerprint_file_example :
    (fingerprint_file (bytes "a.pdf") two_reads).1
    ≡ record { size_bytes = 3; sha256 = sha256 (bytes "abc") }
unfolding join
fingerprint_file_example = (fingerprint_file_lem (bytes "a.pdf") two_reads).2
