-- ===== src/Common/Fingerprint.antt =====
-- cpp/common/file_fingerprint.cpp: `fingerprintFile`. A file is what its stream delivers: whether it
-- opens, the bytes of each `read`, and whether reading ended at the end of the file.
pub mod Tests
use technical_doc_parser.Prelude.{
  ℕ, ◌+◌, ◌%◌, ◌^◌, ◌<◌, ◌≡◌, ◌&&◌, Bool-cases, inl, inr, refl, sym, ap, ◌∙◌, Bool, true, false,
  not, List, [], ◌∷◌, ◌++◌, arith, ltb, Text, bytes, if◌then◌else◌, length, length-append,
}
use mathlib.Core.Path.{ap₂}
use technical_doc_parser.Common.Status.{Status, ok, error}
use technical_doc_parser.Common.Sha256.{Sha256, fresh, update, finish}
use technical_doc_parser.Common.Sha256.Digest.{sha256, update_all, join, finish-update_all}

pub record FileFingerprint : Type 0 where
  pub size_bytes : ℕ
  pub sha256 : Text

pub record InputFile : Type 0 where
  pub opened : Bool
  pub reads : List (List ℕ)
  pub at_end : Bool

abbrev pub no_fingerprint : FileFingerprint
no_fingerprint = record { size_bytes = 0; sha256 = [] }

-- `while (input)`: a read that delivers nothing is passed over.
unfoldable pub read_loop : List (List ℕ) → Sha256 → ℕ → Sha256 × ℕ
read_loop [] digest size = (digest, size)
read_loop (piece ∷ pieces) digest size =
    let more = read_loop pieces (update piece digest) ((size + length piece) % 2 ^ 64) in
    let skip = read_loop pieces digest size in if ltb 0 (length piece) then more else skip

unfoldable pub fingerprint_file : Text → InputFile → Status × FileFingerprint
unfolding read_loop
fingerprint_file path input =
    if not input.opened
    then (
      error (bytes "source.fingerprint_open_failed")
          (bytes "failed to open source for fingerprinting: " ++ path) [] false,
      no_fingerprint,
    )
    else (let (digest, size) = read_loop input.reads fresh 0 in
        if not input.at_end
        then (
          error (bytes "source.fingerprint_read_failed")
              (bytes "failed while reading source for fingerprinting: " ++ path) [] false,
          no_fingerprint,
        )
        else (ok, record { size_bytes = size; sha256 = finish digest }))

-- The reads that deliver something.
delivered : List (List ℕ) → List (List ℕ)
delivered [] = []
delivered ([] ∷ pieces) = delivered pieces
delivered ((b ∷ piece) ∷ pieces) = (b ∷ piece) ∷ delivered pieces

join-delivered : (pieces : List (List ℕ)) → join (delivered pieces) ≡ join pieces
unfolding join delivered
join-delivered [] = refl
join-delivered ([] ∷ pieces) = join-delivered pieces
join-delivered ((b ∷ piece) ∷ pieces) = ap (◌++◌ (b ∷ piece)) (join-delivered pieces)

read_loop_digest :
    (pieces : List (List ℕ)) (digest : Sha256) (size : ℕ)
    → (read_loop pieces digest size).0 ≡ update_all (delivered pieces) digest
unfolding read_loop update_all delivered
read_loop_digest [] digest size = refl
read_loop_digest ([] ∷ pieces) digest size = read_loop_digest pieces digest size
read_loop_digest ((b ∷ piece) ∷ pieces) digest size = ground (
  arith,
  read_loop_digest pieces (update (b ∷ piece) digest) ((size + length (b ∷ piece)) % 2 ^ 64),
)

read_loop_size :
    (pieces : List (List ℕ)) (digest : Sha256) (size : ℕ)
    → size < 2 ^ 64
    → (read_loop pieces digest size).1 ≡ (size + length (join pieces)) % 2 ^ 64
unfolding read_loop join
read_loop_size [] digest size h = omega arith
read_loop_size ([] ∷ pieces) digest size h = read_loop_size pieces digest size h
read_loop_size ((b ∷ piece) ∷ pieces) digest size h = ground (
  arith,
  read_loop_size pieces (update (b ∷ piece) digest) ((size + length (b ∷ piece)) % 2 ^ 64),
  length-append piece (join pieces),
)

fingerprint_of_reads :
    (pieces : List (List ℕ))
    → (finish (read_loop pieces fresh 0).0 ≡ sha256 (join pieces))
      × ((read_loop pieces fresh 0).1 ≡ length (join pieces) % 2 ^ 64)
fingerprint_of_reads pieces = (
  ap finish (read_loop_digest pieces fresh 0)
      ∙ finish-update_all (delivered pieces)
      ∙ ap sha256 (join-delivered pieces),
  read_loop_size pieces fresh 0 (omega arith) ∙ ap (λ n. n % 2 ^ 64) (omega arith),
)

-- A file that opens and is read to its end has status ok, the SHA-256 digest of its bytes, however
-- the reads cut them, and their number modulo 2 ^ 64. A file that does not open, or whose reading
-- stops before the end, has the empty fingerprint and an error whose code names which happened.
pub fingerprint_file_lem :
    (path : Text) (input : InputFile)
    → let (status, fingerprint) = fingerprint_file path input in
      (status.ok_status ≡ (input.opened && input.at_end))
      × (status.code ≡ (
          if not input.opened
          then bytes "source.fingerprint_open_failed"
          else if not input.at_end
          then bytes "source.fingerprint_read_failed"
          else []))
      × (fingerprint ≡ (
          if input.opened && input.at_end
          then record {
            size_bytes = length (join input.reads) % 2 ^ 64;
            sha256 = sha256 (join input.reads);
          }
          else no_fingerprint))
unfolding fingerprint_file
fingerprint_file_lem path input =
    let (digest, size) = fingerprint_of_reads input.reads in
    elim (Bool-cases input.opened) [
      | inr shut ↦ rw shut (refl, refl, refl)
      | inl open_file ↦ elim (Bool-cases input.at_end) [
        | inr broken ↦ rw (open_file, broken) (refl, refl, refl)
        | inl done ↦
            rw (open_file, done)
              (refl, refl, ap₂ (λ n d. record { size_bytes = n; sha256 = d }) size digest)
      ]
    ]
