-- ===== src/Image/Cache/Tests.antt =====
-- Runs of cpp/image/page_image_cache.cpp over a codec whose matrices are their byte counts.
use technical_doc_parser.Prelude.{
  ℕ, ◌*◌, ◌≡◌, refl, Bool, true, false, Option, none, some, List, [], ◌∷◌, arith, bytes, replicate,
}
use technical_doc_parser.Prelude.Int.{pos, pos_part}
use technical_doc_parser.Prelude.Dict.{lookup, emplace, insert}
use technical_doc_parser.Image.Cache.{
  PageBitmap, PageArtifact, Codec, new_cache, admit_rendered, read, wrong_size, malformed,
}
use technical_doc_parser.Image.Cache.Bounds.{
  IsCodec, IsValid, Call, admits, reads, run, run-IsValid,
}
use technical_doc_parser.Image.Cache.Content.{content, read-content, content-admit_rendered}

-- A matrix is `none` where it is empty, and otherwise its size in bytes; every file holds 12 bytes.
abbrev sized : Option ℕ → ℕ
sized none = 0
sized (some n) = n

abbrev blank : Option ℕ → Bool
blank none = true
blank (some n) = false

abbrev plain : Codec (Option ℕ)
plain = record {
  no_mat = none;
  empty = blank;
  byte_size = sized;
  imread = λ path. some 12;
  to_bgr = λ b. some (pos_part b.width * pos_part b.height * 3);
}

plain-IsCodec : IsCodec plain
plain-IsCodec = record {
  no_mat_empty = refl;
  to_bgr_full = λ b ok. refl;
  to_bgr_size = λ b ok. refl;
}

abbrev page : PageArtifact
page = record {
  page_index = pos 0;
  page_number = pos 1;
  width = pos 1;
  height = pos 2;
  output_path = bytes "p1.png";
}

abbrev bitmap : PageBitmap
bitmap = record {
  page_index = pos 0;
  page_number = pos 1;
  width = pos 1;
  height = pos 2;
  channels = pos 4;
  pixels = replicate 8 255;
  capacity = 10;
}

abbrev calls : List Call
calls = admits page bitmap (omega arith) ∷ reads (bytes "p1.png") 5 ∷ reads (bytes "p2.png") 7 ∷ []

-- Ten bytes are admitted, six remain after the conversion, and the file's twelve exceed the limit.
converted_bytes : (run plain (new_cache 15) calls).stats.resident_bytes ≡ 6
unfolding run admit_rendered malformed wrong_size read lookup emplace insert
converted_bytes = refl

empty_cache-IsValid : IsValid plain (new_cache 15)
unfolding run
empty_cache-IsValid = run-IsValid plain plain-IsCodec 15 [] (omega arith)

run-IsValid_example : IsValid plain (run plain (new_cache 15) calls)
run-IsValid_example = run-IsValid plain plain-IsCodec 15 calls (omega arith)

read-content_example :
    (read plain (new_cache 15) (bytes "p2.png") 3).1 ≡ content plain (new_cache 15) (bytes "p2.png")
read-content_example =
    (read-content plain plain-IsCodec (new_cache 15) (bytes "p2.png") (bytes "p1.png") 3
      empty_cache-IsValid).0

content-admit_rendered_example :
    content plain (admit_rendered plain (new_cache 15) page bitmap).0 (bytes "p1.png") ≡ some 6
unfolding admit_rendered malformed wrong_size lookup
content-admit_rendered_example =
    content-admit_rendered plain plain-IsCodec (new_cache 15) page bitmap (bytes "p1.png")
