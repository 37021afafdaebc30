-- ===== src/Image/Cache.antt =====
-- cpp/image/page_image_cache.h and .cpp, with `PageBitmap` and `PageArtifact` of
-- cpp/document/page_artifact.h. A `std::size_t` is a number below 2 ^ 64 and its arithmetic wraps. The
-- lock makes each call one step. What OpenCV does is the parameter `Codec`, and the microseconds that
-- a decoding or a conversion takes are an argument of the call.
pub mod Bounds
pub mod Content
pub mod Tests
use Prim.Native.Nat.{max}
use technical_doc_parser.Prelude.{
  ℕ, ◌+◌, ◌-◌, ◌*◌, ◌/◌, ◌%◌, ◌^◌, ◌≤◌, ◌≡◌, Bool, true, false, not, ◌||◌, Option, none, some, List,
  [], ◌∷◌, arith, ltb, leb, nat_beq, if◌then◌else◌, Text, text_eq, nat_eq, length, ◌==◌,
}
use technical_doc_parser.Prelude.Dict.{lookup, insert, emplace}
use technical_doc_parser.Prelude.Int.{ℤ, pos, negsuc, int_eq, pos_part, ltb_ℤ}

-- `PageImageCacheStats`
pub record Stats : Type 0 where
  pub hits : ℕ
  pub decodes : ℕ
  pub failures : ℕ
  pub uncached_decodes : ℕ
  pub rendered_admissions : ℕ
  pub rendered_rejections : ℕ
  pub conversions : ℕ
  pub resident_bytes : ℕ
  pub peak_resident_bytes : ℕ
  pub decode_microseconds : ℕ
  pub conversion_microseconds : ℕ

-- The pixels of a bitmap: the bytes of the vector, and the capacity that it holds.
pub record PageBitmap : Type 0 where
  pub page_index : ℤ
  pub page_number : ℤ
  pub width : ℤ
  pub height : ℤ
  pub channels : ℤ
  pub pixels : List ℕ
  pub capacity : ℕ

-- `PageBitmap{}`
abbrev pub no_bitmap : PageBitmap
no_bitmap = record {
  page_index = pos 0;
  page_number = pos 0;
  width = pos 0;
  height = pos 0;
  channels = pos 4;
  pixels = [];
  capacity = 0;
}

-- The fields of `PageArtifact` that the cache reads.
pub record PageArtifact : Type 0 where
  pub page_index : ℤ
  pub page_number : ℤ
  pub width : ℤ
  pub height : ℤ
  pub output_path : Text

-- OpenCV: matrices with their size in bytes, `cv::imread` of a file, and `cv::cvtColor` of a bitmap.
pub record Codec {ℓ} (Mat : Type ℓ) : Type ℓ where
  pub no_mat : Mat
  pub empty : Mat → Bool
  pub byte_size : Mat → ℕ
  pub imread : Text → Mat
  pub to_bgr : PageBitmap → Mat

pub record CachedImage {ℓ} (Mat : Type ℓ) : Type ℓ where
  pub bgr : Mat
  pub rendered : PageBitmap

pub record PageImageCache {ℓ} (Mat : Type ℓ) : Type ℓ where
  pub maximum_bytes : ℕ
  pub images : List (Text × CachedImage Mat)
  pub stats : Stats

abbrev pub wrap : ℕ → ℕ
wrap n = n % 2 ^ 64

abbrev pub no_stats : Stats
no_stats = record {
  hits = 0;
  decodes = 0;
  failures = 0;
  uncached_decodes = 0;
  rendered_admissions = 0;
  rendered_rejections = 0;
  conversions = 0;
  resident_bytes = 0;
  peak_resident_bytes = 0;
  decode_microseconds = 0;
  conversion_microseconds = 0;
}

-- What `admitRendered` refuses before it looks at the budget.
unfoldable pub malformed : PageArtifact → PageBitmap → Bool
malformed page bitmap =
    ltb_ℤ bitmap.width (pos 1)
    || ltb_ℤ bitmap.height (pos 1)
    || not (bitmap.channels == pos 4)
    || not (bitmap.width == page.width)
    || not (bitmap.height == page.height)
    || not (bitmap.page_index == page.page_index)
    || not (bitmap.page_number == page.page_number)

unfoldable pub wrong_size : PageBitmap → Bool
wrong_size bitmap =
    let width = pos_part bitmap.width in
    let height = pos_part bitmap.height in
    ltb ((2 ^ 64 - 1) / 4 / height) width
    || not (nat_beq (length bitmap.pixels) (wrap (width * height * 4)))

module _ {ℓ} {Mat : Type ℓ} where
  abbrev pub new_cache : ℕ → PageImageCache Mat
  new_cache maximum_bytes = record { maximum_bytes = maximum_bytes; images = []; stats = no_stats }

  -- The lambda `reject`.
  abbrev pub reject : PageImageCache Mat → PageImageCache Mat × Bool
  reject cache = (
    record cache {
      stats = record (cache.stats) {
        rendered_rejections = wrap (cache.stats.rendered_rejections + 1);
      };
    },
    false,
  )

  -- `maximum_bytes_ - stats_.resident_bytes`
  abbrev pub budget : PageImageCache Mat → ℕ
  budget cache = wrap (cache.maximum_bytes + 2 ^ 64 - cache.stats.resident_bytes)

  pub clear : PageImageCache Mat → PageImageCache Mat
  clear cache = record cache { images = []; stats = record (cache.stats) { resident_bytes = 0 } }

module _ {ℓ} {Mat : Type ℓ} (codec : Codec Mat) where
  open codec use {no_mat, empty, byte_size, imread, to_bgr}

  unfoldable pub admit_rendered :
      PageImageCache Mat → PageArtifact → PageBitmap → PageImageCache Mat × Bool
  admit_rendered cache page bitmap =
      let bytes = bitmap.capacity in
      let resident = wrap (cache.stats.resident_bytes + bytes) in
      if malformed page bitmap
      then reject cache
      else if wrong_size bitmap
      then reject cache
      else if ltb (budget cache) bytes
      then reject cache
      else elim (lookup page.output_path cache.images) [
        | some entry ↦ reject cache
        | none ↦ (
          record cache {
            images =
                emplace page.output_path (record { bgr = no_mat; rendered = bitmap }) cache.images;
            stats = record (cache.stats) {
              rendered_admissions = wrap (cache.stats.rendered_admissions + 1);
              resident_bytes = resident;
              peak_resident_bytes = max cache.stats.peak_resident_bytes resident;
            };
          },
          true,
        )
      ]

  -- The branch of `read` on a bitmap that is not converted yet: the entry and the statistics behind it.
  unfoldable pub convert : CachedImage Mat → ℕ → Stats → CachedImage Mat × Stats
  convert cached elapsed stats =
      let bgr = to_bgr cached.rendered in
      (
        record { bgr = bgr; rendered = no_bitmap },
        record stats {
          conversions = wrap (stats.conversions + 1);
          resident_bytes =
              wrap
                (wrap (stats.resident_bytes + 2 ^ 64 - cached.rendered.capacity) + byte_size bgr);
          conversion_microseconds = wrap (stats.conversion_microseconds + elapsed);
        },
      )

  unfoldable pub read_cached :
      PageImageCache Mat → Text → CachedImage Mat → ℕ → PageImageCache Mat × Mat
  unfolding convert
  read_cached cache key cached elapsed =
      let (entry, stats) =
        if empty cached.bgr then convert cached elapsed cache.stats else (cached, cache.stats) in
      (
        record cache {
          images = insert key entry cache.images;
          stats = record stats { hits = wrap (stats.hits + 1) };
        },
        entry.bgr,
      )

  unfoldable pub read_file : PageImageCache Mat → Text → ℕ → PageImageCache Mat × Mat
  read_file cache key elapsed =
      let image = imread key in
      let bytes = byte_size image in
      let timed : Stats = record (cache.stats) {
        decode_microseconds = wrap (cache.stats.decode_microseconds + elapsed);
      } in
      let resident = wrap (cache.stats.resident_bytes + bytes) in
      if empty image
      then (
        record cache { stats = record timed { failures = wrap (cache.stats.failures + 1) } },
        image,
      )
      else if leb bytes (budget cache)
      then (
        record cache {
          images = emplace key (record { bgr = image; rendered = no_bitmap }) cache.images;
          stats = record timed {
            decodes = wrap (cache.stats.decodes + 1);
            resident_bytes = resident;
            peak_resident_bytes = max cache.stats.peak_resident_bytes resident;
          };
        },
        image,
      )
      else (
        record cache {
          stats = record timed {
            decodes = wrap (cache.stats.decodes + 1);
            uncached_decodes = wrap (cache.stats.uncached_decodes + 1);
          };
        },
        image,
      )

  unfoldable pub read : PageImageCache Mat → Text → ℕ → PageImageCache Mat × Mat
  unfolding read_cached read_file
  read cache key elapsed = elim (lookup key cache.images) [
    | some cached ↦ read_cached cache key cached elapsed
    | none ↦ read_file cache key elapsed
  ]
