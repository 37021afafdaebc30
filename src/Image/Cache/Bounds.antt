-- ===== src/Image/Cache/Bounds.antt =====
-- cpp/image/page_image_cache.cpp: the byte budget. The invariant speaks of the bytes that the entries
-- hold, and every call keeps it.
use native.Mathlib.Nat.{le_trans, mul-le-mul_right, div-mul-le_self}
use technical_doc_parser.Prelude.{
  ℕ, ◌+◌, ◌-◌, ◌*◌, ◌/◌, ◌^◌, ◌≤◌, ◌<◌, ◌≡◌, refl, ◌⊎◌, inl, inr, true, false, none, some, List, [],
  ◌∷◌, arith, if◌then◌else◌, Text, length, Bool-cases, Option-cases, text_eq, nat_eq,
}
use technical_doc_parser.Prelude.Dict.{
  lookup, insert, emplace, AllValues, AllValues-lookup, AllValues-insert, AllValues-emplace,
}
use technical_doc_parser.Prelude.Int.{pos_part}
use technical_doc_parser.Image.Cache.{
  PageBitmap, PageArtifact, Codec, CachedImage, PageImageCache, wrong_size, new_cache, clear,
  admit_rendered, read_cached, read_file, read, no_bitmap,
}

-- A bitmap that `admit_rendered` lets in: four bytes for each pixel, within its capacity.
pub record IsBitmap (b : PageBitmap) : Type 0 where
  pub pixels_size : length b.pixels ≡ pos_part b.width * pos_part b.height * 4
  pub pixels_fit : length b.pixels ≤ b.capacity

-- What is assumed of OpenCV: a default matrix is empty, and the conversion of a bitmap gives a matrix
-- that is not empty and has three bytes for each pixel.
pub record IsCodec {ℓ} {Mat : Type ℓ} (codec : Codec Mat) : Type 0 where
  pub no_mat_empty : codec.empty codec.no_mat ≡ true
  pub to_bgr_full : (b : PageBitmap) → IsBitmap b → codec.empty (codec.to_bgr b) ≡ false
  pub to_bgr_size :
      (b : PageBitmap)
      → IsBitmap b
      → codec.byte_size (codec.to_bgr b) ≡ pos_part b.width * pos_part b.height * 3

-- What the pipeline does with a cache.
pub data Call : Type 0 where
  admits :
      (page : PageArtifact) (bitmap : PageBitmap) → length bitmap.pixels ≤ bitmap.capacity → Call
  reads : (path : Text) (elapsed : ℕ) → Call
  clears : Call

module _ {ℓ} {Mat : Type ℓ} (codec : Codec Mat) where
  open codec use {empty, byte_size, to_bgr, no_mat}

  -- The bytes that an entry retains.
  pub entry_bytes : CachedImage Mat → ℕ
  entry_bytes e = if empty e.bgr then e.rendered.capacity else byte_size e.bgr

  pub total : List (Text × CachedImage Mat) → ℕ
  total [] = 0
  total ((k, e) ∷ images) = entry_bytes e + total images

  abbrev pub IsEntry : CachedImage Mat → Type 0
  IsEntry e = (empty e.bgr ≡ false) ⊎ IsBitmap e.rendered

  pub record IsValid (cache : PageImageCache Mat) : Type ℓ where
    pub counted : cache.stats.resident_bytes ≡ total cache.images
    pub within : cache.stats.resident_bytes ≤ cache.maximum_bytes
    pub peaked : cache.stats.resident_bytes ≤ cache.stats.peak_resident_bytes
    pub peak_within : cache.stats.peak_resident_bytes ≤ cache.maximum_bytes
    pub representable : cache.maximum_bytes < 2 ^ 64
    pub entries : AllValues IsEntry cache.images

  total-emplace :
      (k : Text) (e : CachedImage Mat) (m : List (Text × CachedImage Mat))
      → lookup k m ≡ none
      → total (emplace k e m) ≡ total m + entry_bytes e
  unfolding total lookup emplace
  total-emplace k e [] h = omega arith
  total-emplace k e ((j, c) ∷ m) h = ground (arith, total-emplace k e m)

  total-insert :
      (k : Text) (e c : CachedImage Mat) (m : List (Text × CachedImage Mat))
      → lookup k m ≡ some c
      → total (insert k e m) + entry_bytes c ≡ total m + entry_bytes e
  unfolding total lookup insert
  total-insert k e c [] h = cc
  total-insert k e c ((j, d) ∷ m) h = ground (arith, total-insert k e c m)

  -- Four bytes for each pixel do not overflow once `wrong_size` has passed.
  pixel_bound : (w h : ℕ) → w ≤ (2 ^ 64 - 1) / 4 / h → w * h * 4 < 2 ^ 64
  pixel_bound w h le =
      omega (arith, le_trans (mul-le-mul_right h le) (div-mul-le_self ((2 ^ 64 - 1) / 4) h))

  right_size : (b : PageBitmap) → wrong_size b ≡ false → length b.pixels ≤ b.capacity → IsBitmap b
  unfolding wrong_size
  right_size b ok fit =
      let bound = pixel_bound (pos_part b.width) (pos_part b.height) in ground (arith, bound)

  entry_bytes-rendered :
      (laws : IsCodec codec) (b : PageBitmap)
      → entry_bytes (record { bgr = no_mat; rendered = b }) ≡ b.capacity
  unfolding entry_bytes
  entry_bytes-rendered laws b = rw (laws.no_mat_empty)

  admit_rendered-IsValid :
      (laws : IsCodec codec) (cache : PageImageCache Mat) (page : PageArtifact)
      (bitmap : PageBitmap)
      → length bitmap.pixels ≤ bitmap.capacity
      → IsValid cache
      → IsValid (admit_rendered codec cache page bitmap).0
  unfolding admit_rendered
  admit_rendered-IsValid laws cache page bitmap fit v =
      let added : CachedImage Mat = record { bgr = no_mat; rendered = bitmap } in
      ground (
        arith,
        right_size bitmap,
        entry_bytes-rendered laws bitmap,
        total-emplace page.output_path added cache.images,
        AllValues-emplace IsEntry page.output_path added cache.images v.entries,
      )

  entry_bytes-le-total :
      (k : Text) (c : CachedImage Mat) (m : List (Text × CachedImage Mat))
      → lookup k m ≡ some c
      → entry_bytes c ≤ total m
  unfolding total lookup
  entry_bytes-le-total k c [] h = cc
  entry_bytes-le-total k c ((j, d) ∷ m) h = ground (arith, entry_bytes-le-total k c m)

  converted_entry : CachedImage Mat → CachedImage Mat
  converted_entry cached = record { bgr = to_bgr cached.rendered; rendered = no_bitmap }

  read_cached-IsValid :
      (laws : IsCodec codec) (cache : PageImageCache Mat) (key : Text) (cached : CachedImage Mat)
      (elapsed : ℕ)
      → IsValid cache
      → lookup key cache.images ≡ some cached
      → IsValid (read_cached codec cache key cached elapsed).0
  unfolding read_cached converted_entry entry_bytes
  read_cached-IsValid laws cache key cached elapsed v hit =
      let known = AllValues-lookup IsEntry key cached cache.images v.entries hit in
      let new = converted_entry cached in
      elim (Bool-cases (empty cached.bgr)) [
        | inl fresh ↦
            let bitmap : IsBitmap cached.rendered = elim known [ inl e ↦ cc | inr b ↦ b ] in
            let full = laws.to_bgr_full cached.rendered bitmap in
            let room = entry_bytes-le-total key cached cache.images hit in
            let replaced = total-insert key new cached cache.images hit in
            let kept = AllValues-insert IsEntry key new cache.images v.entries (inl full) in
            rw fresh
              (ground (arith, full, laws.to_bgr_size cached.rendered bitmap, room, replaced, kept))
        | inr ready ↦
            let replaced = total-insert key cached cached cache.images hit in
            let kept = AllValues-insert IsEntry key cached cache.images v.entries known in
            rw ready (ground (arith, replaced, kept))
      ]

  read_file-IsValid :
      (cache : PageImageCache Mat) (key : Text) (elapsed : ℕ)
      → IsValid cache
      → lookup key cache.images ≡ none
      → IsValid (read_file codec cache key elapsed).0
  unfolding read_file entry_bytes
  read_file-IsValid cache key elapsed v miss =
      let added : CachedImage Mat = record { bgr = codec.imread key; rendered = no_bitmap } in
      ground (
        arith,
        total-emplace key added cache.images miss,
        AllValues-emplace IsEntry key added cache.images v.entries,
      )

  unfoldable pub step : PageImageCache Mat → Call → PageImageCache Mat
  step cache (admits page bitmap fit) = (admit_rendered codec cache page bitmap).0
  step cache (reads path elapsed) = (read codec cache path elapsed).0
  step cache clears = clear cache

  unfoldable pub run : PageImageCache Mat → List Call → PageImageCache Mat
  unfolding step
  run cache [] = cache
  run cache (c ∷ calls) = run (step cache c) calls

  read-IsValid :
      (laws : IsCodec codec) (cache : PageImageCache Mat) (key : Text) (elapsed : ℕ)
      → IsValid cache
      → IsValid (read codec cache key elapsed).0
  unfolding read
  read-IsValid laws cache key elapsed v = elim (Option-cases (lookup key cache.images)) [
    | inl miss ↦ rw (miss, read) (read_file-IsValid cache key elapsed v miss)
    | inr (cached, hit) ↦ rw (hit, read) (read_cached-IsValid laws cache key cached elapsed v hit)
  ]

  step-IsValid :
      (laws : IsCodec codec) (cache : PageImageCache Mat) (c : Call)
      → IsValid cache
      → IsValid (step cache c)
  unfolding step clear total
  step-IsValid laws cache (admits page bitmap fit) v =
      admit_rendered-IsValid laws cache page bitmap fit v
  step-IsValid laws cache (reads path elapsed) v = read-IsValid laws cache path elapsed v
  step-IsValid laws cache clears v = record {
    counted = refl;
    within = omega arith;
    peaked = omega arith;
    peak_within = v.peak_within;
    representable = v.representable;
    entries = tt;
  }

  run_from-IsValid :
      (laws : IsCodec codec) (calls : List Call) (cache : PageImageCache Mat)
      → IsValid cache
      → IsValid (run cache calls)
  unfolding run
  run_from-IsValid laws [] cache v = v
  run_from-IsValid laws (c ∷ calls) cache v =
      run_from-IsValid laws calls (step cache c) (step-IsValid laws cache c v)

  -- From a new cache with a limit that fits a `size_t`, after any sequence of admissions, reads and
  -- clears, `resident_bytes` is the number of bytes that the entries retain, and neither it nor the
  -- recorded peak, which is at least as large, exceeds the limit.
  pub run-IsValid :
      (laws : IsCodec codec) (maximum_bytes : ℕ) (calls : List Call)
      → maximum_bytes < 2 ^ 64
      → IsValid (run (new_cache maximum_bytes) calls)
  unfolding total
  run-IsValid laws maximum_bytes calls small =
      run_from-IsValid laws calls (new_cache maximum_bytes) (record {
        counted = refl;
        within = omega arith;
        peaked = omega arith;
        peak_within = omega arith;
        representable = small;
        entries = tt;
      })
