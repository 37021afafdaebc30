-- ===== src/Image/Cache/Content.antt =====
-- cpp/image/page_image_cache.cpp: what the stages see of a page.
use technical_doc_parser.Prelude.{
  ℕ, ◌≡◌, ◌⊎◌, ◌&&◌, inl, inr, false, Option, none, some, arith, if◌then◌else◌, Text, Option-cases,
  text_eq, nat_eq, ◌==◌, list_beq_iff,
}
use technical_doc_parser.Prelude.Dict.{lookup, lookup-insert, lookup-emplace, AllValues-lookup}
use technical_doc_parser.Image.Cache.{
  PageBitmap, PageArtifact, Codec, CachedImage, PageImageCache, admit_rendered, convert,
  read_cached, read_file, read, no_bitmap,
}
use technical_doc_parser.Image.Cache.Bounds.{IsCodec, IsEntry, IsValid}

module _ {ℓ} {Mat : Type ℓ} (codec : Codec Mat) where
  open codec use {empty, to_bgr, imread}

  -- The picture of an entry, and the picture of a page: the entry's, or else the file's.
  abbrev pub picture : CachedImage Mat → Mat
  picture e = if empty e.bgr then to_bgr e.rendered else e.bgr

  abbrev pub shown : Text → Option (CachedImage Mat) → Mat
  shown path none = imread path
  shown path (some e) = picture e

  unfoldable pub content : PageImageCache Mat → Text → Mat
  content cache path = shown path (lookup path cache.images)

  read_file-content :
      (cache : PageImageCache Mat) (path other : Text) (elapsed : ℕ)
      → lookup path cache.images ≡ none
      → ((read_file codec cache path elapsed).1 ≡ content cache path)
        × (content (read_file codec cache path elapsed).0 other ≡ content cache other)
  unfolding content read_file
  read_file-content cache path other elapsed miss =
      let added : CachedImage Mat = record { bgr = imread path; rendered = no_bitmap } in
      ground (arith, lookup-emplace path other added cache.images, list_beq_iff path other)

  read_cached-content :
      (cache : PageImageCache Mat) (path other : Text) (e : CachedImage Mat) (elapsed : ℕ)
      → lookup path cache.images ≡ some e
      → (empty e.bgr ≡ false) ⊎ (empty (to_bgr e.rendered) ≡ false)
      → ((read_cached codec cache path e elapsed).1 ≡ content cache path)
        × (content (read_cached codec cache path e elapsed).0 other ≡ content cache other)
  unfolding content read_cached convert
  read_cached-content cache path other e elapsed hit ready =
      let converted : CachedImage Mat = record { bgr = to_bgr e.rendered; rendered = no_bitmap } in
      ground (
        arith,
        lookup-insert path other e cache.images,
        lookup-insert path other converted cache.images,
        list_beq_iff path other,
      )

  -- In a valid cache a read returns the picture of its page, whether it was rendered, converted or
  -- never admitted, and it changes the picture of no page.
  pub read-content :
      (laws : IsCodec codec) (cache : PageImageCache Mat) (path other : Text) (elapsed : ℕ)
      → IsValid codec cache
      → ((read codec cache path elapsed).1 ≡ content cache path)
        × (content (read codec cache path elapsed).0 other ≡ content cache other)
  unfolding read
  read-content laws cache path other elapsed v = elim (Option-cases (lookup path cache.images)) [
    | inl miss ↦ rw (miss, read) (read_file-content cache path other elapsed miss)
    | inr (e, hit) ↦
        let known = AllValues-lookup (IsEntry codec) path e cache.images v.entries hit in
        let ready : (empty e.bgr ≡ false) ⊎ (empty (to_bgr e.rendered) ≡ false) = elim known [
          | inl full ↦ inl full
          | inr b ↦ inr (laws.to_bgr_full e.rendered b)
        ] in
        rw (hit, read) (read_cached-content cache path other e elapsed hit ready)
  ]

  -- An accepted bitmap is what its page shows from then on; a refused one changes no page. Accepted or
  -- not, every other page shows what it did.
  pub content-admit_rendered :
      (laws : IsCodec codec) (cache : PageImageCache Mat) (page : PageArtifact)
      (bitmap : PageBitmap) (other : Text)
      → content (admit_rendered codec cache page bitmap).0 other ≡ (
          if (admit_rendered codec cache page bitmap).1 && page.output_path == other
          then to_bgr bitmap
          else content cache other)
  unfolding content admit_rendered
  content-admit_rendered laws cache page bitmap other =
      let added : CachedImage Mat = record { bgr = codec.no_mat; rendered = bitmap } in
      ground (
        arith,
        laws.no_mat_empty,
        lookup-emplace page.output_path other added cache.images,
        list_beq_iff page.output_path other,
      )
