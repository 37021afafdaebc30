-- ===== src/Document/Rotation/Roundtrip.antt =====
-- cpp/document/page_rotation.cpp: the way to the turned page and back.
use technical_doc_parser.Prelude.{
  ◌≡◌, ◌≤◌, ◌∙◌, ap, sym, refl, ◌⊎◌, inl, inr, some, List, [], ◌∷◌, map, arith, All,
}
use technical_doc_parser.Prelude.Int.{ℤ, pos, negsuc, pos_part, neg_part, ◌-ℤ◌, -ℤ_involutive}
use technical_doc_parser.Prelude.Double.{Double}
use technical_doc_parser.Document.Text.{BBox, TextSpan, TextLine, PageText}
use technical_doc_parser.Document.Rotation.{
  PageRotation, new_rotation, working_width, working_height, rotate, to_working, to_source,
  map_span, map_line, text_to_working, text_to_source,
}

new_rotation_degrees :
    (width height degrees : ℤ) (r : PageRotation)
    → new_rotation width height degrees ≡ some r
    → (r.degrees ≡ 0) ⊎ (r.degrees ≡ 90) ⊎ (r.degrees ≡ 180) ⊎ (r.degrees ≡ 270)
unfolding new_rotation
new_rotation_degrees width height (pos d) r h = ground arith
new_rotation_degrees width height (negsuc d) r h = cc

module _ {ℓ} {D : Type ℓ} ⦃d : Double D⦄ where
  open d use {sub, of_int}

  -- Two subtractions from a page's side give a coordinate back: no rounding occurs.
  abbrev IsExact : ℤ → ℤ → BBox D → Type ℓ
  IsExact width height b =
      (sub (of_int width) (sub (of_int width) b.x0) ≡ b.x0)
      × (sub (of_int width) (sub (of_int width) b.x1) ≡ b.x1)
      × (sub (of_int height) (sub (of_int height) b.y0) ≡ b.y0)
      × (sub (of_int height) (sub (of_int height) b.y1) ≡ b.y1)

  -- For every rotation that the constructor admits.
  to_source-to_working :
      (width height degrees : ℤ) (r : PageRotation) (b : BBox D)
      → new_rotation width height degrees ≡ some r
      → IsExact r.width r.height b
      → to_source r (to_working r b) ≡ b
  unfolding to_source to_working rotate working_width working_height
  to_source-to_working width height degrees r b made (a0, a1, a2, a3) =
      elim (new_rotation_degrees width height degrees r made) [
        | inl h ↦ rw h refl
        | inr (inl h) ↦ rw (h, a2, a3) refl
        | inr (inr (inl h)) ↦ rw (h, a0, a1, a2, a3) refl
        | inr (inr (inr h)) ↦ rw (h, a0, a1) refl
      ]

  abbrev IsExactLine : ℤ → ℤ → TextLine D → Type ℓ
  IsExactLine width height l =
      IsExact width height l.bbox × All (λ s. IsExact width height s.bbox) l.spans

  module _ (width height degrees : ℤ) (r : PageRotation)
      (made : new_rotation width height degrees ≡ some r) where
    abbrev back : BBox D → BBox D
    back b = to_source r (to_working r b)

    back_lem : (b : BBox D) → IsExact r.width r.height b → back b ≡ b
    back_lem b exact = to_source-to_working width height degrees r b made exact

    spans_back :
        (spans : List (TextSpan D))
        → All (λ s. IsExact r.width r.height s.bbox) spans
        → map (map_span (to_source r)) (map (map_span (to_working r)) spans) ≡ spans
    unfolding map_span
    spans_back [] exact = refl
    spans_back (s ∷ ss) (here, rest) = rw (back_lem s.bbox here, spans_back ss rest) refl

    lines_back :
        (lines : List (TextLine D))
        → All (IsExactLine r.width r.height) lines
        → map (map_line (to_source r)) (map (map_line (to_working r)) lines) ≡ lines
    unfolding map_line
    lines_back [] exact = refl
    lines_back (l ∷ ls) ((box, spans), rest) =
        rw (back_lem l.bbox box, spans_back l.spans spans, lines_back ls rest) refl

    exact_back :
        (text : PageText D)
        → All (IsExactLine r.width r.height) text.lines
        → text_to_source r (text_to_working r text) ≡ text
    unfolding text_to_source text_to_working
    exact_back text exact = rw (lines_back text.lines exact) refl

-- The magnitude of an integer is at most 2 ^ 51.
abbrev pub IsSmall : ℤ → Type 0
IsSmall n = (pos_part n ≤ 2251799813685248) × (neg_part n ≤ 2251799813685248)

-- What IEEE 754 says of doubles: of integers of this size and their differences none is rounded.
pub record IsIeee {ℓ} {D : Type ℓ} (d : Double D) : Type ℓ where
  pub sub-of_int :
      (a b : ℤ) → IsSmall a → IsSmall b → d.sub (d.of_int a) (d.of_int b) ≡ d.of_int (a -ℤ b)

-- An integer of 32 bits.
abbrev pub IsInt : ℤ → Type 0
IsInt n = (pos_part n ≤ 2147483647) × (neg_part n ≤ 2147483648)

IsInt-IsSmall : (n : ℤ) → IsInt n → IsSmall n
IsInt-IsSmall n (high, low) = (omega (arith, high), omega (arith, low))

difference-IsSmall : (a b : ℤ) → IsInt a → IsInt b → IsSmall (a -ℤ b)
unfolding ◌-ℤ◌
difference-IsSmall a b (ha, la) (hb, lb) =
    (ground (arith, ha, la, hb, lb), ground (arith, ha, la, hb, lb))

module _ {ℓ} {D : Type ℓ} ⦃d : Double D⦄ where
  open d use {sub, of_int}

  -- A whole number of pixels.
  abbrev pub IsPixel : D → Type ℓ
  IsPixel x = (n : ℤ) × IsInt n × (x ≡ of_int n)

  abbrev pub IsPixelBox : BBox D → Type ℓ
  IsPixelBox b = IsPixel b.x0 × IsPixel b.y0 × IsPixel b.x1 × IsPixel b.y1

  abbrev pub IsPixelLine : TextLine D → Type ℓ
  IsPixelLine l = IsPixelBox l.bbox × All (λ s. IsPixelBox s.bbox) l.spans

  module _ (ieee : IsIeee d) (width height : ℤ) (wide : IsInt width) (high : IsInt height) where
    pixel_back :
        (side : ℤ) (x : D) → IsInt side → IsPixel x → sub (of_int side) (sub (of_int side) x) ≡ x
    pixel_back side x fits (n, small, same) =
        ap (λ y. sub (of_int side) (sub (of_int side) y)) same
        ∙ ap (sub (of_int side))
            (ieee.sub-of_int side n (IsInt-IsSmall side fits) (IsInt-IsSmall n small))
        ∙ ieee.sub-of_int side (side -ℤ n) (IsInt-IsSmall side fits)
            (difference-IsSmall side n fits small)
        ∙ ap of_int (-ℤ_involutive side n)
        ∙ sym same

    box-IsExact : (b : BBox D) → IsPixelBox b → IsExact width height b
    box-IsExact b (x0, y0, x1, y1) = (
      pixel_back width b.x0 wide x0,
      pixel_back width b.x1 wide x1,
      pixel_back height b.y0 high y0,
      pixel_back height b.y1 high y1,
    )

    spans-IsExact :
        (spans : List (TextSpan D))
        → All (λ s. IsPixelBox s.bbox) spans
        → All (λ s. IsExact width height s.bbox) spans
    spans-IsExact [] pixels = tt
    spans-IsExact (s ∷ ss) (here, rest) = (box-IsExact s.bbox here, spans-IsExact ss rest)

    lines-IsExact :
        (lines : List (TextLine D)) → All IsPixelLine lines → All (IsExactLine width height) lines
    lines-IsExact [] pixels = tt
    lines-IsExact (l ∷ ls) ((box, spans), rest) =
        ((box-IsExact l.bbox box, spans-IsExact l.spans spans), lines-IsExact ls rest)

  -- The text of a page is the same after it is moved to the turned page and back, for every rotation
  -- that the constructor admits, where the sides of the page are integers of 32 bits and the boxes of its
  -- lines and spans have whole pixels, again of 32 bits, as coordinates.
  pub text_to_source-text_to_working :
      (ieee : IsIeee d) (width height degrees : ℤ) (r : PageRotation) (text : PageText D)
      → new_rotation width height degrees ≡ some r
      → IsInt r.width
      → IsInt r.height
      → All IsPixelLine text.lines
      → text_to_source r (text_to_working r text) ≡ text
  text_to_source-text_to_working ieee width height degrees r text made wide high pixels =
      exact_back width height degrees r made text
        (lines-IsExact ieee r.width r.height wide high text.lines pixels)
