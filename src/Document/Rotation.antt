-- ===== src/Document/Rotation.antt =====
-- cpp/document/page_rotation.cpp: boxes of a page between the source image and the turned one.
pub mod Roundtrip
mod Tests
use technical_doc_parser.Prelude.{
  ℕ, ◌-◌, ◌%◌, Bool, true, false, ◌&&◌, ◌||◌, not, Option, none, some, List, [], ◌∷◌, Text, ltb,
  nat_beq, map, if◌then◌else◌,
}
use technical_doc_parser.Prelude.Int.{ℤ, pos, negsuc, ltb_ℤ}
use technical_doc_parser.Prelude.Double.{Double}
use technical_doc_parser.Document.Text.{BBox, TextSpan, TextLine, PageText}

-- The constructor admits no other degrees than 0, 90, 180 and 270.
pub record PageRotation : Type 0 where
  pub width : ℤ
  pub height : ℤ
  pub degrees : ℕ

abbrev pub is_quarter : ℕ → Bool
is_quarter degrees =
    nat_beq degrees 0 || nat_beq degrees 90 || nat_beq degrees 180 || nat_beq degrees 270

-- The constructor; `none` where it throws.
unfoldable pub new_rotation : ℤ → ℤ → ℤ → Option PageRotation
new_rotation width height (negsuc d) = none
new_rotation width height (pos d) =
    if not (is_quarter d)
    then none
    else if not (nat_beq d 0) && not (ltb_ℤ (pos 0) width && ltb_ℤ (pos 0) height)
    then none
    else some (record { width = width; height = height; degrees = d })

unfoldable pub working_width : PageRotation → ℤ
working_width r = if nat_beq (r.degrees % 180) 0 then r.width else r.height

unfoldable pub working_height : PageRotation → ℤ
working_height r = if nat_beq (r.degrees % 180) 0 then r.height else r.width

module _ {ℓ} {D : Type ℓ} ⦃d : Double D⦄ where
  open d use {sub, of_int}

  unfoldable pub rotate : BBox D → ℤ → ℤ → ℕ → BBox D
  rotate b width height degrees =
      let w = of_int width in
      let h = of_int height in
      if nat_beq degrees 90
      then record { x0 = sub h b.y1; y0 = b.x0; x1 = sub h b.y0; y1 = b.x1 }
      else if nat_beq degrees 180
      then record { x0 = sub w b.x1; y0 = sub h b.y1; x1 = sub w b.x0; y1 = sub h b.y0 }
      else if nat_beq degrees 270
      then record { x0 = b.y0; y0 = sub w b.x1; x1 = b.y1; y1 = sub w b.x0 }
      else b

  unfoldable pub to_working : PageRotation → BBox D → BBox D
  to_working r b = rotate b r.width r.height r.degrees

  unfoldable pub to_source : PageRotation → BBox D → BBox D
  to_source r b = rotate b (working_width r) (working_height r) ((360 - r.degrees) % 360)

  unfoldable pub map_span : (BBox D → BBox D) → TextSpan D → TextSpan D
  map_span f s = record s { bbox = f s.bbox }

  unfoldable pub map_line : (BBox D → BBox D) → TextLine D → TextLine D
  map_line f l = record l { bbox = f l.bbox; spans = map (map_span f) l.spans }

  unfoldable pub text_to_working : PageRotation → PageText D → PageText D
  text_to_working r text = record text { lines = map (map_line (to_working r)) text.lines }

  -- The loop of `restoreSourceCoordinates` over the lines of a page.
  unfoldable pub text_to_source : PageRotation → PageText D → PageText D
  text_to_source r text = record text { lines = map (map_line (to_source r)) text.lines }
