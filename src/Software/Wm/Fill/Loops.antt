-- ===== src/Software/Wm/Fill/Loops.antt =====
-- The loops of wm_fill in software/wm/fill.c: which pixels they write.
use fern_night.Prelude.{
  ℕ, zero, suc, ◌+◌, ◌-◌, ◌*◌, ◌≤◌, ◌<◌, not, ◌&&◌, ◌==◌, if◌then◌else◌, ◌≡◌, arith,
}
use fern_night.Software.Wm.{Object, Zone, Framebuffer, origin}
use fern_night.Software.Wm.Fill.{paint, color_at, fill_row, fill_rows, fill_zone}
use fern_night.Software.Wm.Zones.Clip.{within, covers, IsOnScreen}

-- Rows do not overlap.
rows_apart : (w x px y py : ℕ) → x < w → px < w → py < y → py * w + px < y * w + x
rows_apart w x px y py h k l = grind arith

index_same : (w x px y py : ℕ) → x < w → px < w → (py * w + px == y * w + x) ≡ (py == y && px == x)
index_same w x px y py h k = ground (arith, rows_apart w x px y py h k, rows_apart w px x py y k h)

module _ (width : ℕ) (o : Object) (px py : ℕ) (h : px < width) where
  fill_row_lem :
      (left x y : ℕ) (target : ℕ → ℕ)
      → x + left ≤ width
      → fill_row width o left x y target (py * width + px) ≡ (
          if py == y && within x left px
          then paint (target (py * width + px)) (color_at o px py)
          else target (py * width + px))
  unfolding fill_row
  fill_row_lem zero x y target fits = ground arith
  fill_row_lem (suc left) x y target fits = ground (
    arith,
    index_same width x px y py (omega arith) h,
    fill_row_lem left (x + 1) y
        (λ i. if i == y * width + x then paint (target i) (color_at o x y) else target i)
        (omega arith),
  )

  fill_rows_lem :
      (left count x y : ℕ) (target : ℕ → ℕ)
      → x + count ≤ width
      → fill_rows width o left count x y target (py * width + px) ≡ (
          if within y left py && within x count px
          then paint (target (py * width + px)) (color_at o px py)
          else target (py * width + px))
  unfolding fill_rows
  fill_rows_lem zero count x y target fits = ground arith
  fill_rows_lem (suc left) count x y target fits = ground (
    arith,
    fill_row_lem count x y target fits,
    fill_rows_lem left count x (y + 1) (fill_row width o count x y target) fits,
  )

-- The pixel of the screen in column `x` and row `y`.
abbrev pub pixel : Framebuffer → ℕ → ℕ → ℕ
pixel f x y = f.pixels (y * f.width + x)

module _ (objects : ℕ → Object) (f : Framebuffer) (z : Zone) (on : IsOnScreen f z) (x y : ℕ)
    (h : x < f.width) where
  pub pixel-fill_zone : pixel (fill_zone objects f z) x y ≡ (
      if not (z.object_address == 0) && covers z (x + origin) (y + origin)
      then paint (pixel f x y) (color_at (objects z.object_address) x y)
      else pixel f x y)
  unfolding fill_zone
  pixel-fill_zone = ground (
    arith,
    fill_rows_lem f.width (objects z.object_address) x y h z.height z.width (z.x - origin)
        (z.y - origin) f.pixels (omega arith),
  )
