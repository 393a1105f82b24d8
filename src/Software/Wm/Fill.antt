-- ===== src/Software/Wm/Fill.antt =====
-- software/wm/fill.c.
pub mod Loops
pub mod Painter
use fern_night.Prelude.{
  ℕ, zero, suc, ◌+◌, ◌-◌, ◌*◌, ◌/◌, ◌%◌, ◌^◌, bit_and, bit_or, Bool, List, [], ◌∷◌, ◌==◌,
  if◌then◌else◌,
}
use fern_night.Prelude.Machine.{add64, sub64}
use fern_night.Library.Color.{lib_color_blend}
use fern_night.Software.Wm.{Object, Zone, Framebuffer, origin, flag_flush}

-- "perform the operation based on the alpha channel"
pub paint : ℕ → ℕ → ℕ
paint color_current color_new =
    let alpha = color_new / 2 ^ 24 in
    if alpha == 255
    then color_new
    else if alpha == 0
    then color_current
    else lib_color_blend color_current color_new

-- `source[ (x - object -> x) + (object -> width * (y - object -> y)) ]`
unfoldable pub color_at : Object → ℕ → ℕ → ℕ
color_at o x y =
    o.pixels (add64 (sub64 (x + origin) o.x) (o.width * sub64 (y + origin) o.y % 2 ^ 64))

-- `left` pixels of the row `y` from `x` on; zones do not start at negative coordinates.
pub fill_row : ℕ → Object → ℕ → ℕ → ℕ → (ℕ → ℕ) → ℕ → ℕ
fill_row width o zero x y target = target
fill_row width o (suc left) x y target =
    fill_row width o left (x + 1) y
      (λ i. if i == y * width + x then paint (target i) (color_at o x y) else target i)

-- `left` rows from `y` on, of `count` pixels from `x` on.
pub fill_rows : ℕ → Object → ℕ → ℕ → ℕ → ℕ → (ℕ → ℕ) → ℕ → ℕ
fill_rows width o zero count x y target = target
fill_rows width o (suc left) count x y target =
    fill_rows width o left count x (y + 1) (fill_row width o count x y target)

-- "zone to be processed?"
pub fill_zone : (ℕ → Object) → Framebuffer → Zone → Framebuffer
fill_zone objects f z = if z.object_address == 0 then f else record f {
  pixels =
      fill_rows f.width (objects z.object_address) z.height z.width (z.x - origin) (z.y - origin)
        f.pixels;
  flags = bit_or f.flags flag_flush;
}

-- The zones one after the other; the list is empty afterwards.
pub fill_zones : (ℕ → Object) → List Zone → Framebuffer → Framebuffer
fill_zones objects [] f = f
fill_zones objects (z ∷ zones) f = fill_zones objects zones (fill_zone objects f z)

pub wm_fill : (ℕ → Object) → List Zone → Framebuffer → List Zone × Framebuffer
wm_fill objects zones f = ([], fill_zones objects zones f)
