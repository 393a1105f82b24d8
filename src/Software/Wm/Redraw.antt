-- ===== src/Software/Wm/Redraw.antt =====
-- A region of the screen that is drawn again: wm_zone_insert and wm_zone of software/wm/zone.c, and
-- wm_fill of software/wm/fill.c, as the main loop of software/wm.c calls them.
use fern_night.Prelude.{
  ℕ, ◌+◌, ◌/◌, ◌^◌, ◌≤◌, ◌<◌, true, false, List, [], ◌∷◌, ◌++◌, append-nil, length, if◌then◌else◌,
  ◌≡◌, refl, ◌∙◌, arith,
}
use fern_night.Software.Wm.{Object, Zone, Framebuffer, origin, zone_limit}
use fern_night.Software.Wm.Fill.{color_at, wm_fill}
use fern_night.Software.Wm.Fill.Loops.{pixel}
use fern_night.Software.Wm.Fill.Painter.{
  composite, redrawn, wm_fill-wm_zone, composite-opaque, shows, IsClear,
}
use fern_night.Software.Wm.Zones.{wm_zone_insert, wm_zone}
use fern_night.Software.Wm.Zones.Clip.{covers, IsScreen}
use fern_night.Software.Wm.Zones.Insert.{
  Fits, covered, covered-wm_zone_insert, wm_zone_insert-ArePending,
}
use fern_night.Software.Wm.Zones.Split.{fragments, all_fragments, AreWindows}

-- A region that is queued alone, split and filled.
pub redraw : (ℕ → Object) → List ℕ → Zone → Framebuffer → Framebuffer
redraw objects list z f =
    (wm_fill objects (wm_zone f objects list (wm_zone_insert f [] z false)) f).1

-- A region of some size and of 16 bits that does not reach beyond both opposite edges of the screen.
pub record IsRegion (f : Framebuffer) (z : Zone) : Type 0 where
  pub wide : (0 < z.width) × (z.width < 2 ^ 16)
  pub high : (0 < z.height) × (z.height < 2 ^ 16)
  pub fits_x : Fits f.width z.x z.width
  pub fits_y : Fits f.height z.y z.height

fragment_count :
    (objects : ℕ → Object) (z : Zone) (list : List ℕ)
    → length (fragments objects z list) ≤ length list
fragment_count objects z [] = omega arith
fragment_count objects z (p ∷ list) = ground (arith, fragment_count objects z list)

fragments-le :
    (objects : ℕ → Object) (zones : List Zone) (list : List ℕ)
    → length zones ≤ 1
    → length (all_fragments objects zones list) ≤ length list
fragments-le objects [] list h = omega arith
fragments-le objects (z ∷ []) list h =
    rw (append-nil (fragments objects z list)) (fragment_count objects z list)
fragments-le objects (z ∷ t ∷ zones) list h = absurd (omega arith)

redrawn_one :
    (objects : ℕ → Object) (zones : List Zone) (list : List ℕ) (x y color : ℕ)
    → length zones ≤ 1
    → redrawn objects list zones x y color ≡ (
        if covered zones (x + origin) (y + origin) then composite objects list x y color else color)
redrawn_one objects [] list x y color h = refl
redrawn_one objects (z ∷ []) list x y color h = ground arith
redrawn_one objects (z ∷ t ∷ zones) list x y color h = absurd (omega arith)

module _ (objects : ℕ → Object) (list : List ℕ) (z : Zone) (f : Framebuffer) (x y : ℕ)
    (screen : IsScreen f) (region : IsRegion f z) (windows : AreWindows objects list)
    (few : length list < zone_limit) (h : x < f.width) (k : y < f.height) where
  -- On a screen with sizes of 15 bits, with an object list of windows that leaves room in the list of
  -- zones, after a region that does not reach beyond both opposite edges of the screen was queued
  -- alone, split and filled, each pixel of it on the screen shows all visible objects that contain
  -- the pixel painted over it in the order of the object list, and each other pixel is as before.
  pub pixel-redraw : pixel (redraw objects list z f) x y ≡ (
      if covers z (x + origin) (y + origin)
      then composite objects list x y (pixel f x y)
      else pixel f x y)
  unfolding redraw
  pixel-redraw =
      let (pending, one) =
        wm_zone_insert-ArePending f z screen region.wide.1 region.high.1 region.fits_x region.fits_y
          region.wide.0 region.high.0 in
      let zones = wm_zone_insert f [] z false in
      ground (
        arith,
        wm_fill-wm_zone objects x y list zones f screen pending windows
            (omega (arith, fragments-le objects zones list one)) h,
        redrawn_one objects zones list x y (pixel f x y) one,
        covered-wm_zone_insert f z false screen region.wide.1 region.high.1 region.fits_x
            region.fits_y [] (x + origin) (y + origin) (omega arith),
      )

  -- Where an object of the list is visible and opaque at a pixel of such a region, and no object
  -- behind it in the list shows at the pixel, the screen shows that object's colour, whatever it
  -- showed before.
  pub redraw-opaque :
      (below above : List ℕ) (p : ℕ)
      → list ≡ below ++ (p ∷ above)
      → shows objects x y p ≡ true
      → color_at (objects p) x y / 2 ^ 24 ≡ 255
      → IsClear objects x y above
      → covers z (x + origin) (y + origin) ≡ true
      → pixel (redraw objects list z f) x y ≡ color_at (objects p) x y
  redraw-opaque below above p e seen opaque clear inside =
      pixel-redraw
      ∙ rw inside
          (rw e (composite-opaque objects x y below above p (pixel f x y) seen opaque clear))
