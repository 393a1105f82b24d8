-- ===== src/Software/Wm/Fill/Painter.antt =====
-- wm_zone_insert, wm_zone and wm_fill together: the pixels of a region that is drawn again.
use fern_night.Prelude.{
  ℕ, ◌+◌, ◌/◌, ◌^◌, ◌≤◌, ◌<◌, Bool, true, false, not, ◌&&◌, List, [], ◌∷◌, ◌++◌, length, ◌==◌,
  if◌then◌else◌, ◌≡◌, ◌≢◌, refl, ap, ◌∙◌, arith, inl, inr, Bool-cases,
}
use fern_night.Software.Wm.{Object, Zone, Framebuffer, origin, zone_limit, flag_visible, has_flag}
use fern_night.Software.Wm.Fill.{paint, color_at, fill_zone, fill_zones, wm_fill}
use fern_night.Software.Wm.Fill.Loops.{pixel, pixel-fill_zone}
use fern_night.Software.Wm.Zones.{overlap, fragment, wm_zone}
use fern_night.Software.Wm.Zones.Clip.{
  covers, contains, IsOnScreen, IsScreen, IsWindow, covers-fragment, fragment-object,
  fragment-IsOnScreen, apart-covers,
}
use fern_night.Software.Wm.Zones.Split.{
  fragments, all_fragments, AreWindows, ArePending, wm_zone_fragments,
}

-- What a pixel of colour `color` becomes when the visible objects of the list that contain it are
-- painted over it, the first of the list first.
abbrev pub composite : (ℕ → Object) → List ℕ → ℕ → ℕ → ℕ → ℕ
composite objects [] x y color = color
composite objects (p ∷ list) x y color = composite objects list x y (
    if has_flag (objects p) flag_visible && contains (objects p) (x + origin) (y + origin)
    then paint color (color_at (objects p) x y)
    else color)

-- The same for each zone of a list that covers the pixel.
abbrev pub redrawn : (ℕ → Object) → List ℕ → List Zone → ℕ → ℕ → ℕ → ℕ
redrawn objects list [] x y color = color
redrawn objects list (z ∷ zones) x y color =
    redrawn objects list zones x y
      (if covers z (x + origin) (y + origin) then composite objects list x y color else color)

module _ (objects : ℕ → Object) where
  fill_zone_size :
      (f : Framebuffer) (z : Zone)
      → ((fill_zone objects f z).width ≡ f.width) × ((fill_zone objects f z).height ≡ f.height)
  unfolding fill_zone
  fill_zone_size f z = ground arith

  fill_zones_size :
      (zones : List Zone) (f : Framebuffer)
      → ((fill_zones objects zones f).width ≡ f.width)
        × ((fill_zones objects zones f).height ≡ f.height)
  unfolding fill_zones
  fill_zones_size [] f = (refl, refl)
  fill_zones_size (z ∷ zones) f =
      ground (arith, fill_zone_size f z, fill_zones_size zones (fill_zone objects f z))

  fill_zones-append :
      (zones more : List Zone) (f : Framebuffer)
      → fill_zones objects (zones ++ more) f ≡ fill_zones objects more (fill_zones objects zones f)
  unfolding fill_zones
  fill_zones-append [] more f = refl
  fill_zones-append (z ∷ zones) more f = fill_zones-append zones more (fill_zone objects f z)

  fill_zones-pending :
      (f g : Framebuffer) (zones : List Zone) → ArePending f zones → fill_zones objects zones g ≡ g
  unfolding fill_zones fill_zone
  fill_zones-pending f g [] a = refl
  fill_zones-pending f g (z ∷ zones) (empty, on, a) = ground (arith, fill_zones-pending f g zones a)

resized :
    (f g : Framebuffer) (z : Zone)
    → (g.width ≡ f.width) × (g.height ≡ f.height)
    → IsOnScreen f z
    → IsOnScreen g z
resized f g z (w, h) on = omega arith

IsScreen-resized :
    (f g : Framebuffer) → (g.width ≡ f.width) × (g.height ≡ f.height) → IsScreen f → IsScreen g
IsScreen-resized f g (w, h) screen = omega arith

module _ (objects : ℕ → Object) (x y : ℕ) where
  pixel-fragment :
      (p : ℕ) (f : Framebuffer) (z : Zone)
      → IsScreen f
      → IsOnScreen f z
      → p ≢ 0
      → IsWindow (objects p)
      → x < f.width
      → overlap z (objects p) ≡ true
      → pixel (fill_zone objects f (fragment z (objects p) p)) x y ≡ (
          if covers z (x + origin) (y + origin) && contains (objects p) (x + origin) (y + origin)
          then paint (pixel f x y) (color_at (objects p) x y)
          else pixel f x y)
  pixel-fragment p f z screen on filled window h e =
      rw
        (pixel-fill_zone objects f (fragment z (objects p) p)
          (fragment-IsOnScreen f z (objects p) p screen on window e) x y h)
        (ground (
          arith,
          fragment-object z (objects p) p,
          covers-fragment f z (objects p) p screen on window e (x + origin) (y + origin),
        ))

  -- The fragments of a zone paint the visible objects over each of its pixels.
  pixel-fragments :
      (list : List ℕ) (f : Framebuffer) (z : Zone)
      → IsScreen f
      → IsOnScreen f z
      → AreWindows objects list
      → x < f.width
      → pixel (fill_zones objects (fragments objects z list) f) x y ≡ (
          if covers z (x + origin) (y + origin)
          then composite objects list x y (pixel f x y)
          else pixel f x y)
  unfolding fill_zones
  pixel-fragments [] f z screen on w h = ground arith
  pixel-fragments (p ∷ list) f z screen on (filled, window, w) h =
      elim (Bool-cases (has_flag (objects p) flag_visible && overlap z (objects p))) [
        | inl e ↦
            let next = fill_zone objects f (fragment z (objects p) p) in
            let size = fill_zone_size objects f (fragment z (objects p) p) in
            ground (
              arith,
              pixel-fragment p f z screen on filled window h (ground arith),
              pixel-fragments list next z (IsScreen-resized f next size screen)
                  (resized f next z size on) w (omega arith),
            )
        | inr e ↦ ground (
          arith,
          pixel-fragments list f z screen on w h,
          apart-covers z (objects p) (x + origin) (y + origin),
        )
      ]

  pixel-all_fragments :
      (list : List ℕ) (zones : List Zone) (f g : Framebuffer)
      → (g.width ≡ f.width) × (g.height ≡ f.height)
      → IsScreen f
      → ArePending f zones
      → AreWindows objects list
      → x < f.width
      → pixel (fill_zones objects (all_fragments objects zones list) g) x y
        ≡ redrawn objects list zones x y (pixel g x y)
  unfolding fill_zones
  pixel-all_fragments list [] f g size screen pending w h = refl
  pixel-all_fragments list (z ∷ zones) f g size screen (empty, on, pending) w h =
      let next = fill_zones objects (fragments objects z list) g in
      let kept = fill_zones_size objects (fragments objects z list) g in
      rw (fill_zones-append objects (fragments objects z list) (all_fragments objects zones list) g)
        (rw
          (pixel-all_fragments list zones f next (kept.0 ∙ size.0, kept.1 ∙ size.1) screen pending w
            h)
          (ap (redrawn objects list zones x y) (
            pixel-fragments list g z (IsScreen-resized f g size screen) (resized f g z size on) w
              (omega arith))))

  -- On a screen with sizes of 15 bits, let the zones of the list lie on it and await processing,
  -- let the listed pointers be windows of some size, and let the list of zones have room for the
  -- fragments. After wm_zone and wm_fill, at each pixel in a column of the screen, each zone in
  -- turn that covers the pixel has painted all visible objects that contain the pixel over it, in
  -- the order of the object list; a pixel in no zone is as before.
  pub wm_fill-wm_zone :
      (list : List ℕ) (zones : List Zone) (f : Framebuffer)
      → IsScreen f
      → ArePending f zones
      → AreWindows objects list
      → length zones + length (all_fragments objects zones list) ≤ zone_limit
      → x < f.width
      → pixel (wm_fill objects (wm_zone f objects list zones) f).1 x y
        ≡ redrawn objects list zones x y (pixel f x y)
  unfolding wm_fill
  wm_fill-wm_zone list zones f screen pending w room h =
      rw (wm_zone_fragments f objects list screen w zones pending room) (
        rw (fill_zones-append objects zones (all_fragments objects zones list) f) (
          rw (fill_zones-pending objects f f zones pending)
            (pixel-all_fragments list zones f f (refl, refl) screen pending w h)))

  composite-append :
      (below above : List ℕ) (color : ℕ)
      → composite objects (below ++ above) x y color
        ≡ composite objects above x y (composite objects below x y color)
  composite-append [] above color = refl
  composite-append (p ∷ below) above color = composite-append below above _

  -- Whether an object shows at the pixel: it is visible, contains the pixel, and has a colour there
  -- that is not wholly transparent.
  abbrev pub shows : ℕ → Bool
  shows p =
      has_flag (objects p) flag_visible
      && (contains (objects p) (x + origin) (y + origin)
          && not (color_at (objects p) x y / 2 ^ 24 == 0))

  -- No object of a list does.
  abbrev pub IsClear : List ℕ → Type 0
  IsClear [] = Unit {0}
  IsClear (p ∷ list) = (shows p ≡ false) × IsClear list

  composite-IsClear :
      (list : List ℕ) (color : ℕ) → IsClear list → composite objects list x y color ≡ color
  unfolding paint
  composite-IsClear [] color c = refl
  composite-IsClear (p ∷ list) color (h, c) = ground (arith, composite-IsClear list color c)

  -- An object that is opaque at the pixel, with nothing in front of it that shows there, is the one
  -- that is seen.
  pub composite-opaque :
      (below above : List ℕ) (p color : ℕ)
      → shows p ≡ true
      → color_at (objects p) x y / 2 ^ 24 ≡ 255
      → IsClear above
      → composite objects (below ++ (p ∷ above)) x y color ≡ color_at (objects p) x y
  unfolding paint
  composite-opaque below above p color seen opaque clear =
      rw (composite-append below (p ∷ above) color)
        (rw (composite-IsClear above _ clear) (ground arith))
