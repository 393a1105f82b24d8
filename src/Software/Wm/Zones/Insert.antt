-- ===== src/Software/Wm/Zones/Insert.antt =====
-- What wm_zone_insert of software/wm/zone.c adds to the list: the part of a zone that is on screen.
use fern_night.Prelude.{
  ℕ, ◌+◌, ◌^◌, ◌≤◌, ◌<◌, Bool, true, false, ◌&&◌, ◌||◌, List, [], ◌∷◌, ◌++◌, length, length-append,
  ltb, ◌≡◌, refl, arith, inl, inr, Bool-cases,
}
use fern_night.Software.Wm.{Zone, Framebuffer, origin, zone_limit}
use fern_night.Software.Wm.Zones.{
  truncated_start, truncated_size, truncated, is_outside, wm_zone_insert,
}
use fern_night.Software.Wm.Zones.Split.{ArePending}
use fern_night.Software.Wm.Zones.Clip.{within, covers, IsScreen, IsOnScreen}

-- The points of the screen.
abbrev pub on_screen : Framebuffer → ℕ → ℕ → Bool
on_screen f x y = within origin f.width x && within origin f.height y

-- Whether some zone of a list covers a point.
abbrev pub covered : List Zone → ℕ → ℕ → Bool
covered [] x y = false
covered (z ∷ zones) x y = covers z x y || covered zones x y

pub covered-append :
    (zones : List Zone) (z : Zone) (x y : ℕ)
    → covered (zones ++ (z ∷ [])) x y ≡ (covered zones x y || covers z x y)
covered-append [] z x y = ground arith
covered-append (t ∷ zones) z x y = ground (arith, covered-append zones z x y)

-- An edge of a zone that starts in front of the screen does not lie behind it too.
abbrev pub Fits : ℕ → ℕ → ℕ → Type 0
Fits screen at size = at < origin → at + size ≤ origin + screen

-- One axis of a truncated zone that is not outside of the screen.
module _ (n at size : ℕ) (h : n < 2 ^ 15) (small : size < 2 ^ 16) (fits : Fits n at size)
    (a : at < origin + n) (b : origin < at + size) where
  start-end :
      0 < size
      → (origin ≤ truncated_start at)
        × (truncated_start at + truncated_size n at size ≤ origin + n)
        × (0 < truncated_size n at size)
  unfolding truncated_start truncated_size
  start-end some = elim (Bool-cases (ltb at origin)) [
    | inl p ↦ ground (arith, fits (ground arith))
    | inr p ↦ ground arith
  ]

  within-truncated :
      (p : ℕ)
      → within (truncated_start at) (truncated_size n at size) p
        ≡ (within at size p && within origin n p)
  unfolding truncated_start truncated_size
  within-truncated p = elim (Bool-cases (ltb at origin)) [
    | inl e ↦ ground (arith, fits (ground arith))
    | inr e ↦ ground arith
  ]

module _ (f : Framebuffer) (z : Zone) (parsed : Bool) (screen : IsScreen f)
    (wide : z.width < 2 ^ 16) (high : z.height < 2 ^ 16) (fits_x : Fits f.width z.x z.width)
    (fits_y : Fits f.height z.y z.height) where
  inside :
      is_outside f z ≡ false
      → (z.x < origin + f.width)
        × (origin < z.x + z.width)
        × (z.y < origin + f.height)
        × (origin < z.y + z.height)
  unfolding is_outside
  inside h = ground arith

  covers-truncated :
      is_outside f z ≡ false
      → (x y : ℕ) → covers (truncated f z parsed) x y ≡ (covers z x y && on_screen f x y)
  unfolding truncated
  covers-truncated h x y = ground (
    arith,
    within-truncated f.width z.x z.width screen.width_in wide fits_x (inside h).0 (inside h).1 x,
    within-truncated f.height z.y z.height screen.height_in high fits_y (inside h).2 (inside h).3 y,
  )

  truncated-IsOnScreen :
      is_outside f z ≡ false → 0 < z.width → 0 < z.height → IsOnScreen f (truncated f z parsed)
  unfolding truncated
  truncated-IsOnScreen h w t = omega (
    arith,
    start-end f.width z.x z.width screen.width_in wide fits_x (inside h).0 (inside h).1 w,
    start-end f.height z.y z.height screen.height_in high fits_y (inside h).2 (inside h).3 t,
  )

  outside : (x y : ℕ) → is_outside f z ≡ true → (covers z x y && on_screen f x y) ≡ false
  unfolding is_outside
  outside x y h = ground arith

  -- On a screen with sizes of 15 bits, and while the list has room, a zone of 16-bit sizes that
  -- does not reach beyond both opposite edges of the screen adds exactly its points on the screen
  -- to those that the list covers.
  pub covered-wm_zone_insert :
      (zones : List Zone) (x y : ℕ)
      → length zones < zone_limit
      → covered (wm_zone_insert f zones z parsed) x y
        ≡ (covered zones x y || (covers z x y && on_screen f x y))
  unfolding wm_zone_insert
  covered-wm_zone_insert zones x y room = elim (Bool-cases (is_outside f z)) [
    | inl e ↦ ground (arith, outside x y e)
    | inr e ↦
        ground (arith, covers-truncated e x y, covered-append zones (truncated f z parsed) x y)
  ]

pub length-wm_zone_insert :
    (f : Framebuffer) (zones : List Zone) (z : Zone) (parsed : Bool)
    → length (wm_zone_insert f zones z parsed) ≤ length zones + 1
unfolding wm_zone_insert
length-wm_zone_insert f zones z parsed =
    ground (arith, length-append zones (truncated f z parsed ∷ []))

-- A region that is inserted to be drawn again, into the empty list, awaits processing.
pub wm_zone_insert-ArePending :
    (f : Framebuffer) (z : Zone)
    → IsScreen f
    → z.width < 2 ^ 16
    → z.height < 2 ^ 16
    → Fits f.width z.x z.width
    → Fits f.height z.y z.height
    → 0 < z.width
    → 0 < z.height
    → ArePending f (wm_zone_insert f [] z false) × (length (wm_zone_insert f [] z false) ≤ 1)
unfolding wm_zone_insert truncated
wm_zone_insert-ArePending f z screen wide high fits_x fits_y w t =
    elim (Bool-cases (is_outside f z)) [
      | inl e ↦ rw e (tt, omega arith)
      | inr e ↦ rw e (
        (refl, truncated-IsOnScreen f z false screen wide high fits_x fits_y e w t, tt),
        omega arith,
      )
    ]

-- On a screen with sizes of 15 bits, and while the list has room, let a zone of less than 2 ^ 16
-- columns start left of the screen and end behind its right edge, with its first row on the screen.
-- It is not cut at the right edge: the list then covers the point of that row that lies just behind
-- that edge, outside of the screen.
pub covers-truncated_both :
    (f : Framebuffer) (z : Zone) (parsed : Bool) (zones : List Zone)
    → IsScreen f
    → length zones < zone_limit
    → z.x < origin
    → origin + f.width < z.x + z.width
    → z.width < 2 ^ 16
    → origin ≤ z.y
    → z.y < origin + f.height
    → 0 < z.height
    → (covered (wm_zone_insert f zones z parsed) (origin + f.width) z.y ≡ true)
      × (on_screen f (origin + f.width) z.y ≡ false)
unfolding wm_zone_insert truncated truncated_start truncated_size is_outside
covers-truncated_both f z parsed zones screen room left right wide top bottom some =
    ground (arith, covered-append zones (truncated f z parsed) (origin + f.width) z.y)
