-- ===== src/Software/Wm/Zones/Clip.antt =====
-- The points of a zone: what a fragment and a truncated zone cover.
use fern_night.Prelude.{ℕ, ◌+◌, ◌^◌, ◌≤◌, ◌<◌, Bool, true, false, ◌&&◌, ltb, leb, ◌≡◌, refl, arith}
use fern_night.Software.Wm.{Object, Zone, Framebuffer, origin}
use fern_night.Software.Wm.Zones.{
  truncated_start, truncated_size, truncated, is_outside, overlap, correct_start, correct_size,
  cut_size, fragment,
}

-- Whether the point `p` lies on the `size` points from `at` on.
abbrev pub within : ℕ → ℕ → ℕ → Bool
within at size p = leb at p && ltb p (at + size)

abbrev pub covers : Zone → ℕ → ℕ → Bool
covers z x y = within z.x z.width x && within z.y z.height y

abbrev pub contains : Object → ℕ → ℕ → Bool
contains o x y = within o.x o.width x && within o.y o.height y

-- A zone inside the screen.
pub record IsOnScreen (f : Framebuffer) (z : Zone) : Type 0 where
  pub left : origin ≤ z.x
  pub top : origin ≤ z.y
  pub right : z.x + z.width ≤ origin + f.width
  pub bottom : z.y + z.height ≤ origin + f.height
  pub wide : 0 < z.width
  pub high : 0 < z.height

-- One axis of a fragment, for sizes of 16 bits.
module _ (start size at n : ℕ) (h : size < 2 ^ 16) (some_size : 0 < size) (some_n : 0 < n)
    (a : start < at + n) (b : at < start + size) where
  pub axis-within :
      (p : ℕ)
      → within
          (correct_start at start)
          (cut_size (at + n) (correct_start at start) (correct_size at start size))
          p
        ≡ (within start size p && within at n p)
  unfolding correct_start correct_size cut_size
  axis-within p = ground arith

  pub axis-bounds :
      (start ≤ correct_start at start)
      × (correct_start at start
            + cut_size (at + n) (correct_start at start) (correct_size at start size)
          ≤ start + size)
      × (0 < cut_size (at + n) (correct_start at start) (correct_size at start size))
  unfolding correct_start correct_size cut_size
  axis-bounds = ground arith

-- A window of some size.
pub record IsWindow (o : Object) : Type 0 where
  pub width_in : (0 < o.width) × (o.width < 2 ^ 16)
  pub height_in : (0 < o.height) × (o.height < 2 ^ 16)
  pub x_in : o.x < 2 ^ 16
  pub y_in : o.y < 2 ^ 16

-- The sizes of a screen fit in int16_t.
pub record IsScreen (f : Framebuffer) : Type 0 where
  pub width_in : f.width < 2 ^ 15
  pub height_in : f.height < 2 ^ 15

module _ (f : Framebuffer) (z : Zone) (o : Object) (p : ℕ) (screen : IsScreen f)
    (on : IsOnScreen f z) (window : IsWindow o) (meet : overlap z o ≡ true) where
  meets :
      ((z.x < o.x + o.width) × (o.x < z.x + z.width))
      × ((z.y < o.y + o.height) × (o.y < z.y + z.height))
  unfolding overlap
  meets = ground arith

  -- A fragment covers what the zone and the object have in common.
  pub covers-fragment : (x y : ℕ) → covers (fragment z o p) x y ≡ (covers z x y && contains o x y)
  unfolding fragment
  covers-fragment x y = ground (
    arith,
    axis-within z.x z.width o.x o.width (omega arith) on.wide (omega arith) meets.0.0 meets.0.1 x,
    axis-within z.y z.height o.y o.height (omega arith) on.high (omega arith) meets.1.0 meets.1.1 y,
  )

  pub fragment-IsOnScreen : IsOnScreen f (fragment z o p)
  unfolding fragment
  fragment-IsOnScreen = omega (
    arith,
    axis-bounds z.x z.width o.x o.width (omega arith) on.wide (omega arith) meets.0.0 meets.0.1,
    axis-bounds z.y z.height o.y o.height (omega arith) on.high (omega arith) meets.1.0 meets.1.1,
  )

pub fragment-object : (z : Zone) (o : Object) (p : ℕ) → (fragment z o p).object_address ≡ p
unfolding fragment
fragment-object z o p = refl

-- A zone inside the screen is inserted as it is.
module _ (f : Framebuffer) (z : Zone) (screen : IsScreen f) (on : IsOnScreen f z) where
  pub inside_screen : is_outside f z ≡ false
  unfolding is_outside
  inside_screen = ground arith

  kept :
      (n at size : ℕ)
      → n < 2 ^ 15
      → origin ≤ at
      → at + size ≤ origin + n
      → truncated_size n at size ≡ size
  unfolding truncated_size
  kept n at size h a b = ground arith

  pub truncated_inside : truncated f z true ≡ z
  unfolding truncated truncated_start
  truncated_inside = ground (
    arith,
    kept f.width z.x z.width screen.width_in on.left on.right,
    kept f.height z.y z.height screen.height_in on.top on.bottom,
  )

-- Objects that do not overlap a zone have no point in common with it.
pub apart-covers :
    (z : Zone) (o : Object) (x y : ℕ)
    → overlap z o ≡ false
    → (covers z x y && contains o x y) ≡ false
unfolding overlap
apart-covers z o x y e = ground arith
