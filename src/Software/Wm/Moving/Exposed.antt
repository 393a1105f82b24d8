-- ===== src/Software/Wm/Moving/Exposed.antt =====
-- What an object leaves when it is moved is queued to be drawn again.
use fern_night.Prelude.{
  ℕ, ◌+◌, ◌-◌, ◌^◌, ◌≤◌, ◌<◌, true, false, not, ◌&&◌, ◌||◌, List, length, ◌==◌, if◌then◌else◌, ◌≡◌,
  ◌≢◌, arith,
}
use fern_night.Software.Wm.{Zone, origin, zone_limit, has_flag, flag_fixed_xy}
use fern_night.Software.Wm.Zones.{wm_zone_insert}
use fern_night.Software.Wm.Zones.Clip.{within, covers, contains, IsScreen}
use fern_night.Software.Wm.Zones.Insert.{
  Fits, covered, on_screen, covered-wm_zone_insert, length-wm_zone_insert,
}
use fern_night.Software.Wm.Objects.{Desk, put}
use fern_night.Software.Wm.Moving.{
  moved_to, exposed_start, exposed_size, exposed_x, exposed_y, wm_object_move,
}

-- A way on one axis that stays within the coordinates, and is not longer than the screen, as the
-- object.
pub record IsWay (screen at size by : ℕ) : Type 0 where
  pub start_in : (origin ≤ at + by) × (at + by + size < origin + 2 ^ 16)
  pub size_in : size ≤ screen
  pub by_in : (by ≤ origin + screen) × (origin ≤ by + screen)
  pub at_in : at < 2 ^ 16

module _ (screen at size by : ℕ) (h : screen < 2 ^ 15) (way : IsWay screen at size by) where
  moved : moved_to at by ≡ at + by - origin
  unfolding moved_to
  moved = ground arith

  left_behind :
      (p : ℕ)
      → within at size p ≡ true
      → within (moved_to at by) size p ≡ false
      → (within (exposed_start at size by) (exposed_size by) p ≡ true) × (by ≢ origin)
  unfolding exposed_start exposed_size
  left_behind p old new = ground (arith, moved)

  exposed-Fits :
      Fits screen (exposed_start at size by) (exposed_size by) × (exposed_size by < 2 ^ 16)
  unfolding exposed_start exposed_size
  exposed-Fits = (λ a. ground (arith, moved), ground arith)

  moved-Fits : Fits screen (moved_to at by) size
  moved-Fits = λ a. ground (arith, moved)

module _ (d : Desk) (p x y : ℕ) (screen : IsScreen d.framebuffer)
    (way_x : IsWay d.framebuffer.width (d.objects p).x (d.objects p).width x)
    (way_y : IsWay d.framebuffer.height (d.objects p).y (d.objects p).height y) where
  -- The list of zones after the X axis.
  zones_x : List Zone
  zones_x =
      if x == origin
      then d.zones
      else wm_zone_insert d.framebuffer d.zones (exposed_x (d.objects p) x) false

  zones_x_count : length zones_x ≤ length d.zones + 1
  unfolding zones_x
  zones_x_count =
      ground (arith, length-wm_zone_insert d.framebuffer d.zones (exposed_x (d.objects p) x) false)

  covered_x :
      (px py : ℕ)
      → length d.zones < zone_limit
      → covered zones_x px py ≡ (
          covered d.zones px py
          || (not (x == origin)
              && (covers (exposed_x (d.objects p) x) px py && on_screen d.framebuffer px py)))
  unfolding zones_x exposed_x
  covered_x px py room =
      let o = d.objects p in
      let (fits, small) = exposed-Fits d.framebuffer.width o.x o.width x screen.width_in way_x in
      ground (
        arith,
        covered-wm_zone_insert d.framebuffer (exposed_x o x) false screen small
            (omega (arith, way_y.size_in, screen.height_in)) fits
            (λ a. omega (arith, way_y.size_in)) d.zones px py room,
      )

  covered_y :
      (px py : ℕ)
      → length zones_x < zone_limit
      → covered (wm_object_move d p x y).zones px py ≡ (
          if has_flag (d.objects p) flag_fixed_xy
          then covered d.zones px py
          else (covered zones_x px py
              || (not (y == origin)
                  && (covers (exposed_y (d.objects p) x y) px py
                      && on_screen d.framebuffer px py))))
  unfolding zones_x wm_object_move exposed_y
  covered_y px py room =
      let o = d.objects p in
      let (fits, small) = exposed-Fits d.framebuffer.height o.y o.height y screen.height_in way_y in
      ground (
        arith,
        covered-wm_zone_insert d.framebuffer (exposed_y o x y) false screen
            (omega (arith, way_x.size_in, screen.width_in)) small
            (moved-Fits d.framebuffer.width o.x o.width x screen.width_in way_x) fits zones_x px py
            room,
      )

  moved_contains :
      (px py : ℕ)
      → has_flag (d.objects p) flag_fixed_xy ≡ false
      → contains ((wm_object_move d p x y).objects p) px py ≡ (
          within (moved_to (d.objects p).x x) (d.objects p).width px
          && within (moved_to (d.objects p).y y) (d.objects p).height py)
  unfolding wm_object_move put
  moved_contains px py free = ground arith

  -- On a screen with sizes of 15 bits, let an object not be fixed, and on each axis let the object
  -- be no longer than the screen, and its way be no longer than the screen and stay within the
  -- coordinates. If the list of zones has room for two, then after the move it still covers what it
  -- covered on the screen, and it covers each point on the screen that the object covered before
  -- the move and does not cover after it.
  pub covered-wm_object_move :
      (px py : ℕ)
      → has_flag (d.objects p) flag_fixed_xy ≡ false
      → length d.zones + 1 < zone_limit
      → on_screen d.framebuffer px py ≡ true
      → (covered d.zones px py
          || (contains (d.objects p) px py
              && not (contains ((wm_object_move d p x y).objects p) px py)))
        ≡ true
      → covered (wm_object_move d p x y).zones px py ≡ true
  unfolding exposed_x exposed_y
  covered-wm_object_move px py free room shown old =
      let o = d.objects p in
      ground (
        arith,
        moved_contains px py free,
        covered_y px py (omega (arith, zones_x_count)),
        covered_x px py (omega arith),
        left_behind d.framebuffer.width o.x o.width x screen.width_in way_x px,
        left_behind d.framebuffer.height o.y o.height y screen.height_in way_y py,
      )
