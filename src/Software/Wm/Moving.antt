-- ===== src/Software/Wm/Moving.antt =====
-- wm_object_move of software/wm/object.c.
pub mod Exposed
use fern_night.Prelude.{ℕ, ◌+◌, ◌-◌, ◌%◌, ◌^◌, Bool, true, false, List, ltb, ◌==◌, if◌then◌else◌}
use fern_night.Software.Wm.{Object, Zone, origin, has_flag, set_flag, flag_flush, flag_fixed_xy}
use fern_night.Software.Wm.Zones.{wm_zone_insert}
use fern_night.Software.Wm.Objects.{Desk, put}

-- `object -> x += x` of int16_t, unless the offset is 0
unfoldable pub moved_to : ℕ → ℕ → ℕ
moved_to at by = if by == origin then at else (at + by + 2 ^ 15) % 2 ^ 16

-- Where the exposed zone starts and how long it is, on one axis, for an object that was at `at`.
pub exposed_start : ℕ → ℕ → ℕ → ℕ
exposed_start at size by = if ltb origin by then at else (moved_to at by + size) % 2 ^ 16

pub exposed_size : ℕ → ℕ
exposed_size by = if ltb origin by then by - origin else origin - by

pub exposed_x : Object → ℕ → Zone
exposed_x o x = record {
  x = exposed_start o.x o.width x;
  y = o.y;
  width = exposed_size x;
  height = o.height;
  object_address = 0;
}

-- The object is at its new position on the X axis.
pub exposed_y : Object → ℕ → ℕ → Zone
exposed_y o x y = record {
  x = moved_to o.x x;
  y = exposed_start o.y o.height y;
  width = o.width;
  height = exposed_size y;
  object_address = 0;
}

unfoldable pub wm_object_move : Desk → ℕ → ℕ → ℕ → Desk
wm_object_move d p x y =
    let o = d.objects p in
    if has_flag o flag_fixed_xy
    then d
    else let zones =
        if x == origin
        then d.zones
        else wm_zone_insert d.framebuffer d.zones (exposed_x o x) false in
      record d {
        objects =
            put d.objects p
              (set_flag flag_flush (record o { x = moved_to o.x x; y = moved_to o.y y }));
        zones =
            if y == origin
            then zones
            else wm_zone_insert d.framebuffer zones (exposed_y o x y) false;
      }
