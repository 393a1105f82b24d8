-- ===== src/Software/Wm.antt =====
-- software/wm: the window manager. Coordinates are int16_t and kept with 2 ^ 15 added, so that their
-- order is that of numbers; a pointer to an object is a number that is not 0 (EMPTY).
pub mod Zones
pub mod Fill
pub mod Redraw
pub mod Objects
pub mod Moving
pub mod Flags
pub mod Passes
pub mod Event
pub mod Input
pub mod Tests
use fern_night.Prelude.{
  ℕ, ◌+◌, ◌-◌, ◌*◌, ◌%◌, ◌^◌, bit_and, Bool, bit_or, not, List, if◌then◌else◌, ◌==◌,
}

-- The coordinate 0.
abbrev pub origin : ℕ
origin = 2 ^ 15

-- `(int16_t)` of a 16-bit size.
abbrev pub int16 : ℕ → ℕ
int16 n = (n + origin) % 2 ^ 16

-- `n -= k` of 16 bits, for a `k` of an int that is not negative and below 2 ^ 17.
abbrev pub sub16 : ℕ → ℕ → ℕ
sub16 n k = (n + 2 ^ 17 - k) % 2 ^ 16

-- `WM_ZONE_limit`
abbrev pub zone_limit : ℕ
zone_limit = 1020

-- `WM_OBJECT_FLAG_*`
abbrev pub flag_flush : ℕ
flag_flush = 2 ^ 0

abbrev pub flag_visible : ℕ
flag_visible = 2 ^ 1

abbrev pub flag_fixed_xy : ℕ
flag_fixed_xy = 2 ^ 2

abbrev pub flag_fixed_z : ℕ
flag_fixed_z = 2 ^ 3

abbrev pub flag_fragile : ℕ
flag_fragile = 2 ^ 4

abbrev pub flag_arbiter : ℕ
flag_arbiter = 2 ^ 5

abbrev pub flag_hide : ℕ
flag_hide = 2 ^ 6

abbrev pub flag_destroy : ℕ
flag_destroy = 2 ^ 8

abbrev pub flag_cursor : ℕ
flag_cursor = 2 ^ 10

abbrev pub flag_menu : ℕ
flag_menu = 2 ^ 11

abbrev pub flag_exist : ℕ
flag_exist = 2 ^ 14

-- `struct WM_STRUCTURE_OBJECT`. `pixels` are the words at `base_address`, and `descriptor_flags`,
-- `pointer_x` and `pointer_y` are fields of the descriptor in front of them.
pub record Object : Type 0 where
  pub x : ℕ
  pub y : ℕ
  pub width : ℕ
  pub height : ℕ
  pub pixels : ℕ → ℕ
  pub size_byte : ℕ
  pub id : ℕ
  pub flags : ℕ
  pub length : ℕ
  pub name : ℕ → ℕ
  pub pid : ℕ
  pub descriptor_flags : ℕ
  pub pointer_x : ℕ
  pub pointer_y : ℕ

-- `struct WM_STRUCTURE_ZONE`
pub record Zone : Type 0 where
  pub x : ℕ
  pub y : ℕ
  pub width : ℕ
  pub height : ℕ
  pub object_address : ℕ

-- `wm_object_framebuffer`, as far as zones need it.
pub record Framebuffer : Type 0 where
  pub width : ℕ
  pub height : ℕ
  pub flags : ℕ
  pub pixels : ℕ → ℕ

abbrev pub has_flag : Object → ℕ → Bool
has_flag object flag = not (bit_and object.flags flag == 0)

-- `flags |= flag` and `flags &= ~flag` on 16 bits
abbrev pub set_flag : ℕ → Object → Object
set_flag flag object = record object { flags = bit_or object.flags flag }

abbrev pub clear_flag : ℕ → Object → Object
clear_flag flag object = record object { flags = bit_and object.flags (2 ^ 16 - 1 - flag) }

-- `flags ^= flag`, for a single flag
abbrev pub toggle_flag : ℕ → Object → Object
toggle_flag flag object =
    if has_flag object flag then clear_flag flag object else set_flag flag object

-- `(struct WM_STRUCTURE_ZONE *) object`; such zones are inserted without their object.
abbrev pub zone_of : Object → Zone
zone_of o = record { x = o.x; y = o.y; width = o.width; height = o.height; object_address = 0 }
