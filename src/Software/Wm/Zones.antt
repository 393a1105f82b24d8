-- ===== src/Software/Wm/Zones.antt =====
-- software/wm/zone.c. The list of zones has `wm_zone_count` entries.
pub mod Clip
pub mod Insert
pub mod Split
use fern_night.Prelude.{
  ℕ, zero, suc, ◌+◌, ◌-◌, ◌%◌, ◌^◌, Bool, true, false, not, ◌&&◌, ◌||◌, Option, none, some, List,
  [], ◌∷◌, ◌++◌, length, get_elem?, ltb, leb, ◌==◌, if◌then◌else◌,
}
use fern_night.Software.Wm.{
  Object, Zone, Framebuffer, origin, int16, sub16, zone_limit, flag_visible, has_flag,
}

-- "truncate the portions of the zone that go beyond the screen space on the X axis"; the Y axis has
-- the same code.
pub truncated_start : ℕ → ℕ
truncated_start at = if ltb at origin then origin else at

pub truncated_size : ℕ → ℕ → ℕ → ℕ
truncated_size screen at size =
    if ltb at origin
    then sub16 size (origin - at)
    else if leb (int16 screen) (at + size)
    then sub16 size (at + size - int16 screen)
    else size

pub truncated : Framebuffer → Zone → Bool → Zone
truncated f ptr parsed = record {
  x = truncated_start ptr.x;
  y = truncated_start ptr.y;
  width = truncated_size f.width ptr.x ptr.width;
  height = truncated_size f.height ptr.y ptr.height;
  object_address = if parsed then ptr.object_address else 0;
}

-- "zone is in framebuffer space?"
pub is_outside : Framebuffer → Zone → Bool
is_outside f ptr =
    leb (int16 f.width) ptr.x
    || (leb (int16 f.height) ptr.y
        || (leb (ptr.x + ptr.width) origin || leb (ptr.y + ptr.height) origin))

pub wm_zone_insert : Framebuffer → List Zone → Zone → Bool → List Zone
wm_zone_insert f zones ptr parsed =
    if is_outside f ptr || leb zone_limit (length zones)
    then zones
    else zones ++ (truncated f ptr parsed ∷ [])

-- "zone and object overlap?"
unfoldable pub overlap : Zone → Object → Bool
overlap z o =
    not (leb (o.x + o.width) z.x)
    && (not (leb (o.y + o.height) z.y)
        && (not (leb (z.x + z.width) o.x) && not (leb (z.y + z.height) o.y)))

-- The zone after its left or top edge was corrected, on one axis: the start and the size.
pub correct_start : ℕ → ℕ → ℕ
correct_start from at = if ltb at from then from else at

pub correct_size : ℕ → ℕ → ℕ → ℕ
correct_size from at size = if ltb at from then sub16 size (from - at) else size

-- The size after the right or lower edge was corrected; the object ends at `until`.
pub cut_size : ℕ → ℕ → ℕ → ℕ
cut_size until at size = if ltb until (at + size) then sub16 size (at + size - until) else size

-- "temporary zone", for the object at the pointer `p`
pub fragment : Zone → Object → ℕ → Zone
fragment z o p =
    let x = correct_start o.x z.x in
    let y = correct_start o.y z.y in
    record {
      x = x;
      y = y;
      width = cut_size (o.x + o.width) x (correct_size o.x z.x z.width);
      height = cut_size (o.y + o.height) y (correct_size o.y z.y z.height);
      object_address = p;
    }

-- "analyze the zone against each object in the list"
pub analyze : Framebuffer → (ℕ → Object) → Zone → List ℕ → List Zone → List Zone
analyze f objects z [] zones = zones
analyze f objects z (p ∷ list) zones =
    let o = objects p in
    analyze f objects z list (
      if has_flag o flag_visible && overlap z o
      then wm_zone_insert f zones (fragment z o p) true
      else zones)

-- `for( z = 0; z < wm_zone_count; z++ )`, with `wm_zone_count` growing; on fuel.
pub process : ℕ → Framebuffer → (ℕ → Object) → List ℕ → ℕ → List Zone → List Zone
process zero f objects list z zones = zones
process (suc fuel) f objects list z zones = elim (get_elem? zones z) [
  | none ↦ zones
  | some zone ↦
      process fuel f objects list (z + 1)
        (if zone.object_address == 0 then analyze f objects zone list zones else zones)
]

-- The list never has more than `WM_ZONE_limit` entries, so that is fuel enough.
pub wm_zone : Framebuffer → (ℕ → Object) → List ℕ → List Zone → List Zone
wm_zone f objects list zones = process zone_limit f objects list 0 zones
