-- ===== src/Software/Wm/Objects.antt =====
-- software/wm/object.c: the table of objects and the list of those that are shown, back to front.
-- The list holds the entries of `wm_list_base_address` before `wm_list_count`; the others are 0.
-- The pointer to the record `i` of the table is `i + 1`.
pub mod Stacking
pub mod Find
use fern_night.Prelude.{
  ℕ, zero, suc, ◌+◌, ◌-◌, ◌*◌, ◌/◌, ◌%◌, ◌^◌, bit_and, bit_or, Bool, true, false, not, ◌&&◌, ◌||◌,
  Option, none, some, List, [], ◌∷◌, ◌++◌, length, ltb, leb, ◌==◌, if◌then◌else◌,
}
use fern_night.Software.Wm
use fern_night.Software.Wm.{
  Object, Zone, Framebuffer, origin, has_flag, set_flag, clear_flag, zone_of, flag_flush,
  flag_visible, flag_fragile, flag_arbiter, flag_cursor, flag_exist,
}
use fern_night.Software.Wm.Zones.{wm_zone_insert}

-- The variables of software/wm/data.c that the operations on objects use. `released` has the objects
-- whose space lib_sys_memory_release was called for, the last call first.
pub record Desk : Type 0 where
  pub objects : ℕ → Object
  pub list : List ℕ
  pub zones : List Zone
  pub framebuffer : Framebuffer
  pub active : ℕ
  pub last_id : ℕ
  pub object_semaphore : Bool
  pub taskbar_semaphore : Bool
  pub released : List ℕ

-- `WM_OBJECT_limit` and `WM_LIST_limit`
abbrev pub object_limit : ℕ
object_limit = 255

abbrev pub list_limit : ℕ
list_limit = object_limit + 1

-- Writing the object at a pointer.
unfoldable pub put : (ℕ → Object) → ℕ → Object → ℕ → Object
put objects p o q = if q == p then o else objects q

-- Objects that stay in front of the others.
abbrev pub is_upper : Object → Bool
is_upper o = has_flag o flag_arbiter || has_flag o flag_cursor

-- "find an empty space in object array", with the positions left. The loop that shifts the entries
-- leaves them in order.
pub insert_into : ℕ → (ℕ → Object) → ℕ → List ℕ → List ℕ
insert_into zero objects p list = list
insert_into (suc left) objects p [] = p ∷ []
insert_into (suc left) objects p (q ∷ list) =
    if is_upper (objects q) && not (has_flag (objects p) flag_cursor)
    then p ∷ q ∷ list
    else q ∷ insert_into left objects p list

pub wm_object_insert : (ℕ → Object) → ℕ → List ℕ → List ℕ
wm_object_insert objects p list = insert_into list_limit objects p list

-- "move all objects in the list back one position", up to an object that stays in front
pub sink : (ℕ → Object) → ℕ → List ℕ → List ℕ
sink objects p [] = p ∷ []
sink objects p (q ∷ list) = if is_upper (objects q) then p ∷ q ∷ list else q ∷ sink objects p list

pub wm_object_move_up : (ℕ → Object) → ℕ → List ℕ → List ℕ
wm_object_move_up objects p [] = []
wm_object_move_up objects p (q ∷ list) =
    if q == p then sink objects p list else q ∷ wm_object_move_up objects p list

-- The list without the entry of an object; it gets shorter also if the object is not on it.
pub remove_entry : ℕ → List ℕ → List ℕ
remove_entry p [] = []
remove_entry p (q ∷ []) = []
remove_entry p (q ∷ r ∷ list) = if q == p then r ∷ list else q ∷ remove_entry p (r ∷ list)

unfoldable pub wm_object_remove : Desk → ℕ → Desk
wm_object_remove d p = record d {
  list = remove_entry p d.list;
  released = p ∷ d.released;
  objects = put d.objects p (record (d.objects p) { flags = 0 });
  object_semaphore = true;
}

-- The pointer that the loop leaves in `wm_object_active`.
pub activate : (ℕ → Object) → List ℕ → ℕ → ℕ
activate objects [] active = active
activate objects (p ∷ list) active =
    if has_flag (objects p) flag_arbiter
    then active
    else activate objects list (if has_flag (objects p) flag_visible then p else active)

unfoldable pub wm_object_activate : Desk → Desk
wm_object_activate d = record d { active = activate d.objects d.list d.active }

-- "search for empty record in table", from the record `i` on
pub free_record : ℕ → ℕ → (ℕ → Object) → Option ℕ
free_record zero i objects = none
free_record (suc left) i objects =
    if (objects (i + 1)).flags == 0 then some (i + 1) else free_record left (i + 1) objects

-- "[unnamed]"
abbrev pub name_default : List ℕ
name_default = b'[' ∷ b'u' ∷ b'n' ∷ b'n' ∷ b'a' ∷ b'm' ∷ b'e' ∷ b'd' ∷ b']' ∷ []

-- Bytes written from the index `i` on.
pub write_name : (ℕ → ℕ) → ℕ → List ℕ → ℕ → ℕ
write_name name i [] = name
write_name name i (c ∷ text) = write_name (λ j. if j == i then c else name j) (i + 1) text

-- The record of a new object; its size is a product of 32 bits.
pub created : Object → ℕ → ℕ → ℕ → ℕ → ℕ → ℕ → Object
created o id x y width height flags = record o {
  flags = bit_or flags flag_exist;
  x = x;
  y = y;
  width = width;
  height = height;
  size_byte = width * height * 4 % 2 ^ 32;
  id = id;
  pid = 0;
  length = 0;
  name = write_name o.name 0 name_default;
}

-- The pointer to the object, or EMPTY.
pub wm_object_create : Desk → ℕ → ℕ → ℕ → ℕ → ℕ → ℕ × Desk
wm_object_create d x y width height flags = elim (free_record object_limit 0 d.objects) [
  | none ↦ (0, d)
  | some p ↦
      let id = (d.last_id + 1) % 2 ^ 8 in
      let objects = put d.objects p (created (d.objects p) id x y width height flags) in
      (
        p,
        record d {
          objects = objects;
          last_id = id;
          list = wm_object_insert objects p d.list;
          active = p;
        },
      )
]

-- Whether the object at the cursor coordinates is returned.
unfoldable pub is_hit : Object → ℕ → ℕ → Bool → Bool
is_hit o x y hidden =
    (hidden || has_flag o flag_visible)
    && (leb o.x (x + origin)
        && (leb o.y (y + origin)
            && (not (leb (o.x + o.width) (x + origin))
                && (not (leb (o.y + o.height) (y + origin)) && not (has_flag o flag_cursor)))))

-- From the front to the back. The counter of 16 bits is never negative: where no object is hit it
-- goes on at 65535, and entries that are not on the list are read. That is `none`.
unfoldable pub wm_object_find : (ℕ → Object) → List ℕ → ℕ → ℕ → Bool → Option ℕ
wm_object_find objects [] x y hidden = none
wm_object_find objects (p ∷ list) x y hidden = elim (wm_object_find objects list x y hidden) [
  | none ↦ if is_hit (objects p) x y hidden then some p else none
  | some q ↦ some q
]

-- The pointer, or EMPTY.
pub wm_object_by_id : (ℕ → Object) → List ℕ → ℕ → ℕ
wm_object_by_id objects [] id = 0
wm_object_by_id objects (p ∷ list) id =
    if (objects p).id == id then p else wm_object_by_id objects list id

-- "the object is fragile?"
unfoldable pub hide_object : Desk → ℕ → Desk
hide_object d p =
    if has_flag (d.objects p) flag_fragile
    then record d {
      objects = put d.objects p (clear_flag flag_visible (d.objects p));
      zones = wm_zone_insert d.framebuffer d.zones (zone_of (d.objects p)) false;
    }
    else d

-- "find all fragile objects", for the rest of the list
unfoldable pub hide_fragile : List ℕ → Desk → Desk
hide_fragile [] d = d
hide_fragile (p ∷ list) d = hide_fragile list (hide_object d p)

unfoldable pub wm_object_fragile : Desk → Desk
wm_object_fragile d = hide_fragile d.list d
