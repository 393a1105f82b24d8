-- ===== src/Software/Wm/Input.antt =====
-- software/wm/event.c: the keyboard and the mouse, and the handler as a whole; software/wm/ipc.c.
pub mod Cursor
use fern_night.Prelude.{
  ℕ, zero, suc, ◌+◌, ◌-◌, ◌*◌, ◌/◌, ◌%◌, ◌^◌, bit_and, bit_or, Bool, true, false, not, ◌&&◌, ◌||◌,
  Option, none, some, List, [], ◌∷◌, min, ltb, leb, ◌==◌, if◌then◌else◌,
}
use fern_night.Software.Wm.{
  Object, Framebuffer, origin, has_flag, set_flag, zone_of, flag_flush, flag_visible, flag_fixed_z,
  flag_arbiter, flag_menu,
}
use fern_night.Software.Wm.Zones.{wm_zone_insert}
use fern_night.Software.Wm.Moving.{wm_object_move}
use fern_night.Software.Wm.Objects.{
  Desk, put, wm_object_activate, wm_object_move_up, wm_object_find, wm_object_fragile,
}
use fern_night.Software.Wm.Passes.{notify_taskbar}
use fern_night.Software.Wm.Event.{
  Sent, key_to, mouse_to, Request, Seat, press_alt_left, release_alt_left, press_tab, backslash,
  status_left_button, receive,
}

-- A pointer position and the buttons, as lib_sys_mouse tells them.
pub record Mouse : Type 0 where
  pub x : ℕ
  pub y : ℕ
  pub status : ℕ

pub wm_ipc_keyboard : Seat → ℕ → Seat
wm_ipc_keyboard s key =
    if s.desk.active == 0
    then s
    else record s { sent = key_to (s.desk.objects s.desk.active).pid key ∷ s.sent }

pub wm_ipc_mouse : Seat → ℕ → Seat
wm_ipc_mouse s status =
    if s.selected == 0
    then s
    else record s { sent = mouse_to (s.desk.objects s.selected).pid status ∷ s.sent }

-- "search array after object to activate": the first that is not ours, and no arbiter or menu
pub next_window : ℕ → (ℕ → Object) → List ℕ → Option ℕ
next_window pid objects [] = none
next_window pid objects (p ∷ list) =
    if (objects p).pid == pid
      || not (bit_and (objects p).flags (bit_or flag_arbiter flag_menu) == 0)
    then next_window pid objects list
    else some p

-- The object shown as the top one.
pub raise : Desk → ℕ → Desk
raise d p = record d {
  list = wm_object_move_up d.objects p d.list;
  objects = put d.objects p (set_flag (bit_or flag_visible flag_flush) (d.objects p));
}

pub switch_window : Seat → Seat
switch_window s = elim (next_window s.pid s.desk.objects s.desk.list) [
  | none ↦ s
  | some p ↦ record s { desk = notify_taskbar (wm_object_activate (raise s.desk p)) }
]

-- "key status change?"
pub press : Seat → ℕ → Seat
press s key =
    if key == 0
    then s
    else if key == backslash
    then record s { consoles = s.consoles + 1 }
    else wm_ipc_keyboard
        (if key == press_alt_left
          then record s { alt_left = press_alt_left }
          else if key == release_alt_left
          then record s { alt_left = release_alt_left }
          else if key == press_tab && s.alt_left == press_alt_left
          then switch_window s
          else s)
        key

-- `(int16_t)` of the way from a coordinate to the mouse
pub delta : ℕ → ℕ → ℕ
delta mouse at = (mouse + 2 ^ 16 - at) % 2 ^ 16

-- `pointer_x`, for the cursor at `at` that moves by `by`; the lower limit is tested with `by_low`.
pub pointer : ℕ → ℕ → ℕ → ℕ → ℕ → ℕ
pointer at by_low by start size =
    if leb (start + origin) (at + by_low) && ltb (at + by) (start + size + origin)
    then (at + by + origin + 2 ^ 16 - start) % 2 ^ 16
    else 2 ^ 16 - 1

-- The descriptor of an object after "update cursor position inside objects"
pub pointed : Object → ℕ → ℕ → Object → Object
pointed cursor dx dy o =
    if has_flag o flag_visible
    then record o {
      pointer_x = pointer cursor.x dy dx o.x o.width;
      pointer_y = pointer cursor.y dy dy o.y o.height;
    }
    else o

pub point_all : Object → ℕ → ℕ → List ℕ → (ℕ → Object) → ℕ → Object
point_all cursor dx dy [] objects = objects
point_all cursor dx dy (p ∷ list) objects =
    point_all cursor dx dy list (put objects p (pointed cursor dx dy (objects p)))

-- Whether the cursor is on the header of an object, `LIB_SYS_INTERFACE_HEADER_height_in_pixel` high.
pub on_header : Object → Object → ℕ → ℕ → Bool
on_header cursor o dx dy =
    ltb (cursor.y + origin) (o.y + dy + 20) && ltb (cursor.x + origin + 20 * 3) (o.x + dx + o.width)

-- "the object can be moved along the Z axis and left ALT key is not holded?"
pub lift : Seat → Desk → ℕ → Desk
lift s d p =
    let objects = put d.objects p (set_flag flag_flush (d.objects p)) in
    if not (has_flag (d.objects p) flag_fixed_z) && not (s.alt_left == press_alt_left)
    then record d {
      list = wm_object_move_up d.objects p d.list;
      objects = put objects s.cursor (set_flag flag_flush (objects s.cursor));
    }
    else d

-- What a press of the left button does to the object under the cursor, up to the message.
pub choose : Seat → ℕ → ℕ → ℕ → Seat
choose s p dx dy =
    let d = lift s (notify_taskbar s.desk) p in
    record s {
      desk =
          if not (s.alt_left == press_alt_left) && not (p == s.taskbar)
          then record d { active = p }
          else d;
      button_left = true;
      selected = p;
      selected_semaphore =
          on_header (d.objects s.cursor) (d.objects p) dx dy || s.selected_semaphore;
    }

pub select : Seat → ℕ → ℕ → ℕ → Seat
select s p dx dy =
    let t = wm_ipc_mouse (choose s p dx dy) status_left_button in
    if p == s.taskbar then t else record t { desk = wm_object_fragile t.desk }

-- "left mouse button pressed?"
unfoldable pub button : Seat → Mouse → ℕ → ℕ → Option Seat
button s mouse dx dy =
    if bit_and mouse.status status_left_button == 0
    then some (record s { button_left = false; selected_semaphore = false })
    else if s.button_left
    then some s
    else elim (wm_object_find s.desk.objects s.desk.list mouse.x mouse.y false) [
      | none ↦ none
      | some p ↦ some (select s p dx dy)
    ]

-- "move the object along with the cursor pointer"
pub drag : Seat → ℕ → ℕ → Desk → Desk
drag s dx dy d =
    if not (s.selected == 0)
      && (s.button_left
          && ((s.selected_semaphore || s.alt_left == press_alt_left)
              && ltb ((d.objects s.selected).y + dy + 32) ((d.objects s.taskbar).y + origin)))
    then wm_object_move d s.selected dx dy
    else d

-- "update cursor position"
pub cursor_moved : Seat → ℕ → ℕ → Desk
cursor_moved s dx dy =
    let d = s.desk in
    let o = d.objects s.cursor in
    record d {
      zones = wm_zone_insert d.framebuffer d.zones (zone_of o) false;
      objects = put d.objects s.cursor (
          set_flag flag_flush
            (record o { x = (o.x + dx + 2 ^ 15) % 2 ^ 16; y = (o.y + dy + 2 ^ 15) % 2 ^ 16 }));
    }

-- "if cursor pointer movement occurs"
pub move_cursor : Seat → ℕ → ℕ → Seat
move_cursor s dx dy =
    if dx == origin && dy == origin
    then s
    else record s { desk = drag s dx dy (cursor_moved s dx dy) }

unfoldable pub handle_mouse : Seat → Mouse → Option Seat
handle_mouse s mouse =
    let d = s.desk in
    let dx = delta mouse.x (d.objects s.cursor).x in
    let dy = delta mouse.y (d.objects s.cursor).y in
    let t = record s {
      desk = record d { objects = point_all (d.objects s.cursor) dx dy d.list d.objects };
    } in
    elim (button t mouse dx dy) [ none ↦ none | some u ↦ some (move_cursor u dx dy) ]

-- A message with its sender, if there is one, the key, and the mouse.
pub wm_event : (ℕ → ℕ) → Seat → Option (ℕ × Request) → ℕ → Mouse → Option Seat
wm_event memory s none key mouse = handle_mouse (press s key) mouse
wm_event memory s (some (source, request)) key mouse = elim (receive memory s source request) [
  | none ↦ none
  | some t ↦ handle_mouse (press t key) mouse
]
