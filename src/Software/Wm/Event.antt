-- ===== src/Software/Wm/Event.antt =====
-- software/wm/event.c and software/wm/ipc.c: messages, keys and the mouse. `none` is a read through
-- the pointer EMPTY, or of an object that wm_object_find reads behind its list.
pub mod Windows
use fern_night.Prelude.{
  ℕ, zero, suc, ◌+◌, ◌-◌, ◌*◌, ◌/◌, ◌%◌, ◌^◌, bit_and, bit_or, Bool, true, false, not, ◌&&◌, ◌||◌,
  Option, none, some, List, [], ◌∷◌, min, ltb, leb, ◌==◌, if◌then◌else◌,
}
use fern_night.Software.Wm.{
  Object, Framebuffer, origin, has_flag, set_flag, clear_flag, zone_of, flag_flush, flag_visible,
  flag_fixed_z, flag_arbiter, flag_menu,
}
use fern_night.Software.Wm.Zones.{wm_zone_insert}
use fern_night.Software.Wm.Moving.{moved_to, wm_object_move}
use fern_night.Software.Wm.Objects.{
  Desk, put, wm_object_create, wm_object_remove, wm_object_activate, wm_object_move_up,
  wm_object_find, wm_object_by_id, wm_object_fragile,
}
use fern_night.Software.Wm.Passes.{notify_taskbar}

-- What is sent: the properties of a window, a key, the status of the mouse.
pub data Sent : Type 0 where
  properties : (pid id : ℕ) → Sent
  key_to : (pid key : ℕ) → Sent
  mouse_to : (pid status : ℕ) → Sent

-- The requests of `WM_STRUCTURE_IPC`, by `function`.
pub data Request : Type 0 where
  create : (id x y width height : ℕ) → Request
  rename : (id length : ℕ) (name : ℕ → ℕ) → Request
  close : (id : ℕ) → Request
  unknown : Request

-- The state of the handler. `consoles` counts the calls of lib_sys_exec for the console.
pub record Seat : Type 0 where
  pub desk : Desk
  pub pid : ℕ
  pub cursor : ℕ
  pub workbench : ℕ
  pub taskbar : ℕ
  pub selected : ℕ
  pub selected_semaphore : Bool
  pub button_left : Bool
  pub alt_left : ℕ
  pub sent : List Sent
  pub consoles : ℕ

-- `WM_OBJECT_NAME_length`
abbrev pub name_limit : ℕ
name_limit = 38

-- `sizeof( struct WM_STRUCTURE_DESCRIPTOR )`
abbrev pub descriptor_size : ℕ
descriptor_size = 16

abbrev pub press_alt_left : ℕ
press_alt_left = 0xE038

abbrev pub release_alt_left : ℕ
release_alt_left = 0x0080 + press_alt_left

abbrev pub press_tab : ℕ
press_tab = 0x0009

abbrev pub backslash : ℕ
backslash = 0x5C

abbrev pub status_left_button : ℕ
status_left_button = 2 ^ 0

-- One coordinate in the middle of the workbench.
pub centred : ℕ → ℕ → ℕ
centred outer inner = (outer / 2 + origin + 2 ^ 16 - inner / 2) % 2 ^ 16

-- "create new window?", for the process `source`. `memory` has the words of the space that
-- lib_sys_memory_alloc returns: the four of the descriptor, and behind them the pixels.
pub create_window : (ℕ → ℕ) → Seat → ℕ → ℕ → ℕ → ℕ → ℕ → ℕ → Option Seat
create_window memory s source id x y width height =
    let d = s.desk in
    let parent = wm_object_by_id d.objects d.list id in
    let at_x =
      if parent == 0
      then centred (d.objects s.workbench).width width
      else moved_to x (d.objects parent).x in
    let at_y =
      if parent == 0
      then centred (d.objects s.workbench).height height
      else moved_to y (d.objects parent).y in
    let (p, made) = wm_object_create d at_x at_y width height (bit_or flag_visible flag_flush) in
    if p == 0
    then none
    else let o = made.objects p in
      some (record s {
        desk = notify_taskbar (record made {
          objects = put made.objects p (record o {
            pid = source;
            size_byte = (o.size_byte + descriptor_size) % 2 ^ 32;
            pixels = λ i. memory (i + 4);
            descriptor_flags = memory 0 % 2 ^ 8;
            pointer_x = memory 1 % 2 ^ 16;
            pointer_y = memory 1 / 2 ^ 16 % 2 ^ 16;
          });
        });
        sent = properties source o.id ∷ s.sent;
      })

-- The bytes before `length` replaced.
pub copy_name : ℕ → (ℕ → ℕ) → (ℕ → ℕ) → ℕ → ℕ
copy_name length from name i = if ltb i length then from i else name i

pub rename_window : Seat → ℕ → ℕ → (ℕ → ℕ) → Option Seat
rename_window s id length name =
    let d = s.desk in
    let p = wm_object_by_id d.objects d.list id in
    let o = d.objects p in
    let short = min length name_limit in
    if p == 0
    then some s
    else some (record s {
      desk = notify_taskbar (record d {
        objects = put d.objects p (record o { length = short; name = copy_name short name o.name });
      });
    })

-- "it's our window?"
pub closed : Desk → ℕ → Desk
closed d p = notify_taskbar (
    wm_object_activate (
      wm_object_remove
        (record d { zones = wm_zone_insert d.framebuffer d.zones (zone_of (d.objects p)) false })
        p))

-- "close window?", for the process `source`
pub close_window : Seat → ℕ → ℕ → Option Seat
close_window s source id =
    let d = s.desk in
    let p = wm_object_by_id d.objects d.list id in
    if p == 0
    then none
    else if source == (d.objects p).pid
    then some (record s { desk = closed d p })
    else some s

-- "check message type"
pub receive : (ℕ → ℕ) → Seat → ℕ → Request → Option Seat
receive memory s source (create id x y width height) =
    create_window memory s source id x y width height
receive memory s source (rename id length name) = rename_window s id length name
receive memory s source (close id) = close_window s source id
receive memory s source unknown = some s
