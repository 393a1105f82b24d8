-- ===== src/Software/Wm/Tests.antt =====
-- The theorems on software/wm at a screen of 4 times 3 pixels with a workbench, a window, another
-- window and a cursor.
use fern_night.Prelude.{
  ℕ, ◌+◌, ◌-◌, ◌*◌, ◌%◌, true, false, some, List, [], ◌∷◌, ◌==◌, if◌then◌else◌, ◌≡◌, refl, arith,
}
use fern_night.Software.Wm.{
  Object, Zone, Framebuffer, origin, zone_of, flag_visible, flag_cursor, flag_fixed_z,
}
use fern_night.Software.Wm.Fill.{color_at, wm_fill}
use fern_night.Software.Wm.Fill.Loops.{pixel}
use fern_night.Software.Wm.Fill.Painter.{redrawn, wm_fill-wm_zone}
use fern_night.Software.Wm.Zones.{wm_zone_insert, wm_zone, overlap}
use fern_night.Software.Wm.Zones.Clip.{IsScreen}
use fern_night.Software.Wm.Zones.Insert.{
  covered, on_screen, covered-wm_zone_insert, covers-truncated_both,
}
use fern_night.Software.Wm.Redraw.{redraw, IsRegion}
use fern_night.Software.Wm.Objects.{
  Desk, put, is_hit, wm_object_insert, wm_object_move_up, wm_object_find, remove_entry,
}
use fern_night.Software.Wm.Objects.Find.{redraw-wm_object_find}
use fern_night.Software.Wm.Objects.Stacking.{is_layered, stacking}
use fern_night.Software.Wm.Moving.{moved_to, wm_object_move}
use fern_night.Software.Wm.Moving.Exposed.{covered-wm_object_move}
use fern_night.Software.Wm.Passes.{visit}
use fern_night.Software.Wm.Passes.Retire.{retire}
use fern_night.Software.Wm.Event.{Seat, close, receive}
use fern_night.Software.Wm.Event.Windows.{receive-close_own}
use fern_night.Software.Wm.Input.{Mouse, handle_mouse, button, delta, point_all, move_cursor}
use fern_night.Software.Wm.Input.Cursor.{handle_mouse-cursor}

abbrev box : ℕ → ℕ → ℕ → ℕ → ℕ → Object
box x y size flags color = record {
  x = origin + x;
  y = origin + y;
  width = size;
  height = size;
  pixels = λ i. color;
  size_byte = size * size * 4;
  id = color % 256;
  flags = flags;
  length = 0;
  name = λ i. 0;
  pid = color % 256 + 10;
  descriptor_flags = 0;
  pointer_x = 0;
  pointer_y = 0;
}

-- The workbench 1, the windows 2 and 3, and the cursor 4.
abbrev objects : ℕ → Object
objects p =
    if p == 1
    then box 0 0 4 (flag_visible + flag_fixed_z) 0xFF000001
    else if p == 2
    then box 1 1 2 flag_visible 0xFF000002
    else if p == 3
    then box 0 0 2 flag_visible 0xFF000003
    else if p == 4
    then box 3 2 1 (flag_visible + flag_cursor) 0xFF000004
    else box 0 0 1 0 0

abbrev list : List ℕ
list = 1 ∷ 2 ∷ 3 ∷ 4 ∷ []

abbrev screen : Framebuffer
screen = record { width = 4; height = 3; flags = 0; pixels = λ i. 0 }

abbrev region : Zone
region = record { x = origin + 1; y = origin + 1; width = 2; height = 5; object_address = 0 }

abbrev flat : Zone
flat = record { x = origin + 1; y = origin + 1; width = 2; height = 2; object_address = 0 }

abbrev desk : Desk
desk = record {
  objects = objects;
  list = list;
  zones = [];
  framebuffer = screen;
  active = 3;
  last_id = 4;
  object_semaphore = false;
  taskbar_semaphore = false;
  released = [];
}

abbrev seat : Seat
seat = record {
  desk = desk;
  pid = 11;
  cursor = 4;
  workbench = 1;
  taskbar = 1;
  selected = 2;
  selected_semaphore = false;
  button_left = false;
  alt_left = 0;
  sent = [];
  consoles = 0;
}

screen-IsScreen : IsScreen screen
screen-IsScreen = omega arith

wm_fill-wm_zone_example :
    pixel (wm_fill objects (wm_zone screen objects list (flat ∷ [])) screen).1 1 1
    ≡ redrawn objects list (flat ∷ []) 1 1 0
unfolding overlap
wm_fill-wm_zone_example =
    wm_fill-wm_zone objects 1 1 list (flat ∷ []) screen screen-IsScreen (omega arith) (omega arith)
      (omega arith) (omega arith)

region-IsRegion : IsRegion screen region
region-IsRegion = record {
  wide = omega arith;
  high = omega arith;
  fits_x = λ h. omega arith;
  fits_y = λ h. omega arith;
}

redraw-wm_object_find_example : pixel (redraw objects list region screen) 2 2 ≡ 0xFF000002
unfolding wm_object_find color_at is_hit
redraw-wm_object_find_example =
    redraw-wm_object_find objects list region screen 2 2 2 screen-IsScreen region-IsRegion
      (omega arith) (omega arith) (omega arith) (omega arith) refl refl
      (refl, (refl, (refl, (refl, tt)))) refl

covered-wm_zone_insert_example :
    covered (wm_zone_insert screen [] region false) (origin + 2) (origin + 2) ≡ true
covered-wm_zone_insert_example =
    covered-wm_zone_insert screen region false screen-IsScreen (omega arith) (omega arith)
      region-IsRegion.fits_x region-IsRegion.fits_y [] (origin + 2) (origin + 2) (omega arith)

-- A zone of 10 columns from the column -3 on.
abbrev wide : Zone
wide = record { x = origin - 3; y = origin + 1; width = 10; height = 2; object_address = 0 }

covers-truncated_both_example :
    (covered (wm_zone_insert screen [] wide false) (origin + 4) (origin + 1) ≡ true)
    × (on_screen screen (origin + 4) (origin + 1) ≡ false)
covers-truncated_both_example =
    covers-truncated_both screen wide false [] screen-IsScreen (omega arith) (omega arith)
      (omega arith) (omega arith) (omega arith) (omega arith) (omega arith)

stacking_example :
    (is_layered objects (wm_object_insert objects 5 list) ≡ true)
    × (is_layered objects (wm_object_move_up objects 5 list) ≡ true)
    × (is_layered objects (remove_entry 5 list) ≡ true)
stacking_example = stacking objects 5 list refl

-- The window 2 goes one column to the left.
covered-wm_object_move_example :
    covered (wm_object_move desk 2 (origin - 1) origin).zones (origin + 2) (origin + 1) ≡ true
unfolding wm_object_move moved_to put
covered-wm_object_move_example =
    covered-wm_object_move desk 2 (origin - 1) origin screen-IsScreen (omega arith) (omega arith)
      (origin + 2) (origin + 1) refl (omega arith) refl refl

retire_example :
    ((visit (λ pid. false) (visit (λ pid. false) desk 2) 2).list ≡ remove_entry 2 list)
    × (((visit (λ pid. false) (visit (λ pid. false) desk 2) 2).objects 2).flags ≡ 0)
    × ((visit (λ pid. false) (visit (λ pid. false) desk 2) 2).released ≡ 2 ∷ [])
retire_example = retire (λ pid. false) desk 2 refl refl

receive-close_own_example :
    (t : Seat) × (receive (λ i. 0) seat 12 (close 2) ≡ some t)
    × (t.desk.list ≡ 1 ∷ 3 ∷ 4 ∷ [])
    × (t.desk.released ≡ 2 ∷ [])
    × (t.desk.zones ≡ wm_zone_insert screen [] (zone_of (objects 2)) false)
    × ((q : ℕ)
        → t.desk.objects q ≡ (if q == 2 then record (objects 2) { flags = 0 } else objects q))
receive-close_own_example =
    receive-close_own (λ i. 0) seat 12 2 2 (1 ∷ []) (3 ∷ 4 ∷ []) (omega arith) refl (omega arith)
      refl refl

-- The mouse at the left edge, no button pressed.
abbrev mouse : Mouse
mouse = record { x = 0; y = 1; status = 0 }

abbrev moved : Seat
moved =
    let dx = delta 0 (origin + 3) in
    let dy = delta 1 (origin + 2) in
    move_cursor
      (record seat {
        desk = record desk { objects = point_all (objects 4) dx dy list objects };
        button_left = false;
        selected_semaphore = false;
      })
      dx dy

handle_mouse-cursor_example :
    ((moved.desk.objects 4).x ≡ origin) × ((moved.desk.objects 4).y ≡ origin + 1)
unfolding handle_mouse button
handle_mouse-cursor_example =
    handle_mouse-cursor seat moved mouse (omega arith) (omega arith) (omega arith) (omega arith)
      refl (omega arith) refl
