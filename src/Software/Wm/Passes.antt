-- ===== src/Software/Wm/Passes.antt =====
-- wm_object of software/wm/object.c, one pass over the list of objects, and the main loop of
-- software/wm.c without events; wm_sync of software/wm/sync.c.
pub mod Retire
use fern_night.Prelude.{
  ℕ, zero, suc, ◌+◌, ◌-◌, ◌*◌, ◌%◌, ◌^◌, bit_and, Bool, true, false, not, ◌&&◌, ◌||◌, Option, none,
  some, List, [], ◌∷◌, length, get_elem?, ltb, ◌==◌, if◌then◌else◌,
}
use fern_night.Software.Wm.{
  Object, Framebuffer, origin, has_flag, set_flag, clear_flag, toggle_flag, zone_of, flag_flush,
  flag_visible, flag_hide, flag_destroy,
}
use fern_night.Software.Wm.Fill.{wm_fill}
use fern_night.Software.Wm.Zones.{wm_zone_insert, wm_zone}
use fern_night.Software.Wm.Objects.{Desk, put, wm_object_remove, wm_object_activate}

-- `WM_DESCRIPTOR_FLAG_*`
abbrev pub descriptor_flush : ℕ
descriptor_flush = 2 ^ 0

abbrev pub descriptor_minimize : ℕ
descriptor_minimize = 2 ^ 1

abbrev pub has_descriptor_flag : Object → ℕ → Bool
has_descriptor_flag o flag = not (bit_and o.descriptor_flags flag == 0)

-- The descriptor's flags have 8 bits.
pub clear_descriptor_flag : ℕ → Object → Object
clear_descriptor_flag flag o = record o {
  descriptor_flags = bit_and o.descriptor_flags (2 ^ 8 - 1 - flag);
}

-- An object written, and the space under it queued.
pub recycle : Desk → ℕ → Object → Desk
recycle d p o = record d {
  objects = put d.objects p o;
  zones = wm_zone_insert d.framebuffer d.zones (zone_of o) false;
}

-- "one of objects was modified"
unfoldable pub notify_taskbar : Desk → Desk
notify_taskbar d = record d { taskbar_semaphore = true }

-- The object is asked to hide, has an update, or is to be removed.
pub update : Desk → ℕ → Desk
update d p =
    let o = d.objects p in
    if has_descriptor_flag o descriptor_minimize
    then notify_taskbar (
        wm_object_activate (
          recycle d p (
            clear_descriptor_flag descriptor_minimize
              (toggle_flag flag_hide (clear_flag flag_visible o)))))
    else if has_flag o flag_hide
        || (has_flag o flag_visible
            && (has_flag o flag_flush || has_descriptor_flag o descriptor_flush))
    then recycle d p
        (clear_descriptor_flag descriptor_flush (clear_flag flag_flush (toggle_flag flag_hide o)))
    else if has_flag o flag_destroy && has_flag o flag_visible
    then wm_object_activate (recycle d p (clear_flag flag_visible o))
    else if has_flag o flag_destroy
    then wm_object_remove d p
    else d

-- "process owning object is still active?"; `alive` is lib_sys_task_status.
pub reap : (ℕ → Bool) → Desk → ℕ → Desk
reap alive d p =
    let o = d.objects p in
    if alive o.pid
    then d
    else if has_flag o flag_destroy
    then notify_taskbar (wm_object_activate (wm_object_remove d p))
    else record d {
      objects =
          put d.objects p (set_flag flag_destroy (clear_flag flag_visible (set_flag flag_hide o)));
    }

pub visit : (ℕ → Bool) → Desk → ℕ → Desk
visit alive d p = reap alive (update d p) p

-- `for( i = 0; i < wm_list_count; i++ )`, on fuel. The list gets no longer.
pub pass : ℕ → (ℕ → Bool) → ℕ → Desk → Desk
pass zero alive i d = d
pass (suc fuel) alive i d = elim (get_elem? d.list i) [
  | none ↦ d
  | some p ↦ pass fuel alive (i + 1) (visit alive d p)
]

pub wm_object : (ℕ → Bool) → Desk → Desk
wm_object alive d = pass (length d.list) alive 0 d

-- `left` pixels from `pixel` on copied.
pub copy_pixels : ℕ → ℕ → (ℕ → ℕ) → (ℕ → ℕ) → ℕ → ℕ
copy_pixels zero pixel source target = target
copy_pixels (suc left) pixel source target =
    copy_pixels left (pixel + 1) source (λ i. if i == pixel then source i else target i)

-- The framebuffer, and the memory of the graphics card.
pub wm_sync : Framebuffer → (ℕ → ℕ) → Framebuffer × (ℕ → ℕ)
wm_sync f card = if bit_and f.flags flag_flush == 0 then (f, card) else (
  record f { flags = bit_and f.flags (2 ^ 16 - 1 - flag_flush) },
  copy_pixels (f.width * f.height) 0 f.pixels card,
)

-- A round of the main loop after the events.
pub round : (ℕ → Bool) → Desk → (ℕ → ℕ) → Desk × (ℕ → ℕ)
round alive d card =
    let d = wm_object alive d in
    let (zones, filled) =
      wm_fill d.objects (wm_zone d.framebuffer d.objects d.list d.zones) d.framebuffer in
    let (f, card) = wm_sync filled card in (record d { zones = zones; framebuffer = f }, card)
