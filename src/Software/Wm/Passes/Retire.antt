-- ===== src/Software/Wm/Passes/Retire.antt =====
-- Objects of a process that has ended leave the list of wm_object.
use fern_night.Prelude.{ℕ, bit_and, Bool, true, false, ◌∷◌, ◌≡◌, ap, ◌∙◌, arith}
use fern_night.Prelude.Bits.{
  bit_at-lt, bit_at-bit_and, bit_and-pow, bit_at-complement, bit_at-pow_self, bit_at-pow_ne,
}
use fern_night.Software.Wm.{
  Object, zone_of, has_flag, set_flag, clear_flag, toggle_flag, flag_flush, flag_visible, flag_hide,
  flag_destroy,
}
use fern_night.Software.Wm.Zones.{wm_zone_insert}
use fern_night.Software.Wm.Flags.{
  has_flag-set_self, has_flag-set_ne, has_flag-clear_ne, has_flag-toggle_ne,
}
use fern_night.Software.Wm.Objects.{Desk, put, wm_object_remove, wm_object_activate, remove_entry}
use fern_night.Software.Wm.Passes.{
  descriptor_flush, descriptor_minimize, has_descriptor_flag, clear_descriptor_flag, recycle,
  notify_taskbar, update, reap, visit,
}

-- The bits of a descriptor.
minimize_cleared :
    (o : Object)
    → has_descriptor_flag (clear_descriptor_flag descriptor_minimize o) descriptor_minimize ≡ false
unfolding clear_descriptor_flag
minimize_cleared o = ground (
  arith,
  bit_and-pow (bit_and o.descriptor_flags 253) 1,
  bit_at-bit_and o.descriptor_flags 253 1,
  bit_at-complement 8 2 1 (omega arith) (omega arith),
  bit_at-pow_self 1,
)

minimize_kept :
    (o : Object)
    → has_descriptor_flag (clear_descriptor_flag descriptor_flush o) descriptor_minimize
      ≡ has_descriptor_flag o descriptor_minimize
unfolding clear_descriptor_flag
minimize_kept o = ground (
  arith,
  bit_and-pow (bit_and o.descriptor_flags 254) 1,
  bit_and-pow o.descriptor_flags 1,
  bit_at-bit_and o.descriptor_flags 254 1,
  bit_at-complement 8 1 1 (omega arith) (omega arith),
  bit_at-pow_ne 0 1 (omega arith),
  bit_at-lt o.descriptor_flags 1,
)

-- What an update leaves of an object that is not marked.
record IsUpdated (d : Desk) (p : ℕ) (e : Desk) : Type 0 where
  pub owner : (e.objects p).pid ≡ (d.objects p).pid
  pub unmarked : has_flag (e.objects p) flag_destroy ≡ false
  pub open_window : has_descriptor_flag (e.objects p) descriptor_minimize ≡ false
  pub listed : e.list ≡ d.list
  pub kept : e.released ≡ d.released

module _ (d : Desk) (p : ℕ) where
  update-IsUpdated : has_flag (d.objects p) flag_destroy ≡ false → IsUpdated d p (update d p)
  unfolding update recycle notify_taskbar wm_object_activate put clear_descriptor_flag
  update-IsUpdated h = ground (
    arith,
    minimize_cleared (toggle_flag flag_hide (clear_flag flag_visible (d.objects p))),
    has_flag-toggle_ne (clear_flag flag_visible (d.objects p)) 6 8 (omega arith) (omega arith)
        (omega arith),
    has_flag-clear_ne (d.objects p) 1 8 (omega arith) (omega arith) (omega arith),
    minimize_kept (clear_flag flag_flush (toggle_flag flag_hide (d.objects p))),
    has_flag-clear_ne (toggle_flag flag_hide (d.objects p)) 0 8 (omega arith) (omega arith)
        (omega arith),
    has_flag-toggle_ne (d.objects p) 6 8 (omega arith) (omega arith) (omega arith),
  )

-- An object that the first visit has marked.
record IsMarked (d : Desk) (p : ℕ) (e : Desk) : Type 0 where
  pub owner : (e.objects p).pid ≡ (d.objects p).pid
  pub hiding : has_flag (e.objects p) flag_hide ≡ true
  pub to_destroy : has_flag (e.objects p) flag_destroy ≡ true
  pub open_window : has_descriptor_flag (e.objects p) descriptor_minimize ≡ false
  pub listed : e.list ≡ d.list
  pub kept : e.released ≡ d.released

module _ (alive : ℕ → Bool) (d : Desk) (p : ℕ) (ended : alive (d.objects p).pid ≡ false) where
  visit-IsMarked : has_flag (d.objects p) flag_destroy ≡ false → IsMarked d p (visit alive d p)
  unfolding visit reap put
  visit-IsMarked h =
      let e = update d p in
      let u = update-IsUpdated d p h in
      let o = e.objects p in
      let gone : alive o.pid ≡ false = ap alive u.owner ∙ ended in
      ground (
        arith,
        gone,
        u.owner,
        u.unmarked,
        u.open_window,
        u.listed,
        u.kept,
        has_flag-set_self (clear_flag flag_visible (set_flag flag_hide o)) 8,
        has_flag-set_ne (clear_flag flag_visible (set_flag flag_hide o)) 8 6 (omega arith),
        has_flag-clear_ne (set_flag flag_hide o) 1 6 (omega arith) (omega arith) (omega arith),
        has_flag-set_self o 6,
      )

  -- A marked object is removed.
  removed :
      has_flag (d.objects p) flag_hide ≡ true
      → has_flag (d.objects p) flag_destroy ≡ true
      → has_descriptor_flag (d.objects p) descriptor_minimize ≡ false
      → ((visit alive d p).list ≡ remove_entry p d.list)
        × (((visit alive d p).objects p).flags ≡ 0)
        × ((visit alive d p).released ≡ p ∷ d.released)
        × ((visit alive d p).zones
            ≡ wm_zone_insert d.framebuffer d.zones (zone_of (d.objects p)) false)
  unfolding visit reap update recycle notify_taskbar wm_object_activate wm_object_remove put
      clear_descriptor_flag
  removed hiding marked kept =
      let o = d.objects p in
      ground (
        arith,
        has_flag-toggle_ne o 6 8 (omega arith) (omega arith) (omega arith),
        has_flag-clear_ne (toggle_flag flag_hide o) 0 8 (omega arith) (omega arith) (omega arith),
      )

-- When the process that owns an object has ended, and the object is not marked to be removed, the
-- second visit takes it off the list, gives its space back once, and frees its record.
pub retire :
    (alive : ℕ → Bool) (d : Desk) (p : ℕ)
    → alive (d.objects p).pid ≡ false
    → has_flag (d.objects p) flag_destroy ≡ false
    → ((visit alive (visit alive d p) p).list ≡ remove_entry p d.list)
      × (((visit alive (visit alive d p) p).objects p).flags ≡ 0)
      × ((visit alive (visit alive d p) p).released ≡ p ∷ d.released)
retire alive d p ended unmarked =
    let e = visit alive d p in
    let m = visit-IsMarked alive d p ended unmarked in
    let gone : alive (e.objects p).pid ≡ false = ap alive m.owner ∙ ended in
    let (list, freed, released, zones) =
      removed alive e p gone m.hiding m.to_destroy m.open_window in
    (list ∙ ap (remove_entry p) m.listed, freed, released ∙ ap (λ t. p ∷ t) m.kept)
