-- ===== src/Software/Wm/Event/Windows.antt =====
-- Requests of programs to the window manager: closing windows.
use fern_night.Prelude.{
  ℕ, false, none, some, List, [], ◌∷◌, ◌++◌, ◌==◌, if◌then◌else◌, ◌≡◌, ◌≢◌, refl, ap, ◌∙◌, arith,
}
use fern_night.Software.Wm.{zone_of}
use fern_night.Software.Wm.Zones.{wm_zone_insert}
use fern_night.Software.Wm.Objects.{put, wm_object_remove, wm_object_activate, wm_object_by_id}
use fern_night.Software.Wm.Objects.Stacking.{Missing, remove_entry_lem}
use fern_night.Software.Wm.Objects.Find.{NoId, wm_object_by_id-none, wm_object_by_id_lem}
use fern_night.Software.Wm.Passes.{notify_taskbar}
use fern_night.Software.Wm.Event.{Seat, close, receive, close_window, closed}

-- A request to close a window with a number that no object of the list has reads through the pointer
-- EMPTY.
pub receive-close_unknown :
    (memory : ℕ → ℕ) (s : Seat) (source id : ℕ)
    → NoId s.desk.objects id s.desk.list
    → receive memory s source (close id) ≡ none
unfolding receive close_window
receive-close_unknown memory s source id h =
    ground (arith, wm_object_by_id-none s.desk.objects id s.desk.list h)

module _ (memory : ℕ → ℕ) (s : Seat) (source id p : ℕ) (below above : List ℕ) (filled : p ≢ 0)
    (listed : s.desk.list ≡ below ++ (p ∷ above)) (first : NoId s.desk.objects id below)
    (named : (s.desk.objects p).id ≡ id) where
  located : wm_object_by_id s.desk.objects s.desk.list id ≡ p
  located = rw listed (wm_object_by_id_lem s.desk.objects id below above p first named)

  missing : (list : List ℕ) → NoId s.desk.objects id list → Missing p list
  missing [] n = tt
  missing (q ∷ list) (other, n) =
      (λ e. other (ap (λ t. (s.desk.objects t).id) e ∙ named), missing list n)

  -- Let `p` be the first object of the list with the number of a request to close. If another
  -- process than the object's sends it, nothing changes.
  pub receive-close_foreign :
      source ≢ (s.desk.objects p).pid → receive memory s source (close id) ≡ some s
  unfolding receive close_window
  receive-close_foreign foreign = ground (arith, located)

  -- Let the object's process send a request to close, and let `p`, which is not EMPTY, be the first
  -- object of the list with the number of the request. Then the object leaves the list, which keeps
  -- its order, its space is given back, the zone under it is queued, its record is freed, and the
  -- other objects are as before.
  pub receive-close_own :
      source ≡ (s.desk.objects p).pid
      → (t : Seat) × (receive memory s source (close id) ≡ some t)
        × (t.desk.list ≡ below ++ above)
        × (t.desk.released ≡ p ∷ s.desk.released)
        × (t.desk.zones
            ≡ wm_zone_insert s.desk.framebuffer s.desk.zones (zone_of (s.desk.objects p)) false)
        × ((q : ℕ)
            → t.desk.objects q
              ≡ (if q == p then record (s.desk.objects p) { flags = 0 } else s.desk.objects q))
  unfolding receive close_window closed notify_taskbar wm_object_activate wm_object_remove put
  receive-close_own own = (
    record s { desk = closed s.desk p },
    ground (arith, located),
    rw listed (remove_entry_lem s.desk.objects p below above (missing below first)),
    refl,
    refl,
    λ q. refl,
  )
